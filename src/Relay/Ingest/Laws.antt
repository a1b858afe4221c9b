-- ===== src/Relay/Ingest/Laws.antt =====
-- app.js: what a request to /ingest can change, and what it answers.
use helio.Prelude.{[], ℕ, ◌≡◌, ◌⊎◌, inl, inr, refl, Bool, false, none, some, Bool-cases}
use helio.Relay.Errors.{Result-cases, ok, throw, error_reply, accepted, Thrown}
use helio.Js.Host.{Host, Bytes}
use helio.Relay.State.{Store, update_snapshot, Outcome, saving, unchanged, limit_reached}
use helio.Relay.Signature.{verify_signature}
use helio.Relay.Snapshot.{Snapshot, snapshot_json, parse_snapshot}
use helio.Relay.Ingest.{
  HttpRequest, RawBody, buffer, no_buffer, raw_error, Relay, Progress, replied, waiting, ingest,
  handle_raw, handle_body, handle_authentic, answer, request_of,
}

module _ {L : Type 0} (hit : ℕ → ℕ → L → Bool × L) (h : Host) (secret : Bytes)
    (now read_at : ℕ) where
  -- The response is an error.
  abbrev pub IsRefusal : Progress → Type 0
  IsRefusal (replied (error_reply status code)) = Unit
  IsRefusal (replied (accepted updated)) = ⊥
  IsRefusal waiting = ⊥

  -- The response is an error and the state of the relay's store is as before.
  abbrev pub IsRefused : Relay L → Progress × Relay L → Type 0
  IsRefused s t = IsRefusal t.0 × (t.1.store ≡ s.store)

  -- A valid snapshot was read, `updateSnapshot` has the effect on the store, and the handler awaits the
  -- save or has responded that nothing changed.
  pub record IsHandled (body : Bytes) (s : Relay L) (t : Progress × Relay L) : Type 0 where
    pub snapshot : Snapshot
    pub parsed : parse_snapshot h body read_at ≡ ok snapshot
    pub stored : t.1.store ≡ (update_snapshot h (snapshot_json snapshot) s.store).1
    pub answered : (t.0 ≡ waiting) ⊎ (t.0 ≡ replied (accepted false))

  answer_lem :
      (o : Outcome × Store) (s : Relay L)
      → ((answer hit h secret now read_at o s).1.store ≡ o.1)
        × (((answer hit h secret now read_at o s).0 ≡ waiting)
            ⊎ ((answer hit h secret now read_at o s).0 ≡ replied (accepted false)))
  unfolding answer
  answer_lem (saving, store) s = (refl, inl refl)
  answer_lem (unchanged, store) s = (refl, inr refl)
  answer_lem (limit_reached, store) s = (refl, inr refl)

  handle_authentic_lem :
      (body : Bytes) (s : Relay L)
      → IsRefused s (handle_authentic hit h secret now read_at body s)
        ⊎ IsHandled body s (handle_authentic hit h secret now read_at body s)
  unfolding handle_authentic
  handle_authentic_lem body s = elim (Bool-cases (hit 10 now s.publishers).0) [
    | inl passes ↦ elim (Result-cases (parse_snapshot h body read_at)) [
      | inl (snapshot, parsed) ↦
          let next = record s { publishers = (hit 10 now s.publishers).1 } in
          let o = answer_lem (update_snapshot h (snapshot_json snapshot) s.store) next in
          rw (passes, parsed, handle_authentic)
            (inr (record { snapshot = snapshot; parsed = parsed; stored = o.0; answered = o.1 }))
      | inr (e, bad) ↦ rw (passes, bad, handle_authentic) (inl (tt, refl))
    ]
    | inr limited ↦ rw (limited, handle_authentic) (inl (tt, refl))
  ]

  -- A request whose signature verifies and whose snapshot is handled.
  pub record IsGenuine (r : HttpRequest) (s : Relay L) (t : Progress × Relay L) : Type 0 where
    pub body : Bytes
    pub read : r.raw ≡ buffer body
    pub verified : verify_signature h secret (request_of r (some body)) now ≡ ok tt
    pub handled : IsHandled body s t

  handle_buffer_lem :
      (r : HttpRequest) (body : Bytes) (s : Relay L)
      → r.raw ≡ buffer body
      → IsRefused s (handle_body hit h secret now read_at r (some body) body s)
        ⊎ IsGenuine r s (handle_body hit h secret now read_at r (some body) body s)
  unfolding handle_body
  handle_buffer_lem r body s read = elim (Bool-cases (hit 120 now s.attempts).0) [
    | inl passes ↦ elim (Result-cases (verify_signature h secret (request_of r (some body)) now)) [
      | inl (u, verified) ↦
          let next = record s { attempts = (hit 120 now s.attempts).1 } in
          rw (passes, verified, handle_body)
            (elim (handle_authentic_lem body next) [
              | inl refused ↦ inl refused
              | inr handled ↦ inr (record {
                body = body;
                read = read;
                verified = verified;
                handled = record {
                  snapshot = handled.snapshot;
                  parsed = handled.parsed;
                  stored = handled.stored;
                  answered = handled.answered;
                };
              })
            ])
      | inr (e, bad) ↦ rw (passes, bad, handle_body) (inl (tt, refl))
    ]
    | inr limited ↦ rw (limited, handle_body) (inl (tt, refl))
  ]

  handle_no_buffer_lem :
      (r : HttpRequest) (s : Relay L)
      → IsRefused s (handle_body hit h secret now read_at r none [] s)
  unfolding handle_body verify_signature
  handle_no_buffer_lem r s = elim (Bool-cases (hit 120 now s.attempts).0) [
    | inl passes ↦ rw (passes, handle_body) (tt, refl)
    | inr limited ↦ rw (limited, handle_body) (tt, refl)
  ]

  handle_raw_lem :
      (r : HttpRequest) (raw : RawBody) (s : Relay L)
      → r.raw ≡ raw
      → IsRefused s (handle_raw hit h secret now read_at r raw s)
        ⊎ IsGenuine r s (handle_raw hit h secret now read_at r raw s)
  unfolding handle_raw
  handle_raw_lem r (buffer body) s read = handle_buffer_lem r body s read
  handle_raw_lem r no_buffer s read = inl (handle_no_buffer_lem r s)
  handle_raw_lem r raw_error s read = inl (tt, refl)

  -- A request to /ingest either gets an error response and leaves the store of the relay as it was, or
  -- it had a Buffer as its body, a signature that verifies and a valid snapshot: then the store is
  -- that which `updateSnapshot` leaves, and the handler awaits the save or has responded that nothing
  -- was updated.
  pub ingest_lem :
      (r : HttpRequest) (s : Relay L)
      → IsRefused s (ingest hit h secret now read_at r s)
        ⊎ IsGenuine r s (ingest hit h secret now read_at r s)
  unfolding ingest
  ingest_lem r s = handle_raw_lem r r.raw s refl

  -- A request that fails the signature test, whatever its error, uses none of the ten requests a
  -- minute of the authenticated publisher, leaves the store alone and gets an error response.
  pub ingest-unverified :
      (r : HttpRequest) (body : Bytes) (s : Relay L) (e : Thrown)
      → r.raw ≡ buffer body
      → verify_signature h secret (request_of r (some body)) now ≡ throw e
      → ((ingest hit h secret now read_at r s).1.publishers ≡ s.publishers)
        × IsRefused s (ingest hit h secret now read_at r s)
  unfolding ingest handle_body
  ingest-unverified r body s e read bad = elim (Bool-cases (hit 120 now s.attempts).0) [
    | inl passes ↦ rw (read, ingest, handle_raw, passes, handle_body, bad) (refl, (tt, refl))
    | inr limited ↦ rw (read, ingest, handle_raw, limited, handle_body) (refl, (tt, refl))
  ]
