-- ===== src/Relay/Signature/Laws.antt =====
-- app.js: what `verifySignature` accepts.
use helio.Prelude.{
  ap, ◌∙◌, sym, inr, inl, Bool-cases, le→leb, ◌^◌, ◌<◌, leb, ◌-◌, ℕ, ◌+◌, ◌*◌, ◌≤◌, ◌≡◌, ◌↔◌, refl,
  true, Option, none, some, List, [], ◌∷◌, ◌++◌, arith, length, all, or_else,
}
use native.Mathlib.Nat.{pow-suc}
use helio.Js.Text.{text_eq_refl, is_digit, Text, text_eq_iff}
use helio.Relay.Signature.{
  decimal_from, max_safe_integer, Request, ten_digits, decimal, fresh_timestamp, tolerance, message,
  signature_prefix, verify_signature, verify_body, check_signature, signature_shape, is_hex,
}
use helio.Js.Host.{Host, Bytes}
use helio.Relay.Errors.{ok}

-- The documented form of an HMAC-SHA256 digest in hexadecimal.
pub record IsHexDigest (digest : Text) : Type 0 where
  pub length_64 : length digest ≡ 64
  pub hex : all is_hex digest ≡ true

-- A request that the holder of the secret signed within five minutes of the clock.
pub record IsAuthentic (h : Host) (secret : Bytes) (r : Request) (now : ℕ) : Type 0 where
  pub body : Bytes
  pub has_body : r.body ≡ some body
  pub digits : ten_digits (or_else r.timestamp []) ≡ true
  pub not_old : now ≤ decimal (or_else r.timestamp []) * 1000 + tolerance
  pub not_ahead : decimal (or_else r.timestamp []) * 1000 ≤ now + tolerance
  pub signed :
      or_else r.signature []
      ≡ signature_prefix ++ h.hmac_hex secret (message (or_else r.timestamp []) body)

decimal_from-lt :
    (n : ℕ) (s : Text) → all is_digit s ≡ true → decimal_from n s < (n + 1) * 10 ^ length s
decimal_from-lt n [] h = omega arith
decimal_from-lt n (c ∷ s) h =
    let digit : (b'0' ≤ c) × (c ≤ b'9') = ground arith in
    let ih : decimal_from (n * 10 + (c - b'0')) s < (n * 10 + (c - b'0') + 1) * 10 ^ length s =
      decimal_from-lt (n * 10 + (c - b'0')) s (ground arith) in
    rw pow-suc (grind arith)

decimal-safe : (s : Text) → ten_digits s ≡ true → leb (decimal s) max_safe_integer ≡ true
unfolding decimal ten_digits
decimal-safe s h =
    let ten : length s ≡ 10 = ground arith in
    let below : decimal_from 0 s < (0 + 1) * 10 ^ 10 =
      rw ten at (decimal_from-lt 0 s (ground arith)) in
    le→leb _ _ (omega arith)

fresh_timestamp_iff :
    (s : Text) (now : ℕ)
    → (fresh_timestamp s now ≡ true) ↔ (
        (ten_digits s ≡ true)
        × (now ≤ decimal s * 1000 + tolerance)
        × (decimal s * 1000 ≤ now + tolerance))
unfolding fresh_timestamp
fresh_timestamp_iff s now = ground (arith, decimal-safe s)

signature_shape-expected :
    (digest : Text) → IsHexDigest digest → signature_shape (signature_prefix ++ digest) ≡ true
unfolding signature_shape
signature_shape-expected digest d = ground (arith, d.hex, d.length_64)

-- The signature test passes exactly for the expected text.
check_signature_iff :
    (h : Host) (secret : Bytes) (timestamp provided : Text) (body : Bytes)
    → IsHexDigest (h.hmac_hex secret (message timestamp body))
    → (check_signature h secret timestamp provided body ≡ ok tt)
      ↔ (provided ≡ signature_prefix ++ h.hmac_hex secret (message timestamp body))
unfolding check_signature
check_signature_iff h secret timestamp provided body d =
    let expected : Text = signature_prefix ++ h.hmac_hex secret (message timestamp body) in
    let shape : signature_shape expected ≡ true =
      signature_shape-expected (h.hmac_hex secret (message timestamp body)) d in
    (
      λ e. ground (arith, text_eq_iff provided expected),
      λ e. rw (e, shape, text_eq_refl expected) (ground arith),
    )

verify_body_sound :
    (h : Host) (secret : Bytes) (r : Request) (now : ℕ) (b : Option Bytes)
    → ((m : Bytes) → IsHexDigest (h.hmac_hex secret m))
    → r.body ≡ b
    → verify_body h secret r now b ≡ ok tt
    → IsAuthentic h secret r now
unfolding verify_body
verify_body_sound h secret r now none hex e f = cc
verify_body_sound h secret r now (some body) hex e f =
    elim (Bool-cases (fresh_timestamp (or_else r.timestamp []) now)) [
      | inl fresh ↦
          let (digits, old, ahead) = (fresh_timestamp_iff (or_else r.timestamp []) now).0 fresh in
          record {
            body = body;
            has_body = e;
            digits = digits;
            not_old = old;
            not_ahead = ahead;
            signed =
                (check_signature_iff h secret (or_else r.timestamp []) (or_else r.signature []) body
                    (hex _)).0
                  (rw (fresh, verify_body) at f);
          }
      | inr stale ↦ cc (rw (stale, verify_body) at f)
    ]

verify_body_complete :
    (h : Host) (secret : Bytes) (r : Request) (now : ℕ)
    → ((m : Bytes) → IsHexDigest (h.hmac_hex secret m))
    → IsAuthentic h secret r now
    → verify_body h secret r now r.body ≡ ok tt
unfolding verify_body
verify_body_complete h secret r now hex a =
    let fresh : fresh_timestamp (or_else r.timestamp []) now ≡ true =
      (fresh_timestamp_iff (or_else r.timestamp []) now).1 (a.digits, a.not_old, a.not_ahead) in
    rw (a.has_body, verify_body, fresh)
      ((check_signature_iff h secret (or_else r.timestamp []) (or_else r.signature []) a.body
          (hex _)).1
        a.signed)

-- `verifySignature` returns exactly for the requests that have a Buffer as their body, a timestamp of
-- ten digits at most five minutes from the clock, and the HMAC of that timestamp and body as their
-- signature; it throws for all others. (Digests have 64 hexadecimal digits.)
pub verify_signature_iff :
    (h : Host) (secret : Bytes) (r : Request) (now : ℕ)
    → ((m : Bytes) → IsHexDigest (h.hmac_hex secret m))
    → (verify_signature h secret r now ≡ ok tt) ↔ IsAuthentic h secret r now
unfolding verify_signature
verify_signature_iff h secret r now hex =
    (verify_body_sound h secret r now r.body hex refl, verify_body_complete h secret r now hex)

append-inj_length : (a b s t : List ℕ) → length a ≡ length b → a ++ s ≡ b ++ t → (a ≡ b) × (s ≡ t)
append-inj_length [] [] s t e f = (refl, f)
append-inj_length [] (y ∷ b) s t e f = absurd (omega arith)
append-inj_length (x ∷ a) [] s t e f = absurd (omega arith)
append-inj_length (x ∷ a) (y ∷ b) s t e f =
    let (heads, tails) = append-inj_length a b s t (omega arith) (cc) in (cc, tails)

-- A signature is good for one timestamp and one body: two accepted requests that carry the same one
-- have both in common, where the hash tells their two messages apart if they differ.
pub verify_signature_unique :
    (h : Host) (secret : Bytes) (r q : Request) (now after : ℕ) (b c : Bytes)
    → ((m : Bytes) → IsHexDigest (h.hmac_hex secret m))
    → r.body ≡ some b
    → q.body ≡ some c
    → (h.hmac_hex secret (message (or_else r.timestamp []) b)
          ≡ h.hmac_hex secret (message (or_else q.timestamp []) c)
        → message (or_else r.timestamp []) b ≡ message (or_else q.timestamp []) c)
    → verify_signature h secret r now ≡ ok tt
    → verify_signature h secret q after ≡ ok tt
    → or_else r.signature [] ≡ or_else q.signature []
    → (or_else r.timestamp [] ≡ or_else q.timestamp []) × (b ≡ c)
unfolding ten_digits
verify_signature_unique h secret r q now after b c hex rb qc no_collision e f same =
    let a = (verify_signature_iff h secret r now hex).0 e in
    let d = (verify_signature_iff h secret q after hex).0 f in
    let ab : a.body ≡ b = cc (a.has_body) in
    let dc : d.body ≡ c = cc (d.has_body) in
    let digests : signature_prefix ++ h.hmac_hex secret (message (or_else r.timestamp []) a.body)
        ≡ signature_prefix ++ h.hmac_hex secret (message (or_else q.timestamp []) d.body) =
      sym a.signed ∙ same ∙ d.signed in
    let messages = no_collision (cc (digests, ab, dc)) in
    let ten : length (or_else r.timestamp []) ≡ length (or_else q.timestamp []) =
      ground (arith, a.digits, d.digits) in
    let (stamps, rest) = append-inj_length _ _ (b'.' ∷ b) (b'.' ∷ c) ten messages in (stamps, cc)

-- A captured request can be replayed for ten minutes at most: two times at which requests with one
-- timestamp are accepted lie no further apart.
pub replay_window :
    (h : Host) (secret : Bytes) (r q : Request) (now after : ℕ)
    → ((m : Bytes) → IsHexDigest (h.hmac_hex secret m))
    → r.timestamp ≡ q.timestamp
    → verify_signature h secret r now ≡ ok tt
    → verify_signature h secret q after ≡ ok tt
    → after ≤ now + 600000
replay_window h secret r q now after hex same e f =
    let a = (verify_signature_iff h secret r now hex).0 e in
    let d = (verify_signature_iff h secret q after hex).0 f in
    let times : decimal (or_else r.timestamp []) ≡ decimal (or_else q.timestamp []) =
      ap (λ (t : Option Text). decimal (or_else t [])) same in
    omega (arith, a.not_ahead, d.not_old, times)
