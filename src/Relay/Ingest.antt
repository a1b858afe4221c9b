-- ===== src/Relay/Ingest.antt =====
-- integrations/alexa-relay/src/app.js: the route POST /ingest, from `express.raw` to the response.
-- The rate limiter is a third-party package: `hit limit now` of a limiter's state says whether the
-- request passes, and gives the next state. `now` is the time that `authenticateIngest` reads, and
-- `read_at` the one that the handler reads for the snapshot.
pub mod Laws
pub mod Tests
use helio.Prelude.{ℕ, ◌+◌, Bool, true, false, Option, none, some, if◌then◌else◌}
use helio.Js.Text.{Text, codes}
use helio.Js.Host.{Host, Bytes}
use helio.Relay.Errors.{Result, ok, throw, Thrown, Reply, error_reply, accepted, send_request_error}
use helio.Relay.State.{Store, Outcome, unchanged, saving, limit_reached, update_snapshot}
use helio.Relay.Signature.{Request, verify_signature}
use helio.Relay.Snapshot.{Snapshot, snapshot_json, parse_snapshot}

-- What `express.raw` makes of the body: a Buffer, nothing for another content type, or an error, as
-- for more than 8 kB.
pub data RawBody : Type 0 where
  buffer : Bytes → RawBody
  no_buffer : RawBody
  raw_error : RawBody

pub record HttpRequest : Type 0 where
  pub raw : RawBody
  pub timestamp : Option Text
  pub signature : Option Text

-- What the route's closures share; `scheduled` counts the calls of `schedulePush`.
pub record Relay (L : Type 0) : Type 0 where
  pub store : Store
  pub attempts : L
  pub publishers : L
  pub scheduled : ℕ

-- The handler has responded, or awaits the save.
pub data Progress : Type 0 where
  replied : Reply → Progress
  waiting : Progress

-- How the awaited save ends; a failure may have a code, such as ENOSPC.
pub data SaveResult : Type 0 where
  saved : SaveResult
  save_failed : Option Text → SaveResult

abbrev pub request_of : HttpRequest → Option Bytes → Request
request_of r body = record { body = body; timestamp = r.timestamp; signature = r.signature }

abbrev pub rate_limited : Reply
rate_limited = error_reply 429 (codes "rate_limited")

module _ {L : Type 0} (hit : ℕ → ℕ → L → Bool × L) (h : Host) (secret : Bytes)
    (now read_at : ℕ) where
  -- Behind `await state.updateSnapshot(snapshot)`, as far as it goes at once.
  answer : Outcome × Store → Relay L → Progress × Relay L
  answer (saving, store) s = (waiting, record s { store = store })
  answer (unchanged, store) s = (replied (accepted false), record s { store = store })
  answer (limit_reached, store) s = (replied (accepted false), record s { store = store })

  handle_snapshot : Result Snapshot → Relay L → Progress × Relay L
  unfolding answer send_request_error
  handle_snapshot (throw e) s = (replied (send_request_error e), s)
  handle_snapshot (ok snapshot) s = answer (update_snapshot h (snapshot_json snapshot) s.store) s

  -- `authenticatedIngestLimiter`, then the handler.
  handle_authentic : Bytes → Relay L → Progress × Relay L
  unfolding handle_snapshot
  handle_authentic body s =
      let (passes, next) = hit 10 now s.publishers in
      let s' = record s { publishers = next } in
      if passes
      then handle_snapshot (parse_snapshot h body read_at) s'
      else (replied rate_limited, s')

  -- `authenticateIngest`
  authenticate : Result (Unit {0}) → Bytes → Relay L → Progress × Relay L
  unfolding handle_authentic send_request_error
  authenticate (throw e) body s = (replied (send_request_error e), s)
  authenticate (ok u) body s = handle_authentic body s

  -- `ingestAttemptLimiter`, then the rest for the body that was read.
  handle_body : HttpRequest → Option Bytes → Bytes → Relay L → Progress × Relay L
  unfolding authenticate
  handle_body r body raw s =
      let (passes, next) = hit 120 now s.attempts in
      let s' = record s { attempts = next } in
      if passes
      then authenticate (verify_signature h secret (request_of r body) now) raw s'
      else (replied rate_limited, s')

  handle_raw : HttpRequest → RawBody → Relay L → Progress × Relay L
  unfolding handle_body
  handle_raw r (buffer body) s = handle_body r (some body) body s
  handle_raw r no_buffer s = handle_body r none (codes "") s
  handle_raw r raw_error s = (replied (error_reply 500 (codes "internal_error")), s)

  -- POST /ingest up to its response, or to the save that it awaits.
  unfoldable pub ingest : HttpRequest → Relay L → Progress × Relay L
  unfolding handle_raw
  ingest r s = handle_raw r r.raw s

-- The handler goes on when the save has ended.
unfoldable pub resume : {L : Type 0} → SaveResult → Relay L → Reply × Relay L
unfolding send_request_error
resume saved s = (accepted true, record s { scheduled = s.scheduled + 1 })
resume (save_failed code) s = (send_request_error (record { status = none; code = code }), s)
