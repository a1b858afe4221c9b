-- ===== src/Relay/Ingest/Tests.antt =====
-- app.js: requests to /ingest with a limiter that counts.
use helio.Prelude.{ℕ, ◌+◌, ◌≡◌, ◌⊎◌, refl, false, none, some, Bool, [], ltb}
use helio.Js.Text.{codes, text_eq}
use helio.Js.Json.{find_field}
use helio.Js.Host.{Host}
use helio.Relay.Errors.{throw, error_reply, request_error}
use helio.Relay.State.{empty_state, update_snapshot, save, observed_at}
use helio.Relay.Signature.{verify_signature}
use helio.Relay.Signature.Tests.{signing_host, signed}
use helio.Relay.Snapshot.{parse_snapshot, read_snapshot, is_allowed, valid_date, status_shape}
use helio.Relay.Snapshot.Tests.{still_host, reading}
use helio.Relay.Ingest.{
  HttpRequest, Relay, buffer, no_buffer, ingest, resume, save_failed, waiting, replied,
  rate_limited, request_of,
}
use helio.Relay.Ingest.Laws.{IsRefused, IsGenuine, ingest_lem}

abbrev counting : ℕ → ℕ → ℕ → Bool × ℕ
counting limit now used = (ltb used limit, used + 1)

abbrev host : Host
host = record (still_host reading) { hmac_hex = signing_host.hmac_hex }

abbrev request : HttpRequest
request = record {
  raw = buffer (codes "{}");
  timestamp = signed.timestamp;
  signature = signed.signature;
}

abbrev idle : Relay ℕ
idle = record {
  store = record {
    memory = empty_state;
    queue = [];
    rejected = false;
    file = none;
    temporary = none;
  };
  attempts = 0;
  publishers = 0;
  scheduled = 0;
}

route_code : Unit {0}
unfolding ingest resume verify_signature parse_snapshot read_snapshot text_eq find_field is_allowed
    valid_date status_shape update_snapshot save observed_at
route_code = tt

waits : (ingest counting host [] 1785353400000 1785353400007 request idle).0 ≡ waiting
unfolding route_code
waits = refl

limited :
    (ingest counting host [] 1785353400000 1785353400007 request
      (record idle { publishers = 10 })).0
    ≡ replied rate_limited
unfolding route_code
limited = refl

untyped :
    (ingest counting host [] 1785353400000 1785353400007
      (record request { raw = no_buffer })
      idle).0
    ≡ replied (error_reply 415 (codes "invalid_content_type"))
unfolding route_code
untyped = refl

-- A failed save is answered as a bad request, with the code of the file system.
full_disk : (resume (save_failed (some (codes "ENOSPC"))) idle).0 ≡ error_reply 400 (codes "ENOSPC")
unfolding route_code
full_disk = refl

expired :
    verify_signature host [] (request_of request (some (codes "{}"))) 0
    ≡ throw (request_error 401 (codes "expired_request"))
unfolding route_code
expired = refl

ingest_lem_example :
    IsRefused counting host [] 1785353400000 1785353400007 idle
      (ingest counting host [] 1785353400000 1785353400007 request idle)
    ⊎ IsGenuine counting host [] 1785353400000 1785353400007 request idle
        (ingest counting host [] 1785353400000 1785353400007 request idle)
ingest_lem_example = ingest_lem counting host [] 1785353400000 1785353400007 request idle
