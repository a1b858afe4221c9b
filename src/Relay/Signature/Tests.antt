-- ===== src/Relay/Signature/Tests.antt =====
-- app.js: `verifySignature` at concrete requests. The digest of these tests is 64 times the letter a.
use helio.Prelude.{◌+◌, ◌≡◌, ◌↔◌, refl, none, some, [], ◌++◌, replicate, ◌≤◌}
use helio.Js.Text.{text_eq, Text, codes}
use helio.Js.Host.{Host, Bytes}
use helio.Js.Json.{null}
use helio.Js.Toy.{toy}
use helio.Relay.Errors.{ok, throw, request_error}
use helio.Relay.Signature.{Request, signature_prefix, verify_signature}
use helio.Relay.Signature.Laws.{
  IsHexDigest, IsAuthentic, verify_signature_iff, verify_signature_unique, replay_window,
}

abbrev digest : Text
digest = replicate 64 b'a'

abbrev pub signing_host : Host
signing_host = record (toy null) { hmac_hex = λ secret m. digest }

pub signing_host-IsHexDigest : (m : Bytes) → IsHexDigest (signing_host.hmac_hex [] m)
signing_host-IsHexDigest m = record { length_64 = refl; hex = refl }

abbrev pub signed : Request
signed = record {
  body = some (codes "{}");
  timestamp = some (codes "1785353400");
  signature = some (signature_prefix ++ digest);
}

accepted_in_time : verify_signature signing_host [] signed 1785353699000 ≡ ok tt
unfolding verify_signature text_eq
accepted_in_time = refl

rejected_late :
    verify_signature signing_host [] signed 1785353700001
    ≡ throw (request_error 401 (codes "expired_request"))
unfolding verify_signature text_eq
rejected_late = refl

rejected_forged :
    verify_signature signing_host []
      (record signed { signature = some (codes "sha256=00") })
      1785353400000
    ≡ throw (request_error 401 (codes "invalid_signature"))
unfolding verify_signature text_eq
rejected_forged = refl

rejected_untyped :
    verify_signature signing_host [] (record signed { body = none }) 1785353400000
    ≡ throw (request_error 415 (codes "invalid_content_type"))
unfolding verify_signature text_eq
rejected_untyped = refl

verify_signature_iff_example :
    (verify_signature signing_host [] signed 1785353699000 ≡ ok tt)
    ↔ IsAuthentic signing_host [] signed 1785353699000
verify_signature_iff_example =
    verify_signature_iff signing_host [] signed 1785353699000 signing_host-IsHexDigest

verify_signature_unique_example :
    (codes "1785353400" ≡ codes "1785353400") × (codes "{}" ≡ codes "{}")
verify_signature_unique_example =
    verify_signature_unique signing_host [] signed signed 1785353699000 1785353699000 (codes "{}")
      (codes "{}") signing_host-IsHexDigest refl refl (λ e. refl) accepted_in_time accepted_in_time
      refl

replay_window_example : 1785353699000 ≤ 1785353699000 + 600000
replay_window_example =
    replay_window signing_host [] signed signed 1785353699000 1785353699000 signing_host-IsHexDigest
      refl accepted_in_time accepted_in_time
