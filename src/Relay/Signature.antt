-- ===== src/Relay/Signature.antt =====
-- integrations/alexa-relay/src/app.js: `verifySignature`. The hash is the host's.
pub mod Laws
pub mod Tests
use helio.Prelude.{
  ℕ, zero, suc, ◌+◌, ◌-◌, ◌*◌, ◌≤◌, Bool, true, false, ◌&&◌, ◌||◌, not, Option, none, some, List,
  [], ◌∷◌, ◌++◌, ltb, leb, if◌then◌else◌, or_else, length, drop, all, is_some, ◌==◌,
}
use helio.Js.Text.{Text, codes, text_eq, starts_with, is_digit, in_range}
use helio.Js.Host.{Host, Bytes}
use helio.Relay.Errors.{Result, ok, throw, request_error, guard, Thrown, ◌>>=◌, ◌>>◌}

-- What the route reads of a request: the body if `express.raw` made it a Buffer, and two headers.
pub record Request : Type 0 where
  pub body : Option Bytes
  pub timestamp : Option Text
  pub signature : Option Text

-- `Number(text)` for a text of decimal digits.
abbrev pub decimal_from : ℕ → Text → ℕ
decimal_from n [] = n
decimal_from n (c ∷ s) = decimal_from (n * 10 + (c - b'0')) s

unfoldable pub decimal : Text → ℕ
decimal s = decimal_from 0 s

-- `/^\d{10}$/`
unfoldable pub ten_digits : Text → Bool
ten_digits s = (length s == 10) && all is_digit s

abbrev pub is_hex : ℕ → Bool
is_hex c = in_range b'a' b'f' c || is_digit c

abbrev pub signature_prefix : Text
signature_prefix = codes "sha256="

-- `/^sha256=[a-f0-9]{64}$/`
unfoldable pub signature_shape : Text → Bool
unfolding starts_with
signature_shape s = starts_with signature_prefix s && (length s == 71) && all is_hex (drop 7 s)

-- `Math.abs(a - b)`
abbrev pub distance : ℕ → ℕ → ℕ
distance a b = if leb b a then a - b else b - a

-- Five minutes, in milliseconds.
abbrev pub tolerance : ℕ
tolerance = 300000

abbrev pub max_safe_integer : ℕ
max_safe_integer = 9007199254740991

-- What is signed: the timestamp, a dot and the body.
abbrev pub message : Text → Bytes → Bytes
message timestamp body = timestamp ++ (b'.' ∷ body)

-- `timingSafeEqual(a, b)`, which throws for two lengths.
unfoldable pub timing_safe_equal : Bytes → Bytes → Result Bool
timing_safe_equal a b =
    if length a == length b
    then ok (text_eq a b)
    else throw (record { status = none; code = some (codes "ERR_CRYPTO_TIMING_SAFE_EQUAL_LENGTH") })

-- The test of the timestamp: ten digits, at most five minutes from the clock, in milliseconds.
unfoldable pub fresh_timestamp : Text → ℕ → Bool
unfolding decimal ten_digits
fresh_timestamp timestamp now =
    let seconds = decimal timestamp in
    not (
      not (ten_digits timestamp)
      || not (leb seconds max_safe_integer)
      || ltb tolerance (distance now (seconds * 1000)))

expected_signature : Host → Bytes → Text → Bytes → Text
expected_signature h secret timestamp body =
    signature_prefix ++ h.hmac_hex secret (message timestamp body)

check_signature : Host → Bytes → Text → Text → Bytes → Result (Unit {0})
unfolding signature_shape timing_safe_equal expected_signature
check_signature h secret timestamp provided body = do
  guard (signature_shape provided) (request_error 401 (codes "invalid_signature"))
  same ← timing_safe_equal provided (expected_signature h secret timestamp body)
  guard same (request_error 401 (codes "invalid_signature"))

verify_body : Host → Bytes → Request → ℕ → Option Bytes → Result (Unit {0})
unfolding fresh_timestamp check_signature
verify_body h secret r now none = throw (request_error 415 (codes "invalid_content_type"))
verify_body h secret r now (some body) = do
  guard (fresh_timestamp (or_else r.timestamp []) now) (request_error 401 (codes "expired_request"))
  check_signature h secret (or_else r.timestamp []) (or_else r.signature []) body

-- `verifySignature(request, secret, currentTime)`
unfoldable pub verify_signature : Host → Bytes → Request → ℕ → Result (Unit {0})
unfolding verify_body
verify_signature h secret r now = verify_body h secret r now r.body
