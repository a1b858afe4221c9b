-- ===== src/Relay/Errors.antt =====
-- integrations/alexa-relay/src/app.js: `requestError`, `sendRequestError`, and code that may throw.
use helio.Prelude.{◌≡◌, ◌⊎◌, inl, inr, refl, ℕ, Bool, true, false, Option, some, or_else}
use helio.Js.Text.{Text, codes}

-- What the relay reads of a thrown error: its `status` and `code`.
pub record Thrown : Type 0 where
  pub status : Option ℕ
  pub code : Option Text

-- `requestError(status, code)`
abbrev pub request_error : ℕ → Text → Thrown
request_error status code = record { status = some status; code = some code }

pub data Result {ℓ} (A : Type ℓ) : Type ℓ where
  ok : A → Result A
  throw : Thrown → Result A

infixl 5 ◌>>=◌ ◌>>◌
-- What follows in the code is not run where an error is thrown.
abbrev pub ◌>>=◌ {ℓ ℓ'} : {X : Type ℓ} {Y : Type ℓ'} (m : Result X) (next : X → Result Y) → Result Y
throw e >>= next = throw e
ok x >>= next = next x

abbrev pub ◌>>◌ {ℓ} : {Y : Type ℓ} (m : Result (Unit {0})) (next : Result Y) → Result Y
throw e >> next = throw e
ok done >> next = next

-- `if (!test) throw error`
abbrev pub guard : Bool → Thrown → Result (Unit {0})
guard true e = ok tt
guard false e = throw e

-- A JSON response of the relay: `{ error }`, or `{ accepted: true, updated }`.
pub data Reply : Type 0 where
  error_reply : ℕ → Text → Reply
  accepted : Bool → Reply

-- `sendRequestError(response, error)`
unfoldable pub send_request_error : Thrown → Reply
send_request_error e = error_reply (or_else e.status 400) (or_else e.code (codes "invalid_request"))

-- The status of the response.
abbrev pub reply_status : Reply → ℕ
reply_status (error_reply status code) = status
reply_status (accepted updated) = 202

pub Result-cases {ℓ} :
    {A : Type ℓ} (r : Result A) → ((a : A) × (r ≡ ok a)) ⊎ ((e : Thrown) × (r ≡ throw e))
Result-cases (ok a) = inl (a, refl)
Result-cases (throw e) = inr (e, refl)
