-- ===== src/Relay/Client.antt =====
-- integrations/alexa-relay/src/alexa-client.js: the client of the Alexa Data Store. The network is a
-- parameter: `fetcher request world` is the outcome of a fetch and the world after it, and
-- `now world` is `Date.now()`.
pub mod Widget
pub mod Batches
pub mod Requests
pub mod Counts
pub mod Targets
pub mod Tests
use helio.Prelude.{
  ℕ, zero, suc, ◌+◌, ◌-◌, ◌*◌, ◌^◌, Bool, true, false, ◌&&◌, ◌||◌, not, Option, none, some, List,
  [], ◌∷◌, ◌++◌, leb, ltb, lebℤ, if◌then◌else◌, length, take, drop, pos, pos_part, ℤ, ◌==◌, or_else,
}
use helio.Js.Text.{Text, codes, text_eq}
use helio.Js.Number.{Number, dyadic, infinity, neg_infinity, nan, at_most}
use helio.Js.Json.{
  Json, null, bool, number, string, array, object, get_field, as_string, as_number, as_array,
  truthy,
}
use helio.Js.Host.{Host}
use helio.Relay.Client.Widget.{Display, display_snapshot}

pub data FetchRequest : Type 0 where
  -- POST to the token URL with the client's credentials
  token_request : FetchRequest
  -- POST of a PUT_OBJECT command, with the token, the content and the target devices
  put_object : (token : Text) → Display → (devices : List Text) → FetchRequest

-- `fetch` rejects, or there is a response: its status, and its body if that is JSON.
pub data FetchResult : Type 0 where
  unreachable : FetchResult
  response : (status : ℕ) → (body : Option Json) → FetchResult

pub record Token : Type 0 where
  pub value : Text
  pub expires_at : Number

-- What the client throws.
pub data Failure : Type 0 where
  fetch_failed bad_json bad_date bad_body invalid_token : Failure
  http_status : ℕ → Failure

pub data Answer {ℓ} (A : Type ℓ) : Type ℓ where
  done : A → Answer A
  failed : Failure → Answer A

-- `#token`, the world, and the requests sent so far, the last first.
pub record Client (W : Type 0) : Type 0 where
  pub token : Option Token
  pub world : W
  pub sent : List FetchRequest

abbrev pub M : Type 0 → Type 0 → Type 0
M W A = Client W → Answer A × Client W

abbrev pub continue : {W A B : Type 0} → Answer A → (A → M W B) → Client W → Answer B × Client W
continue (done a) f c = f a c
continue (failed e) f c = (failed e, c)

infixl 5 ◌>>=◌ ◌>>◌
abbrev pub ◌>>=◌ : {W A B : Type 0} → M W A → (A → M W B) → M W B
◌>>=◌ m f c = let (r, c') = m c in continue r f c'

abbrev pub ◌>>◌ : {W A B : Type 0} → M W A → M W B → M W B
m >> k = m >>= λ _. k

abbrev pub pure : {W A : Type 0} → A → M W A
pure a c = (done a, c)

abbrev pub raise : {W A : Type 0} → Failure → M W A
raise e c = (failed e, c)

abbrev pub lift : {W A : Type 0} → Option A → Failure → M W A
lift none e c = (failed e, c)
lift (some a) e c = (done a, c)

-- `response.ok`
abbrev pub is_ok : ℕ → Bool
is_ok status = leb 200 status && leb status 299

-- `x > n`
abbrev pub greater_than : Number → ℕ → Bool
greater_than (dyadic m k) n = not (at_most (dyadic m k) n)
greater_than infinity n = true
greater_than neg_infinity n = false
greater_than nan n = false

-- `now + Math.max(60, expires_in - 60) * 1000` of a finite number; without the rounding of doubles.
unfoldable pub expiry : ℕ → ℤ → ℕ → Number
expiry now m k =
    let seconds = if lebℤ (pos (120 * 2 ^ k)) m then pos_part m - 60 * 2 ^ k else 60 * 2 ^ k in
    dyadic (pos (now * 2 ^ k + seconds * 1000)) k

-- The token of a response of the token URL, if it has the expected form.
unfoldable pub read_token : ℕ → Json → Option Token
unfolding expiry
read_token now body = elim (as_string (get_field (codes "access_token") body)) [
  | none ↦ none
  | some value ↦ elim (as_number (get_field (codes "expires_in") body)) [
    | none ↦ none
    | some x ↦ elim x [
      | dyadic m k ↦ some (record { value = value; expires_at = expiry now m k })
      | infinity ↦ none
      | neg_infinity ↦ none
      | nan ↦ none
    ]
  ]
]

-- `body.results` if it is an array, else none; null has no properties.
unfoldable pub read_results : Json → Option (List Json)
read_results null = none
read_results v = elim (get_field (codes "results") v) [
  | none ↦ some []
  | some w ↦ some (or_else (as_array w) [])
]

-- `results.filter((result) => result.type === 'SUCCESS').length`; a null among them throws.
unfoldable pub successes : List Json → Option ℕ
successes [] = some 0
successes (null ∷ vs) = none
successes (v ∷ vs) = elim (successes vs) [
  | none ↦ none
  | some n ↦ elim (as_string (get_field (codes "type") v)) [
    | none ↦ some n
    | some t ↦ some (if text_eq t (codes "SUCCESS") then n + 1 else n)
  ]
]

pub record Delivery : Type 0 where
  pub attempted : ℕ
  pub delivered : ℕ

module _ {W : Type 0} (fetcher : FetchRequest → W → FetchResult × W) (now : W → ℕ) (h : Host)
    (timezone : Text) where
  answer_of : FetchResult → Client W → Answer (ℕ × Option Json) × Client W
  answer_of unreachable c = (failed fetch_failed, c)
  answer_of (response status body) c = (done (status, body), c)

  -- `await this.fetcher(…)`
  pub fetch : FetchRequest → M W (ℕ × Option Json)
  unfolding answer_of
  fetch r c =
      let (result, world) = fetcher r c.world in
      answer_of result (record c { world = world; sent = r ∷ c.sent })

  clear_token : M W (Unit {0})
  clear_token c = (done tt, record c { token = none })

  store_token : Json → M W Text
  unfolding read_token
  store_token body c = elim (read_token (now c.world) body) [
    | none ↦ (failed invalid_token, c)
    | some t ↦ (done t.value, record c { token = some t })
  ]

  check_token : ℕ × Option Json → M W Text
  unfolding store_token
  check_token (status, body) =
      if is_ok status
      then (do v ← lift body bad_json; store_token v)
      else raise (http_status status)

  login : M W Text
  unfolding fetch check_token
  login = do answer ← fetch token_request; check_token answer

  cached : Option Token → M W Text
  unfolding login
  cached none c = login c
  cached (some t) c = if greater_than t.expires_at (now c.world) then (done t.value, c) else login c

  -- `#accessToken()`
  unfoldable pub access_token : M W Text
  unfolding cached
  access_token c = cached c.token c

  -- One POST of `#send`, with the token that is good now.
  unfoldable pub post : Json → List Text → M W (ℕ × Option Json)
  unfolding access_token fetch
  post snapshot devices = do
    token ← access_token
    display ← lift (display_snapshot h timezone snapshot) bad_date
    fetch (put_object token display devices)

  finish : ℕ × Option Json → M W (List Json)
  unfolding read_results
  finish (status, body) =
      if is_ok status
      then (do v ← lift body bad_json; lift (read_results v) bad_body)
      else raise (http_status status)

  -- `#send(snapshot, devices, false)`
  unfoldable pub send_again : Json → List Text → M W (List Json)
  unfolding post finish
  send_again snapshot devices = do answer ← post snapshot devices; finish answer

  unfoldable pub retry : Json → List Text → ℕ × Option Json → M W (List Json)
  unfolding send_again clear_token finish
  retry snapshot devices (status, body) =
      if status == 401 then (do clear_token; send_again snapshot devices) else finish (status, body)

  -- `#send(snapshot, devices)`: a response 401 is retried once, with a new token.
  unfoldable pub send : Json → List Text → M W (List Json)
  unfolding post retry
  send snapshot devices = do answer ← post snapshot devices; retry snapshot devices answer

  -- The loop of `push`, a round for each twenty devices; `rounds` bounds it.
  unfoldable pub push_from : ℕ → Json → List Text → Delivery → M W Delivery
  unfolding send successes
  push_from zero snapshot devices d = pure d
  push_from (suc rounds) snapshot [] d = pure d
  push_from (suc rounds) snapshot (x ∷ devices) d =
      let batch = take 20 (x ∷ devices) in
      do
        results ← send snapshot batch
        delivered ← lift (successes results) bad_body
        push_from rounds snapshot (drop 20 (x ∷ devices))
            (record { attempted = d.attempted + length batch; delivered = d.delivered + delivered })

  -- `push(snapshot, devices)` of a client that is configured or not.
  unfoldable pub push : (configured : Bool) → Json → List Text → M W Delivery
  unfolding push_from
  push configured snapshot devices =
      if (not (truthy snapshot) || length devices == 0) || not configured
      then pure (record { attempted = 0; delivered = 0 })
      else push_from (length devices) snapshot devices (record { attempted = 0; delivered = 0 })
