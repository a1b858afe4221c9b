-- ===== src/Relay/Server.antt =====
-- integrations/alexa-relay/src/server.js: the settings that the relay starts with, and the tests with
-- which `createApp` begins. Node's base64 is a parameter.
pub mod Laws
use helio.Prelude.{
  ℕ, Bool, true, false, ◌&&◌, ◌||◌, not, Option, none, some, List, [], ◌∷◌, if◌then◌else◌, leb,
  length, ◌==◌,
}
use helio.Js.Text.{Text, codes, text_eq, starts_with, drop_end, trim}
use helio.Js.Host.{Bytes}

-- `Buffer.from(text, 'base64')` and `buffer.toString('base64')`.
pub record Base64 : Type 0 where
  pub decode : Text → Bytes
  pub encode : Bytes → Text

abbrev is_padding : ℕ → Bool
is_padding c = c == b'='

-- `decodeSecret(value)`; `none` is its error.
unfoldable pub decode_secret : Base64 → Text → Option Bytes
decode_secret b value =
    let decoded = b.decode value in
    if not (leb 32 (length decoded))
      || not (text_eq (drop_end is_padding (b.encode decoded)) (drop_end is_padding value))
    then none
    else some decoded

-- `required(name)`, for what `process.env[name]` is.
unfoldable pub required : Option Text → Option Text
required none = none
required (some value) = if length (trim value) == 0 then none else some (trim value)

abbrev pub skill_prefix : Text
skill_prefix = codes "amzn1.ask.skill."

-- The tests of `createApp`.
unfoldable pub app_accepts : Bytes → Text → Bool
app_accepts secret skill = leb 32 (length secret) && starts_with skill_prefix skill

-- The variables of the environment that the relay needs.
pub record Environment : Type 0 where
  pub shared_secret : Text
  pub skill_id : Option Text
  pub client_id : Option Text
  pub client_secret : Option Text

pub record Config : Type 0 where
  pub secret : Bytes
  pub skill : Text
  pub client : Text
  pub client_key : Text

infixl 5 ◌>>=◌
abbrev ◌>>=◌ {ℓ κ} : {A : Type ℓ} {B : Type κ} → Option A → (A → Option B) → Option B
none >>= f = none
some a >>= f = f a

-- The start of the relay up to `app.listen`; `none` is an error that ends the process.
unfoldable pub start : Base64 → Environment → Option Config
unfolding decode_secret required app_accepts
start b env = do
  secret ← decode_secret b env.shared_secret
  skill ← required env.skill_id
  client ← required env.client_id
  client_key ← required env.client_secret
  if app_accepts secret skill
      then some
          (record { secret = secret; skill = skill; client = client; client_key = client_key })
      else none

-- `AlexaDataStoreClient.configured()` of the client that `start` makes.
unfoldable pub configured : Config → Bool
configured c = not (length c.client == 0) && not (length c.client_key == 0)
