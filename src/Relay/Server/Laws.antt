-- ===== src/Relay/Server/Laws.antt =====
-- server.js: what a relay that starts can rely on.

use helio.Js.Text.{text_eq_iff, Text, starts_with, drop_end}
use helio.Prelude.{
  if◌then◌else◌, ◌==◌, ℕ, ◌≤◌, ◌≡◌, refl, true, false, Option, none, some, arith, length,
}
use helio.Js.Host.{Bytes}
use helio.Relay.Server.{
  Base64, Environment, Config, decode_secret, required, app_accepts, start, configured,
  skill_prefix, ◌>>=◌,
}

pub record IsReady (b : Base64) (env : Environment) (c : Config) : Type 0 where
  pub long_secret : 32 ≤ length c.secret
  pub same_secret :
      drop_end (λ (x : ℕ). x == b'=') (b.encode c.secret)
      ≡ drop_end (λ (x : ℕ). x == b'=') env.shared_secret
  pub skill : starts_with skill_prefix c.skill ≡ true
  pub ready : configured c ≡ true

decode_secret_lem :
    (b : Base64) (value : Text) (s : Bytes)
    → decode_secret b value ≡ some s
    → (32 ≤ length s)
      × (drop_end (λ (x : ℕ). x == b'=') (b.encode s) ≡ drop_end (λ (x : ℕ). x == b'=') value)
unfolding decode_secret
decode_secret_lem b value s e = ground (
  arith,
  text_eq_iff (drop_end (λ (x : ℕ). x == b'=') (b.encode (b.decode value)))
      (drop_end (λ (x : ℕ). x == b'=') value),
)

required-nonempty : (o : Option Text) (t : Text) → required o ≡ some t → (length t == 0) ≡ false
unfolding required
required-nonempty none t e = cc
required-nonempty (some v) t e = ground arith

bind-eq_some :
    {A B : Type 0} (m : Option A) (f : A → Option B) {b : B}
    → (m >>= f) ≡ some b
    → (a : A) × (m ≡ some a) × (f a ≡ some b)
bind-eq_some (some a) f h = (a, refl, h)
bind-eq_some none f h = cc

accepted-IsReady :
    (b : Base64) (env : Environment) (c : Config) (d : Config)
    → decode_secret b env.shared_secret ≡ some d.secret
    → (length d.client == 0) ≡ false
    → (length d.client_key == 0) ≡ false
    → (if app_accepts d.secret d.skill then some d else none) ≡ some c
    → IsReady b env c
unfolding app_accepts configured
accepted-IsReady b env c d e f g h =
    ground (arith, decode_secret_lem b env.shared_secret d.secret e)

-- A relay that starts has a secret of at least 32 bytes, which is the one that the environment spells,
-- a skill ID with the prefix of Alexa, and credentials with which its Data Store client is configured:
-- `push` never skips a delivery for want of them.
pub start-IsReady :
    (b : Base64) (env : Environment) (c : Config) → start b env ≡ some c → IsReady b env c
unfolding start
start-IsReady b env c e =
    let (secret, decoded, e1) = bind-eq_some (decode_secret b env.shared_secret) _ e in
    let (skill, has_skill, e2) = bind-eq_some (required env.skill_id) _ e1 in
    let (client, has_client, e3) = bind-eq_some (required env.client_id) _ e2 in
    let (key, has_key, e4) = bind-eq_some (required env.client_secret) _ e3 in
    accepted-IsReady b env c
      (record { secret = secret; skill = skill; client = client; client_key = key }) decoded
      (required-nonempty env.client_id client has_client)
      (required-nonempty env.client_secret key has_key) e4
