-- ===== src/Relay/Client/Tests.antt =====
-- alexa-client.js: pushes against a service that answers by a script.
use helio.Prelude.{ℕ, ◌*◌, ◌≡◌, refl, true, none, some, List, [], ◌∷◌, length, All}
use helio.Js.Text.{Text, codes, text_eq}
use helio.Js.Number.{whole}
use helio.Js.Json.{Json, null, number, string, array, object, field, end, cons, nil, find_field}
use helio.Js.Host.{Host}
use helio.Js.Toy.{toy}
use helio.Relay.State.{observed_at}
use helio.Relay.Client.Widget.{display_snapshot}
use helio.Relay.Client.{
  FetchRequest, FetchResult, response, unreachable, Client, done, failed, push, http_status,
}
use helio.Relay.Client.Batches.{IsBatch, Adds}
use helio.Relay.Client.Requests.{push-Sends}
use helio.Relay.Client.Targets.{IsTarget, push-attempted}

client_code : Unit {0}
unfolding push display_snapshot text_eq find_field observed_at
client_code = tt

abbrev World : Type 0
World = List FetchResult

-- The next answer of the script.
abbrev scripted : FetchRequest → World → FetchResult × World
scripted r [] = (unreachable, [])
scripted r (x ∷ xs) = (x, xs)

abbrev clock : World → ℕ
clock w = 1000

abbrev host : Host
host = toy null

abbrev snapshot : Json
snapshot = object (
    field (codes "observedAt") (string (codes "20"))
      (field (codes "acPowerW") (number (whole 840)) end))

abbrev login_ok : FetchResult
login_ok = response 200 (
    some (
      object (
        field (codes "access_token") (string (codes "t"))
          (field (codes "expires_in") (number (whole 3600)) end))))

abbrev put_ok : FetchResult
put_ok = response 200 (
    some (
      object (
        field (codes "results")
          (array (cons (object (field (codes "type") (string (codes "SUCCESS")) end)) nil)) end)))

abbrev fresh : World → Client World
fresh w = record { token = none; world = w; sent = [] }

abbrev devices : List Text
devices = codes "a" ∷ []

delivers :
    (push scripted clock host [] true snapshot devices (fresh (login_ok ∷ put_ok ∷ []))).0
    ≡ done (record { attempted = 1; delivered = 1 })
unfolding client_code
delivers = refl

-- A 401 is retried with a new token; a second one is an error.
retries :
    length
      (push scripted clock host [] true snapshot devices
        (fresh (login_ok ∷ response 401 none ∷ login_ok ∷ put_ok ∷ []))).1.sent
    ≡ 4
unfolding client_code
retries = refl

gives_up :
    (push scripted clock host [] true snapshot devices
      (fresh (login_ok ∷ response 401 none ∷ login_ok ∷ response 401 none ∷ []))).0
    ≡ failed (http_status 401)
unfolding client_code
gives_up = refl

push-Sends_example :
    Adds
      (IsBatch host [] snapshot)
      (4 * length devices)
      (fresh (login_ok ∷ put_ok ∷ []))
      (push scripted clock host [] true snapshot devices (fresh (login_ok ∷ put_ok ∷ []))).1
push-Sends_example =
    push-Sends scripted clock host [] snapshot true devices (fresh (login_ok ∷ put_ok ∷ []))

push-attempted_example :
    All
      (IsTarget
        (push scripted clock host [] true snapshot devices (fresh (login_ok ∷ put_ok ∷ []))).1.sent)
      devices
    × ◌≡◌ {A = ℕ} 1 (length devices)
push-attempted_example =
    push-attempted scripted clock host [] snapshot devices (record { attempted = 1; delivered = 1 })
      (fresh (login_ok ∷ put_ok ∷ [])) refl delivers
