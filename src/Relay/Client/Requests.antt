-- ===== src/Relay/Client/Requests.antt =====
-- alexa-client.js: what `push` sends: batches of at most twenty devices, and few requests for each.
use helio.Relay.Client.{
  Token, ◌>>=◌, FetchRequest, FetchResult, token_request, put_object, unreachable, response, Client,
  fetch, answer_of, login, check_token, store_token, cached, access_token, post, finish, send_again,
  retry, send, clear_token, push_from, push, Delivery, read_token, read_results, is_ok,
  greater_than, successes, bad_json, bad_body, bad_date, lift,
}
use mathlib.Core.Path.{subst}
use helio.Prelude.{
  not, ◌||◌, ap, ℕ, zero, suc, ◌+◌, ◌*◌, ◌≤◌, ◌≡◌, refl, Bool, Option, none, some, List, [], ◌∷◌,
  arith, length, take, drop, length-take, Option-cases, Bool-cases, inl, inr, ◌==◌,
}
use helio.Js.Text.{Text}
use helio.Js.Json.{Json, truthy}
use helio.Js.Host.{Host}
use helio.Relay.Client.Widget.{Display, display_snapshot}
use helio.Relay.Client.Batches.{IsBatch, Adds, Adds-refl, Sends, bind-Sends, lift-Sends, if-Sends}

module _ {W : Type 0} (fetcher : FetchRequest → W → FetchResult × W) (now : W → ℕ) (h : Host)
    (timezone : Text) (snapshot : Json) where
  abbrev Good : FetchRequest → Type 0
  Good = IsBatch h timezone snapshot

  answer_of-sent : (r : FetchResult) (c : Client W) → (answer_of fetcher now h timezone r c).1 ≡ c
  unfolding answer_of
  answer_of-sent unreachable c = refl
  answer_of-sent (response status body) c = refl

  pub fetch-sent :
      (r : FetchRequest) (c : Client W) → (fetch fetcher now h timezone r c).1.sent ≡ r ∷ c.sent
  unfolding fetch
  fetch-sent r c =
      ap (λ (d : Client W). d.sent)
        (answer_of-sent (fetcher r c.world).0
          (record c { world = (fetcher r c.world).1; sent = r ∷ c.sent }))

  fetch-Sends : (r : FetchRequest) → Good r → Sends Good 1 (fetch fetcher now h timezone r)
  fetch-Sends r g c = record {
    new = r ∷ [];
    added = fetch-sent r c;
    good = (g, tt);
    bounded = omega arith;
  }

  store_token-Sends : (body : Json) → Sends Good 0 (store_token fetcher now h timezone body)
  unfolding store_token
  store_token-Sends body c = elim (Option-cases (read_token (now c.world) body)) [
    | inl bad ↦ rw (bad, store_token) (Adds-refl Good 0 c c refl)
    | inr (t, good) ↦ rw (good, store_token) (Adds-refl Good 0 c (record c { token = some t }) refl)
  ]

  check_token-Sends : (a : ℕ × Option Json) → Sends Good 0 (check_token fetcher now h timezone a)
  unfolding check_token
  check_token-Sends (status, body) =
      if-Sends Good 0 (is_ok status) _ _
        (bind-Sends Good 0 0 (lift body bad_json) _ (lift-Sends Good 0 body bad_json)
          store_token-Sends)
        (λ c. Adds-refl Good 0 c c refl)

  login-Sends : Sends Good 1 (login fetcher now h timezone)
  unfolding login
  login-Sends =
      bind-Sends Good 1 0 (fetch fetcher now h timezone token_request) _
        (fetch-Sends token_request tt) check_token-Sends

  access_token-Sends : Sends Good 1 (access_token fetcher now h timezone)
  unfolding access_token
  access_token-Sends c = by_token c.token
    where
      by_token : (t : Option Token) → Adds Good 1 c (cached fetcher now h timezone t c).1
      by_token none = login-Sends c
      by_token (some t) = elim (Bool-cases (greater_than t.expires_at (now c.world))) [
        | inl fresh ↦ rw (fresh, cached) (Adds-refl Good 1 c c refl)
        | inr stale ↦ rw (stale, cached) (login-Sends c)
      ]

  finish-Sends : (a : ℕ × Option Json) → Sends Good 0 (finish fetcher now h timezone a)
  unfolding finish
  finish-Sends (status, body) =
      if-Sends Good 0 (is_ok status) _ _
        (bind-Sends Good 0 0 (lift body bad_json) _ (lift-Sends Good 0 body bad_json)
          (λ v. lift-Sends Good 0 (read_results v) bad_body))
        (λ c. Adds-refl Good 0 c c refl)

  module _ (devices : List Text) (most : length devices ≤ 20) (least : 1 ≤ length devices) where
    post-Sends : Sends Good 2 (post fetcher now h timezone snapshot devices)
    unfolding post
    post-Sends =
        bind-Sends Good 1 1 (access_token fetcher now h timezone) _ access_token-Sends
          λ token. by_display token (display_snapshot h timezone snapshot) refl
      where
        by_display :
            (token : Text) (o : Option Display)
            → display_snapshot h timezone snapshot ≡ o
            → Sends Good 1
                (lift o bad_date >>= λ d. fetch fetcher now h timezone (put_object token d devices))
        by_display token none e c = Adds-refl Good 1 c c refl
        by_display token (some d) e c = fetch-Sends (put_object token d devices) (e, most, least) c

    send_again-Sends : Sends Good 2 (send_again fetcher now h timezone snapshot devices)
    unfolding send_again
    send_again-Sends =
        bind-Sends Good 2 0 (post fetcher now h timezone snapshot devices) _ post-Sends finish-Sends

    pub retry-Sends :
        (a : ℕ × Option Json) → Sends Good 2 (retry fetcher now h timezone snapshot devices a)
    unfolding retry clear_token
    retry-Sends (status, body) =
        if-Sends Good 2 (status == 401) _ _
          (λ c. cleared c (send_again-Sends (record c { token = none })))
          (λ c. widen c (finish-Sends (status, body) c))
      where
        cleared :
            (c : Client W) {d : Client W}
            → Adds Good 2 (record c { token = none }) d
            → Adds Good 2 c d
        cleared c x = record { new = x.new; added = x.added; good = x.good; bounded = x.bounded }

        widen : (c : Client W) {d : Client W} → Adds Good 0 c d → Adds Good 2 c d
        widen c x = record {
          new = x.new;
          added = x.added;
          good = x.good;
          bounded = omega (arith, x.bounded);
        }

    -- `#send` makes at most four requests: a login and a command, and once more both after a 401.
    send-Sends : Sends Good 4 (send fetcher now h timezone snapshot devices)
    unfolding send
    send-Sends =
        bind-Sends Good 2 2 (post fetcher now h timezone snapshot devices) _ post-Sends retry-Sends

  pub push_from-Sends :
      (rounds : ℕ) (devices : List Text) (d : Delivery)
      → Sends Good (4 * rounds) (push_from fetcher now h timezone rounds snapshot devices d)
  unfolding push_from
  push_from-Sends zero devices d c = Adds-refl Good 0 c c refl
  push_from-Sends (suc rounds) [] d c = Adds-refl Good (4 * suc rounds) c c refl
  push_from-Sends (suc rounds) (x ∷ devices) d c =
      subst
        (λ n.
          Adds Good n c
            (push_from fetcher now h timezone (suc rounds) snapshot (x ∷ devices) d c).1)
        (omega arith)
        (bind-Sends Good 4 (0 + 4 * rounds)
          (send fetcher now h timezone snapshot (take 20 (x ∷ devices))) _
          (send-Sends (take 20 (x ∷ devices)) (omega (arith, length-take 20 (x ∷ devices)))
            (omega (arith, length-take 20 (x ∷ devices))))
          (λ results.
            bind-Sends Good 0 (4 * rounds) (lift (successes results) bad_body) _
              (lift-Sends Good 0 (successes results) bad_body)
              (λ delivered. push_from-Sends rounds (drop 20 (x ∷ devices)) _))
          c)

  -- Whatever the service answers, the requests that `push` sends are logins, and commands that carry the
  -- display of the snapshot to one to twenty devices each; their number is bounded.
  pub push-Sends :
      (configured : Bool) (devices : List Text) (c : Client W)
      → Adds Good
          (4 * length devices)
          c
          (push fetcher now h timezone configured snapshot devices c).1
  unfolding push
  push-Sends configured devices c =
      if-Sends Good (4 * length devices)
        ((not (truthy snapshot) || length devices == 0) || not configured) _ _
        (λ b. Adds-refl Good (4 * length devices) b b refl)
        (push_from-Sends (length devices) devices (record { attempted = 0; delivered = 0 })) c
