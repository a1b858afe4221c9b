-- ===== src/Relay/Client/Targets.antt =====
-- alexa-client.js: the devices that `push` has sent a command to when it returns.
use helio.Relay.Client.{
  Answer, ◌>>=◌, FetchRequest, FetchResult, put_object, Client, done, continue, send, post, retry,
  fetch, access_token, push_from, push, Delivery, successes, bad_body, bad_date, lift, M, Failure,
}
use mathlib.Core.Option.{none}
use helio.Prelude.{
  some, ◌==◌, false, ◌∙◌, ap, sym, ℕ, zero, suc, ◌+◌, ◌≤◌, ◌≡◌, refl, true, Option, List, [], ◌∷◌,
  ◌++◌, arith, length, take, drop, length-take, length-drop, take-append-drop, append_assoc, All,
  All-append,
}
use mathlib.Core.Path.{subst}
use helio.Js.Text.{Text}
use helio.Js.Json.{Json, truthy}
use helio.Js.Host.{Host}
use helio.Relay.Client.Widget.{Display, display_snapshot}
use helio.Relay.Client.Counts.{bind-eq_done, push_from-attempted}
use helio.Relay.Client.Requests.{fetch-sent, retry-Sends, push_from-Sends}

-- A command for the devices is among the requests.
abbrev HasPosted : List Text → List FetchRequest → Type 0
HasPosted devices sent =
    (later : List FetchRequest) × (earlier : List FetchRequest) × (token : Text)
    × (display : Display) × (sent ≡ later ++ put_object token display devices ∷ earlier)

-- A command among the requests names the device.
abbrev pub IsTarget : List FetchRequest → Text → Type 0
IsTarget sent device =
    (front : List Text) × (back : List Text) × HasPosted (front ++ device ∷ back) sent

HasPosted-append :
    (devices : List Text) (new sent all : List FetchRequest)
    → all ≡ new ++ sent
    → HasPosted devices sent
    → HasPosted devices all
HasPosted-append devices new sent all e (later, earlier, token, display, same) = (
  new ++ later,
  earlier,
  token,
  display,
  e
      ∙ ap (λ (s : List FetchRequest). new ++ s) same
      ∙ sym (append_assoc new later (put_object token display devices ∷ earlier)),
)

All-IsTarget :
    (front devices : List Text) (sent : List FetchRequest)
    → HasPosted (front ++ devices) sent
    → All (IsTarget sent) devices
All-IsTarget front [] sent h = tt
All-IsTarget front (x ∷ xs) sent h = (
  (front, xs, h),
  All-IsTarget (front ++ x ∷ []) xs sent
      (subst (λ l. HasPosted l sent) (sym (append_assoc front (x ∷ []) xs)) h),
)

All-IsTarget_append :
    (devices : List Text) (new sent all : List FetchRequest)
    → all ≡ new ++ sent
    → All (IsTarget sent) devices
    → All (IsTarget all) devices
All-IsTarget_append [] new sent all e h = tt
All-IsTarget_append (x ∷ xs) new sent all e ((front, back, h), hs) = (
  (front, back, HasPosted-append (front ++ x ∷ back) new sent all e h),
  All-IsTarget_append xs new sent all e hs,
)

bind-client :
    {W A B : Type 0} (m : M W A) (f : A → M W B) (c : Client W) (a : A)
    → (m c).0 ≡ done a
    → ((m >>= f) c).1 ≡ (f a (m c).1).1
bind-client m f c a e = ap (λ r. (continue r f (m c).1).1) e

lift-client : {W A : Type 0} (o : Option A) (x : Failure) (c : Client W) → (lift o x c).1 ≡ c
lift-client none x c = refl
lift-client (some a) x c = refl

module _ {W : Type 0} (fetcher : FetchRequest → W → FetchResult × W) (now : W → ℕ) (h : Host)
    (timezone : Text) (snapshot : Json) where
  post-HasPosted :
      (devices : List Text) (c : Client W) (a : ℕ × Option Json)
      → (post fetcher now h timezone snapshot devices c).0 ≡ done a
      → HasPosted devices (post fetcher now h timezone snapshot devices c).1.sent
  unfolding post
  post-HasPosted devices c a e =
      let rest = λ (token : Text). lift (display_snapshot h timezone snapshot) bad_date >>= λ d.
      fetch fetcher now h timezone (put_object token d devices) in
      let (token, got, e1) = bind-eq_done (access_token fetcher now h timezone) rest c e in
      let c1 = (access_token fetcher now h timezone c).1 in
      let (d, shown, e2) =
        bind-eq_done (lift (display_snapshot h timezone snapshot) bad_date) _ c1 e1 in
      let c2 = (lift (display_snapshot h timezone snapshot) bad_date c1).1 in
      (
        [],
        c2.sent,
        token,
        d,
        ap (λ (x : Client W). x.sent)
              (bind-client (access_token fetcher now h timezone) rest c token got
                ∙ bind-client (lift (display_snapshot h timezone snapshot) bad_date)
                    (λ d. fetch fetcher now h timezone (put_object token d devices)) c1 d shown)
            ∙ fetch-sent fetcher now h timezone snapshot (put_object token d devices) c2,
      )

  send-HasPosted :
      (devices : List Text)
      → length devices ≤ 20
      → 1 ≤ length devices
      → (c : Client W) (results : List Json)
      → (send fetcher now h timezone snapshot devices c).0 ≡ done results
      → HasPosted devices (send fetcher now h timezone snapshot devices c).1.sent
  unfolding send
  send-HasPosted devices most least c results e =
      let m = post fetcher now h timezone snapshot devices in
      let f = retry fetcher now h timezone snapshot devices in
      let (a, answered, _) = bind-eq_done m f c e in
      let more = retry-Sends fetcher now h timezone snapshot devices most least a (m c).1 in
      HasPosted-append devices more.new (m c).1.sent _
        (ap (λ (x : Client W). x.sent) (bind-client m f c a answered) ∙ more.added)
        (post-HasPosted devices c a answered)

  push_from-IsTarget :
      (rounds : ℕ) (devices : List Text) (d r : Delivery) (c : Client W)
      → length devices ≤ rounds
      → (push_from fetcher now h timezone rounds snapshot devices d c).0 ≡ done r
      → All (IsTarget (push_from fetcher now h timezone rounds snapshot devices d c).1.sent) devices
  unfolding push_from
  push_from-IsTarget zero [] d r c l e = tt
  push_from-IsTarget zero (x ∷ devices) d r c l e = absurd (omega arith)
  push_from-IsTarget (suc rounds) [] d r c l e = tt
  push_from-IsTarget (suc rounds) (x ∷ devices) d r c l e =
      let all = x ∷ devices in
      let m = send fetcher now h timezone snapshot (take 20 all) in
      let next = λ (delivered : ℕ).
        push_from fetcher now h timezone rounds snapshot (drop 20 all) (record {
          attempted = d.attempted + length (take 20 all);
          delivered = d.delivered + delivered;
        }) in
      let f = λ (results : List Json). lift (successes results) bad_body >>= next in
      let (results, sent, e1) = bind-eq_done m f c e in
      let counted = lift (successes results) bad_body in
      let (n, good, e2) = bind-eq_done counted next (m c).1 e1 in
      let c2 = (counted (m c).1).1 in
      let later =
        push_from-IsTarget rounds (drop 20 all) _ r c2 (omega (arith, length-drop 20 all)) e2 in
      let posted =
        send-HasPosted (take 20 all) (omega (arith, length-take 20 all))
          (omega (arith, length-take 20 all)) c results sent in
      let more = push_from-Sends fetcher now h timezone snapshot rounds (drop 20 all) _ c2 in
      let final : ((m >>= f) c).1 ≡ (next n c2).1 =
        bind-client m f c results sent ∙ bind-client counted next (m c).1 n good in
      let added =
        more.added
        ∙ ap (λ (y : Client W). more.new ++ y.sent)
            (lift-client (successes results) bad_body (m c).1) in
      subst (λ (y : Client W). All (IsTarget y.sent) all) (sym final)
        (subst (All (IsTarget (next n c2).1.sent)) (take-append-drop 20 all) (
          All-append (IsTarget (next n c2).1.sent) (take 20 all) (drop 20 all)
            (All-IsTarget_append (take 20 all) more.new (m c).1.sent _ added
              (All-IsTarget [] (take 20 all) (m c).1.sent posted))
            later))

  -- When `push` of a configured client returns for a snapshot, it has attempted every device: each of
  -- them is named by a command among the requests, and the count of attempts is their number. The
  -- loop's bound is enough.
  pub push-attempted :
      (devices : List Text) (r : Delivery) (c : Client W)
      → truthy snapshot ≡ true
      → (push fetcher now h timezone true snapshot devices c).0 ≡ done r
      → All (IsTarget (push fetcher now h timezone true snapshot devices c).1.sent) devices
        × (r.attempted ≡ length devices)
  unfolding push
  push-attempted [] r c t e = (tt, ground arith)
  push-attempted (x ∷ devices) r c t e =
      let some_device : (length (x ∷ devices) == 0) ≡ false = ground arith in
      let none_yet : Delivery = record { attempted = 0; delivered = 0 } in
      let all = x ∷ devices in
      let loop = push_from fetcher now h timezone (length all) snapshot all none_yet c in
      let same : push fetcher now h timezone true snapshot all c ≡ loop =
        rw (t, push, some_device) refl in
      let begun = rw same at e in
      (
        subst (λ (y : Answer Delivery × Client W). All (IsTarget y.1.sent) all) (sym same)
            (push_from-IsTarget (length all) all none_yet r c (omega arith) begun),
        push_from-attempted fetcher now h timezone snapshot (length all) all none_yet r c
              (omega arith) begun
            ∙ (omega arith),
      )
