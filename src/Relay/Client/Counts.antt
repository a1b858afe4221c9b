-- ===== src/Relay/Client/Counts.antt =====
-- alexa-client.js: the counts that `push` returns.
use helio.Relay.Client.{
  ◌>>=◌, FetchRequest, FetchResult, Client, Answer, done, failed, continue, send, push_from,
  Delivery, successes, bad_body, lift, M,
}
use helio.Prelude.{
  ℕ, zero, suc, ◌+◌, ◌≤◌, ◌≡◌, refl, List, [], ◌∷◌, arith, length, take, drop, length-take,
  length-drop,
}
use helio.Js.Text.{Text}
use helio.Js.Json.{Json}
use helio.Js.Host.{Host}

pub bind-eq_done :
    {W A B : Type 0} (m : M W A) (f : A → M W B) (c : Client W) {b : B}
    → ((m >>= f) c).0 ≡ done b
    → (a : A) × ((m c).0 ≡ done a) × ((f a (m c).1).0 ≡ done b)
bind-eq_done {W} {A} {B} m f c {b} e = by_answer (m c).0 refl e
  where
    by_answer :
        (r : Answer A)
        → (m c).0 ≡ r
        → (continue r f (m c).1).0 ≡ done b
        → (a : A) × ((m c).0 ≡ done a) × ((f a (m c).1).0 ≡ done b)
    by_answer (done a) same g = (a, same, g)
    by_answer (failed x) same g = cc

module _ {W : Type 0} (fetcher : FetchRequest → W → FetchResult × W) (now : W → ℕ) (h : Host)
    (timezone : Text) (snapshot : Json) where
  pub push_from-attempted :
      (rounds : ℕ) (devices : List Text) (d r : Delivery) (c : Client W)
      → length devices ≤ rounds
      → (push_from fetcher now h timezone rounds snapshot devices d c).0 ≡ done r
      → r.attempted ≡ d.attempted + length devices
  unfolding push_from
  push_from-attempted zero [] d r c l e = ground arith
  push_from-attempted zero (x ∷ devices) d r c l e = absurd (omega arith)
  push_from-attempted (suc rounds) [] d r c l e = ground arith
  push_from-attempted (suc rounds) (x ∷ devices) d r c l e =
      let (results, sent, e1) =
        bind-eq_done (send fetcher now h timezone snapshot (take 20 (x ∷ devices))) _ c e in
      let (n, counted, e2) = bind-eq_done (lift (successes results) bad_body) _ _ e1 in
      let ih =
        push_from-attempted rounds (drop 20 (x ∷ devices)) _ r _
          (omega (arith, length-drop 20 (x ∷ devices))) e2 in
      omega (arith, ih, length-take 20 (x ∷ devices), length-drop 20 (x ∷ devices))
