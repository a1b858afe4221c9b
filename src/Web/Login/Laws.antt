-- ===== src/Web/Login/Laws.antt =====
-- LoginForm.tsx: one attempt at a time, and none while the visitor has to wait.
use helio.Web.Login.{
  no_message, Login, Answer, opened, refused, failed, refuse, conclude, settle, submit, Event,
  types_username, types_password, submits, ticks, answers, is_possible, handle, run, start,
}
use helio.Prelude.{
  suc, ℕ, ◌-◌, ◌<◌, ◌≤◌, true, false, Option, List, [], ◌∷◌, ◌≡◌, refl, ◌∙◌, sym, arith, or_else,
  ltb, inl, inr, Bool-cases,
}

-- The lock is set exactly while one request is under way.
pub record IsLocked (s : Login) : Type 0 where
  pub held : s.submission_started ≡ true → s.pending ≡ 1
  pub free : s.submission_started ≡ false → s.pending ≡ 0

pub start-IsLocked : IsLocked start
unfolding start
start-IsLocked = record { held = λ e. ground (arith, e); free = λ e. refl }

refuse-pending :
    (status : ℕ) (retry : Option ℕ) (s : Login)
    → ((refuse status retry s).pending ≡ s.pending)
      × ((refuse status retry s).submission_started ≡ s.submission_started)
      × ((refuse status retry s).sent ≡ s.sent)
refuse-pending status retry s = ground arith

conclude-pending :
    (answer : Answer) (s : Login)
    → ((conclude answer s).pending ≡ s.pending)
      × ((conclude answer s).submission_started ≡ s.submission_started)
      × ((conclude answer s).sent ≡ s.sent)
conclude-pending (opened token) s = (refl, refl, refl)
conclude-pending (refused status retry) s = refuse-pending status retry s
conclude-pending failed s = (refl, refl, refl)

settle-sent : (answer : Answer) (s : Login) → (settle answer s).sent ≡ s.sent
unfolding settle
settle-sent answer s =
    (conclude-pending answer (record s { pending = s.pending - 1; submission_started = false })).2

settle-pending : (answer : Answer) (s : Login) → (settle answer s).pending ≡ s.pending - 1
unfolding settle
settle-pending answer s =
    (conclude-pending answer (record s { pending = s.pending - 1; submission_started = false })).0

settle-released : (answer : Answer) (s : Login) → (settle answer s).submission_started ≡ false
unfolding settle
settle-released answer s =
    (conclude-pending answer (record s { pending = s.pending - 1; submission_started = false })).1

pending-bound : (s : Login) → IsLocked s → s.pending ≤ 1
pending-bound s v = elim (Bool-cases s.submission_started) [
  | inl e ↦ omega (arith, v.held e)
  | inr e ↦ omega (arith, v.free e)
]

settle-IsLocked : (answer : Answer) (s : Login) → IsLocked s → IsLocked (settle answer s)
settle-IsLocked answer s v = record {
  held = λ e. ground (arith, sym e ∙ settle-released answer s);
  free = λ e. omega (arith, settle-pending answer s, pending-bound s v);
}

submit-IsLocked : (s : Login) → IsLocked s → IsLocked (submit s)
unfolding submit
submit-IsLocked s v = elim (Bool-cases s.submission_started) [
  | inl e ↦ simp e (record { held = λ k. v.held e; free = λ k. ground (arith, k) })
  | inr e ↦ elim (Bool-cases (ltb 0 s.remaining)) [
    | inl h ↦ simp (e, h) (record { held = λ k. ground (arith, k); free = λ k. v.free e })
    | inr h ↦
        simp (e, h) (record { held = λ k. omega (arith, v.free e); free = λ k. ground (arith, k) })
  ]
]

handle-IsLocked : (event : Event) (s : Login) → IsLocked s → IsLocked (handle event s)
unfolding handle
handle-IsLocked (types_username t) s v = record { held = v.held; free = v.free }
handle-IsLocked (types_password t) s v = record { held = v.held; free = v.free }
handle-IsLocked submits s v = submit-IsLocked s v
handle-IsLocked ticks s v = record { held = v.held; free = v.free }
handle-IsLocked (answers answer) s v = settle-IsLocked answer s v

-- Whatever the visitor does, the clock ticks and the server answers, the lock is set exactly while one
-- request has no answer: two requests are never under way at once.
pub run-IsLocked : (events : List Event) (s : Login) → IsLocked s → IsLocked (run events s)
unfolding run
run-IsLocked [] s v = v
run-IsLocked (event ∷ events) s v = elim (Bool-cases (is_possible event s)) [
  | inl e ↦ simp e (run-IsLocked events (handle event s) (handle-IsLocked event s v))
  | inr e ↦ simp e (run-IsLocked events s v)
]

-- The seconds that pass during the events.
unfoldable pub seconds : List Event → ℕ
seconds [] = 0
seconds (types_username t ∷ events) = seconds events
seconds (types_password t ∷ events) = seconds events
seconds (submits ∷ events) = seconds events
seconds (ticks ∷ events) = suc (seconds events)
seconds (answers answer ∷ events) = seconds events

submit_waits : (s : Login) → 0 < s.remaining → submit s ≡ record s { message = no_message }
unfolding submit
submit_waits s r = ground arith

-- While there are more seconds to wait than pass, and no request is under way, none is sent.
run_waits :
    (events : List Event) (s : Login)
    → s.pending ≡ 0
    → seconds events < s.remaining
    → (run events s).sent ≡ s.sent
unfolding run seconds handle is_possible
run_waits [] s p r = refl
run_waits (types_username t ∷ events) s p r = run_waits events (record s { username = t }) p r
run_waits (types_password t ∷ events) s p r = run_waits events (record s { password = t }) p r
run_waits (submits ∷ events) s p r =
    simp (submit_waits s (omega (arith, r)))
      (run_waits events (record s { message = no_message }) p r)
run_waits (ticks ∷ events) s p r = elim (Bool-cases (ltb 0 s.remaining)) [
  | inl e ↦
      simp e (run_waits events (record s { remaining = s.remaining - 1 }) p (omega (arith, r)))
  | inr e ↦ simp e (run_waits events s p (omega (arith, r)))
]
run_waits (answers answer ∷ events) s p r = simp p (run_waits events s p r)

-- After the answer 429 with a number of seconds (60 where it has none), the form sends no request
-- before that many seconds have passed, whatever the visitor does.
pub refused_waits :
    (events : List Event) (retry : Option ℕ) (s : Login)
    → IsLocked s
    → seconds events < or_else retry 60
    → (run events (handle (answers (refused 429 retry)) s)).sent ≡ s.sent
unfolding handle settle
refused_waits events retry s v r =
    run_waits events
      (record s {
        pending = s.pending - 1;
        submission_started = false;
        remaining = or_else retry 60;
      })
      (omega (arith, pending-bound s v)) r
