-- ===== src/Relay/Push/Laws.antt =====
-- app.js: one push at a time, and no lost update.
use mathlib.Core.List.{head?}
use helio.Prelude.{
  some, Bool-cases, ◌+◌, ◌≤◌, ◌<◌, ◌≡◌, ◌⊎◌, inl, inr, true, false, List, [], ◌∷◌, arith,
}
use helio.Relay.Push.{
  Scheduler, Event, change, schedule, settle, finish, immediate, start, step, run,
}

module _ {A : Type 0} where
  -- While the flag `running` is set there is one push, or one `finally` callback, and else none; a
  -- request that is pending while nothing runs has an immediate that will schedule it.
  pub record IsSound (s : Scheduler A) : Type 0 where
    pub busy : s.running ≡ true → s.in_flight + s.finishing ≡ 1
    pub idle : s.running ≡ false → s.in_flight + s.finishing ≡ 0
    pub kept : s.running ≡ false → s.pending ≡ true → 0 < s.immediates

  pub start-IsSound : (a : A) → IsSound (start a)
  start-IsSound a = record { busy = λ e. cc; idle = λ e. omega arith; kept = λ e f. cc }

  pub step-IsSound : (s : Scheduler A) (e : Event A) → IsSound s → IsSound (step s e)
  unfolding step
  step-IsSound s (change a) v = record { busy = v.busy; idle = v.idle; kept = v.kept }
  step-IsSound s schedule v = ground arith
  step-IsSound s settle v = ground arith
  step-IsSound s finish v = ground arith
  step-IsSound s immediate v = ground arith

  pub run-IsSound : (es : List (Event A)) (s : Scheduler A) → IsSound s → IsSound (run s es)
  unfolding run
  run-IsSound [] s v = v
  run-IsSound (e ∷ es) s v = run-IsSound es (step s e) (step-IsSound s e v)

  -- Whatever the order of calls and callbacks, there is never more than one push that is not settled.
  pub one_push_at_a_time : (a : A) (es : List (Event A)) → (run (start a) es).in_flight ≤ 1
  one_push_at_a_time a es =
      let v = run-IsSound es (start a) (start-IsSound a) in
      elim (Bool-cases (run (start a) es).running) [
        | inl busy ↦ omega (arith, v.busy busy)
        | inr idle ↦ omega (arith, v.idle idle)
      ]

  -- The last push had the current state, or another push is bound to start.
  abbrev pub IsServed : Scheduler A → Type 0
  IsServed s = (head? s.pushed ≡ some s.current) ⊎ (s.pending ≡ true)

  abbrev pub IsCallback : Event A → Type 0
  IsCallback (change a) = ⊥
  IsCallback schedule = Unit
  IsCallback settle = Unit
  IsCallback finish = Unit
  IsCallback immediate = Unit

  pub schedule-IsServed : (s : Scheduler A) → IsServed (step s schedule)
  unfolding step
  schedule-IsServed s = ground arith

  pub step-IsServed :
      (s : Scheduler A) (e : Event A) → IsCallback e → IsServed s → IsServed (step s e)
  unfolding step
  step-IsServed s (change a) c v = absurd c
  step-IsServed s schedule c v = ground arith
  step-IsServed s settle c v = ground arith
  step-IsServed s finish c v = ground arith
  step-IsServed s immediate c v = ground arith
