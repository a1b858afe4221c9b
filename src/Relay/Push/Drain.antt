-- ===== src/Relay/Push/Drain.antt =====
-- app.js: after a call of `schedule` the callbacks come to an end, and the state has been pushed.
use helio.Prelude.{
  ap, ◌∙◌, ℕ, ◌+◌, ◌*◌, ◌≤◌, ◌<◌, ◌≡◌, refl, true, false, ◌&&◌, List, [], ◌∷◌, arith, if◌then◌else◌,
  length, some,
}
use mathlib.Core.List.{head?}
use helio.Relay.Push.{
  Scheduler, Event, change, schedule, settle, finish, immediate, step, run, enabled,
}
use helio.Relay.Push.Laws.{
  IsSound, IsServed, IsCallback, step-IsSound, step-IsServed, schedule-IsServed,
}

module _ {A : Type 0} where
  -- How many callbacks the runtime can still make, at most, when nobody calls `schedule`.
  abbrev pub work : Scheduler A → ℕ
  work s =
      5 * s.immediates
      + (if s.running && s.pending then 4 else 0)
      + 3 * s.in_flight
      + 2 * s.finishing

  -- The runtime's own events.
  abbrev pub IsOwn : Event A → Type 0
  IsOwn (change a) = ⊥
  IsOwn schedule = ⊥
  IsOwn settle = Unit
  IsOwn finish = Unit
  IsOwn immediate = Unit

  step-work :
      (s : Scheduler A) (e : Event A)
      → IsSound s
      → IsOwn e
      → enabled e s ≡ true
      → work (step s e) < work s
  unfolding step enabled
  step-work s (change a) v o h = absurd o
  step-work s schedule v o h = absurd o
  step-work s settle v o h = ground arith
  step-work s finish v o h = ground arith
  step-work s immediate v o h = ground arith

  step-current : (s : Scheduler A) (e : Event A) → IsOwn e → (step s e).current ≡ s.current
  unfolding step
  step-current s (change a) o = absurd o
  step-current s schedule o = absurd o
  step-current s settle o = ground arith
  step-current s finish o = ground arith
  step-current s immediate o = ground arith

  own-IsCallback : (e : Event A) → IsOwn e → IsCallback e
  own-IsCallback (change a) o = o
  own-IsCallback schedule o = absurd o
  own-IsCallback settle o = tt
  own-IsCallback finish o = tt
  own-IsCallback immediate o = tt

  schedule-current : (s : Scheduler A) → (step s schedule).current ≡ s.current
  unfolding step
  schedule-current s = ground arith

  -- Events of the runtime, each possible when it comes.
  abbrev pub IsChain : Scheduler A → List (Event A) → Type 0
  IsChain s [] = Unit
  IsChain s (e ∷ es) = IsOwn e × (enabled e s ≡ true) × IsChain (step s e) es

  -- The runtime has nothing left to do.
  pub record IsQuiet (s : Scheduler A) : Type 0 where
    pub no_settle : enabled settle s ≡ false
    pub no_finish : enabled finish s ≡ false
    pub no_immediate : enabled immediate s ≡ false

  -- Callbacks alone always come to an end: in whatever order they run, their number is bounded by the
  -- work at hand.
  pub callbacks_end :
      (es : List (Event A)) (s : Scheduler A)
      → IsSound s
      → IsChain s es
      → length es + work (run s es) ≤ work s
  unfolding run
  callbacks_end [] s v c = omega arith
  callbacks_end (e ∷ es) s v (o, h, c) =
      omega (arith, callbacks_end es (step s e) (step-IsSound s e v) c, step-work s e v o h)

  chain-IsServed :
      (es : List (Event A)) (s : Scheduler A)
      → IsSound s
      → IsChain s es
      → IsServed s
      → IsSound (run s es) × IsServed (run s es) × ((run s es).current ≡ s.current)
  unfolding run
  chain-IsServed [] s v c d = (v, d, refl)
  chain-IsServed (e ∷ es) s v (o, h, c) d =
      let (sound, served, same) =
        chain-IsServed es (step s e) (step-IsSound s e v) c
          (step-IsServed s e (own-IsCallback e o) d) in
      (sound, served, same ∙ step-current s e o)

  quiet-pushed :
      (s : Scheduler A) → IsSound s → IsQuiet s → IsServed s → head? s.pushed ≡ some s.current
  unfolding enabled
  quiet-pushed s v q d = ground arith

  -- No update is lost: after a call of `schedule`, once the runtime has nothing left to do, the last
  -- push had the state of that call as its arguments, also if a push was in flight at the call.
  pub schedule_delivers :
      (s : Scheduler A) (es : List (Event A))
      → IsSound s
      → IsChain (step s schedule) es
      → IsQuiet (run (step s schedule) es)
      → head? (run (step s schedule) es).pushed ≡ some s.current
  schedule_delivers s es v c q =
      let (sound, served, same) =
        chain-IsServed es (step s schedule) (step-IsSound s schedule v) c (schedule-IsServed s) in
      quiet-pushed (run (step s schedule) es) sound q served ∙ ap some (same ∙ schedule-current s)
