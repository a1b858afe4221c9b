-- ===== src/Relay/Push/Tests.antt =====
-- app.js: runs of the scheduler.
use helio.Prelude.{ℕ, ◌+◌, ◌≤◌, ◌≡◌, refl, some, List, [], ◌∷◌, length}
use mathlib.Core.List.{head?}
use helio.Relay.Push.{
  Scheduler, Event, change, schedule, settle, finish, immediate, start, step, run, enabled,
}
use helio.Relay.Push.Laws.{IsSound, step-IsSound, start-IsSound, run-IsSound, one_push_at_a_time}
use helio.Relay.Push.Drain.{work, IsChain, IsQuiet, callbacks_end, schedule_delivers}

-- A change while a push is in flight: it is pushed when that one settles.
abbrev busy : List (Event ℕ)
busy = schedule ∷ change 2 ∷ []

abbrev rest : List (Event ℕ)
rest = settle ∷ settle ∷ finish ∷ []

abbrev pushing : Scheduler ℕ
pushing = run (start 1) busy

coalesced : (run (start 1) (schedule ∷ change 2 ∷ schedule ∷ schedule ∷ rest)).pushed ≡ 2 ∷ 1 ∷ []
unfolding run
coalesced = refl

-- A call between the end of the loop and `finally` goes through `setImmediate`.
abbrev late_events : List (Event ℕ)
late_events = schedule ∷ settle ∷ change 2 ∷ schedule ∷ finish ∷ immediate ∷ settle ∷ finish ∷ []

late_call : (run (start 1) late_events).pushed ≡ 2 ∷ 1 ∷ []
unfolding run
late_call = refl

pushing-IsSound : IsSound pushing
pushing-IsSound = run-IsSound busy (start 1) (start-IsSound 1)

rest-IsChain : IsChain (step pushing schedule) rest
unfolding run enabled
rest-IsChain = (tt, refl, (tt, refl, (tt, refl, tt)))

rest-IsQuiet : IsQuiet (run (step pushing schedule) rest)
unfolding run enabled
rest-IsQuiet = record { no_settle = refl; no_finish = refl; no_immediate = refl }

one_push_at_a_time_example : (run {A = ℕ} (start 1) busy).in_flight ≤ 1
one_push_at_a_time_example = one_push_at_a_time 1 busy

pushed-IsSound : IsSound (step pushing schedule)
pushed-IsSound = step-IsSound pushing schedule pushing-IsSound

callbacks_end_example :
    length rest + work (run (step pushing schedule) rest) ≤ work (step pushing schedule)
callbacks_end_example = callbacks_end rest (step pushing schedule) pushed-IsSound rest-IsChain

schedule_delivers_example : head? (run (step pushing schedule) rest).pushed ≡ some 2
unfolding run
schedule_delivers_example = schedule_delivers pushing rest pushing-IsSound rest-IsChain rest-IsQuiet
