-- ===== src/Relay/Push.antt =====
-- integrations/alexa-relay/src/app.js: `pushScheduler`. The event loop chooses when a push settles,
-- when the `finally` callback runs and when a `setImmediate` callback fires; `step` is one such event.
pub mod Laws
pub mod Drain
pub mod Tests
use helio.Prelude.{
  ℕ, zero, suc, ◌+◌, ◌-◌, ◌*◌, Bool, true, false, ◌&&◌, List, [], ◌∷◌, if◌then◌else◌, ltb,
}

-- `running` and `pending` of the closure; `current` is what `state.snapshot()` and `state.devices()`
-- return. The rest is what the runtime holds: the pushes that are not settled, the `finally` callbacks
-- and the immediates that wait, and the arguments of the pushes so far, the last first.
pub record Scheduler (A : Type 0) : Type 0 where
  pub running : Bool
  pub pending : Bool
  pub current : A
  pub in_flight : ℕ
  pub finishing : ℕ
  pub immediates : ℕ
  pub pushed : List A

pub data Event (A : Type 0) : Type 0 where
  -- the state of the relay changes
  change : A → Event A
  -- `schedule()` is called
  schedule : Event A
  -- a push resolves, or rejects and is caught
  settle : Event A
  -- `finally` runs
  finish : Event A
  -- `setImmediate(schedule)` fires
  immediate : Event A

module _ {A : Type 0} where
  abbrev pub start : A → Scheduler A
  start a = record {
    running = false;
    pending = false;
    current = a;
    in_flight = 0;
    finishing = 0;
    immediates = 0;
    pushed = [];
  }

  -- `while (pending)`, up to the next `await` or the end of the async function.
  loop : Scheduler A → Scheduler A
  loop s =
      if s.pending
      then record s { pending = false; in_flight = s.in_flight + 1; pushed = s.current ∷ s.pushed }
      else record s { finishing = s.finishing + 1 }

  -- `schedule()`
  call_schedule : Scheduler A → Scheduler A
  unfolding loop
  call_schedule s =
      if s.running
      then record s { pending = true }
      else loop (record s { pending = true; running = true })

  -- The callback of `finally`.
  run_finally : Scheduler A → Scheduler A
  run_finally s =
      let s' = record s { finishing = s.finishing - 1; running = false } in
      if s.pending then record s' { immediates = s.immediates + 1 } else s'

  -- Whether the runtime can make the event now.
  unfoldable pub enabled : Event A → Scheduler A → Bool
  enabled (change a) s = true
  enabled schedule s = true
  enabled settle s = ltb 0 s.in_flight
  enabled finish s = ltb 0 s.finishing
  enabled immediate s = ltb 0 s.immediates

  take_step : Event A → Scheduler A → Scheduler A
  unfolding loop call_schedule run_finally
  take_step (change a) s = record s { current = a }
  take_step schedule s = call_schedule s
  take_step settle s = loop (record s { in_flight = s.in_flight - 1 })
  take_step finish s = run_finally s
  take_step immediate s = call_schedule (record s { immediates = s.immediates - 1 })

  -- One event, if it can happen.
  unfoldable pub step : Scheduler A → Event A → Scheduler A
  unfolding take_step enabled
  step s e = if enabled e s then take_step e s else s

  unfoldable pub run : Scheduler A → List (Event A) → Scheduler A
  unfolding step
  run s [] = s
  run s (e ∷ es) = run (step s e) es
