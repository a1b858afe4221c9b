-- ===== src/Web/Live/Laws.antt =====
-- The merged state of the stream never goes back in time, and misses nothing that is newer.
use helio.Web.Live.Times.{
  IsNoEarlier, IsNoEarlier-refl, IsNoEarlier-trans, IsNoEarlier-total, latest-IsNoEarlier,
}
use helio.Prelude.{Option, none, some, refl, List, [], ◌∷◌, Bool-cases, inl, inr, ℤ, All}
use helio.Js.Text.{Text}
use helio.Js.Json.{Json}
use helio.Js.Host.{Host}
use helio.Web.Live.{
  LiveState, LiveEvent, state_event, snapshot_event, Telemetry, Signal, message, opened, broken,
  receive, receive_all, applied, apply_event, merge_state, time, no_earlier, observed_at, first_of,
  parse_live_event,
}

-- The times of what is shown: of its snapshot and of its last success.
abbrev pub snapshot_time : Host → Option LiveState → Option ℤ
snapshot_time h none = none
snapshot_time h (some s) = time h (observed_at s.snapshot)

abbrev pub success_time : Host → Option LiveState → Option ℤ
success_time h none = none
success_time h (some s) = time h s.last_success

-- The times that an event brings.
abbrev pub event_snapshot : Host → Option LiveEvent → Option ℤ
event_snapshot h none = none
event_snapshot h (some (state_event s)) = time h (observed_at s.snapshot)
event_snapshot h (some (snapshot_event s v)) = time h (observed_at (some v))

abbrev pub event_success : Host → Option LiveEvent → Option ℤ
event_success h none = none
event_success h (some (state_event s)) = time h s.last_success
event_success h (some (snapshot_event s v)) = time h s.last_success

abbrev pub event_of : Host → Signal → Option LiveEvent
event_of h (message kind text) = parse_live_event h kind text
event_of h opened = none
event_of h broken = none

-- A state is no earlier than two others, in both of its times.
pub record IsLatest (h : Host) (new : Option LiveState) (snapshot success : Option ℤ) : Type 0 where
  pub by_snapshot : IsNoEarlier (snapshot_time h new) snapshot
  pub by_success : IsNoEarlier (success_time h new) success

merge_state-snapshot :
    (h : Host) (current : Option LiveState) (incoming : LiveState) (event : Option Json)
    → IsNoEarlier
        (snapshot_time h (some (merge_state h current incoming event)))
        (time h (observed_at (first_of event incoming.snapshot)))
      × IsNoEarlier
          (snapshot_time h (some (merge_state h current incoming event)))
          (snapshot_time h current)
unfolding merge_state
merge_state-snapshot h none incoming event =
    (IsNoEarlier-refl (time h (observed_at (first_of event incoming.snapshot))), refl)
merge_state-snapshot h (some current) incoming event =
    latest-IsNoEarlier (λ v. time h (observed_at v)) (first_of event incoming.snapshot)
      current.snapshot

-- `incoming.lastSuccess ?? current.lastSuccess`, where incoming is no earlier.
first_of-IsNoEarlier :
    (h : Host) (a b : Option Text)
    → IsNoEarlier (time h a) (time h b)
    → IsNoEarlier (time h (first_of a b)) (time h a)
      × IsNoEarlier (time h (first_of a b)) (time h b)
unfolding time
first_of-IsNoEarlier h none b e = (refl, IsNoEarlier-refl (time h b))
first_of-IsNoEarlier h (some a) b e = (IsNoEarlier-refl (time h (some a)), e)

merge_state-success :
    (h : Host) (current : Option LiveState) (incoming : LiveState) (event : Option Json)
    → IsNoEarlier
        (success_time h (some (merge_state h current incoming event)))
        (time h incoming.last_success)
      × IsNoEarlier
          (success_time h (some (merge_state h current incoming event)))
          (success_time h current)
unfolding merge_state
merge_state-success h none incoming event = (IsNoEarlier-refl (time h incoming.last_success), refl)
merge_state-success h (some current) incoming event =
    elim (Bool-cases (no_earlier (time h incoming.last_success) (time h current.last_success))) [
      | inl e ↦ simp e (first_of-IsNoEarlier h incoming.last_success current.last_success e)
      | inr e ↦ simp e (
        IsNoEarlier-total (time h incoming.last_success) (time h current.last_success) e,
        IsNoEarlier-refl (time h current.last_success),
      )
    ]

apply_event-IsLatest :
    (h : Host) (current : Option LiveState) (e : LiveEvent)
    → IsLatest h
        (some (apply_event h current e))
        (event_snapshot h (some e))
        (event_success h (some e))
unfolding apply_event
apply_event-IsLatest h current (state_event s) = record {
  by_snapshot = (merge_state-snapshot h current s none).0;
  by_success = (merge_state-success h current s none).0;
}
apply_event-IsLatest h current (snapshot_event s v) = record {
  by_snapshot = (merge_state-snapshot h current s (some v)).0;
  by_success = (merge_state-success h current s (some v)).0;
}

apply_event-forward :
    (h : Host) (current : Option LiveState) (e : LiveEvent)
    → IsLatest h (some (apply_event h current e)) (snapshot_time h current) (success_time h current)
unfolding apply_event
apply_event-forward h current (state_event s) = record {
  by_snapshot = (merge_state-snapshot h current s none).1;
  by_success = (merge_state-success h current s none).1;
}
apply_event-forward h current (snapshot_event s v) = record {
  by_snapshot = (merge_state-snapshot h current s (some v)).1;
  by_success = (merge_state-success h current s (some v)).1;
}

IsLatest-refl :
    (h : Host) (s : Option LiveState) → IsLatest h s (snapshot_time h s) (success_time h s)
IsLatest-refl h s = record {
  by_snapshot = IsNoEarlier-refl (snapshot_time h s);
  by_success = IsNoEarlier-refl (success_time h s);
}

IsLatest-trans :
    (h : Host) (new old : Option LiveState) (t u : Option ℤ)
    → IsLatest h new (snapshot_time h old) (success_time h old)
    → IsLatest h old t u
    → IsLatest h new t u
IsLatest-trans h new old t u a b = record {
  by_snapshot =
      IsNoEarlier-trans (snapshot_time h new) (snapshot_time h old) t a.by_snapshot b.by_snapshot;
  by_success =
      IsNoEarlier-trans (success_time h new) (success_time h old) u a.by_success b.by_success;
}

applied-forward :
    (h : Host) (t : Telemetry) (e : Option LiveEvent)
    → IsLatest h (applied h t e).cached (snapshot_time h t.cached) (success_time h t.cached)
applied-forward h t none = IsLatest-refl h t.cached
applied-forward h t (some e) = apply_event-forward h t.cached e

applied-IsLatest :
    (h : Host) (t : Telemetry) (e : Option LiveEvent)
    → IsLatest h (applied h t e).cached (event_snapshot h e) (event_success h e)
applied-IsLatest h t none = record { by_snapshot = refl; by_success = refl }
applied-IsLatest h t (some e) = apply_event-IsLatest h t.cached e

receive-forward :
    (h : Host) (t : Telemetry) (s : Signal)
    → IsLatest h (receive h t s).cached (snapshot_time h t.cached) (success_time h t.cached)
unfolding receive
receive-forward h t (message kind text) = applied-forward h t (parse_live_event h kind text)
receive-forward h t opened = IsLatest-refl h t.cached
receive-forward h t broken = IsLatest-refl h t.cached

receive-IsLatest :
    (h : Host) (t : Telemetry) (s : Signal)
    → IsLatest h
        (receive h t s).cached
        (event_snapshot h (event_of h s))
        (event_success h (event_of h s))
unfolding receive
receive-IsLatest h t (message kind text) = applied-IsLatest h t (parse_live_event h kind text)
receive-IsLatest h t opened = record { by_snapshot = refl; by_success = refl }
receive-IsLatest h t broken = record { by_snapshot = refl; by_success = refl }

-- Whatever the event source reports, in any order: while no request replaces the cached state, what
-- is shown never goes back, neither in the time of its snapshot nor in that of its last success.
pub receive_all-forward :
    (h : Host) (t : Telemetry) (signals : List Signal)
    → IsLatest h
        (receive_all h t signals).cached
        (snapshot_time h t.cached)
        (success_time h t.cached)
unfolding receive_all
receive_all-forward h t [] = IsLatest-refl h t.cached
receive_all-forward h t (s ∷ signals) =
    IsLatest-trans h (receive_all h (receive h t s) signals).cached (receive h t s).cached
      (snapshot_time h t.cached) (success_time h t.cached)
      (receive_all-forward h (receive h t s) signals) (receive-forward h t s)

-- Nothing newer is missed: after any sequence of reports during which no request replaces the cached
-- state, what is shown has a snapshot and a last success no earlier than those of every message of
-- the sequence that was read, also where the messages came out of order.
pub receive_all-IsLatest :
    (h : Host) (t : Telemetry) (signals : List Signal)
    → All
        (λ s.
          IsLatest h
            (receive_all h t signals).cached
            (event_snapshot h (event_of h s))
            (event_success h (event_of h s)))
        signals
unfolding receive_all
receive_all-IsLatest h t [] = tt
receive_all-IsLatest h t (s ∷ signals) = (
  IsLatest-trans h (receive_all h (receive h t s) signals).cached (receive h t s).cached
      (event_snapshot h (event_of h s)) (event_success h (event_of h s))
      (receive_all-forward h (receive h t s) signals) (receive-IsLatest h t s),
  receive_all-IsLatest h (receive h t s) signals,
)
