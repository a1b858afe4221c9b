-- ===== src/Web/Live.antt =====
-- web/src/api/live-events.ts: which messages of the stream are read; and `mergeState` and the
-- stream of web/src/features/live/useLiveTelemetry.ts.
pub mod Times
pub mod Laws
pub mod Status
pub mod Connection
pub mod Snapshots
pub mod Events
pub mod Tests
use helio.Prelude.{
  ℕ, ◌%◌, ◌^◌, suc, Bool, true, false, not, ◌&&◌, ◌||◌, ◌==◌, Option, none, some, List, [], ◌∷◌,
  if◌then◌else◌, or_else, all, ℤ, pos, negsuc, lebℤ,
}
use helio.Js.Text.{Text, codes, text_eq}
use helio.Js.Number.{Number, dyadic, infinity, neg_infinity, nan, is_finite, at_least}
use helio.Js.Json.{Json, get_field, is_record, as_array, as_string, as_number, as_bool}
use helio.Js.Host.{Host}

-- `LiveState`, of the fields that its type declares. A snapshot is the JSON value as it was read.
pub record LiveState : Type 0 where
  pub error_class : Option Text
  pub last_error : Option Text
  pub last_error_at : Option Text
  pub last_success : Option Text
  pub snapshot : Option Json
  pub stale : Bool

-- `LiveEvent`
pub data LiveEvent : Type 0 where
  state_event : LiveState → LiveEvent
  snapshot_event : LiveState → Json → LiveEvent

abbrev pub is_some {ℓ} : {A : Type ℓ} → Option A → Bool
is_some none = false
is_some (some a) = true

-- `finite(value)`
abbrev pub finite : Option Json → Bool
finite v = elim (as_number v) [ none ↦ false | some x ↦ is_finite x ]

-- `isMPPT(value)`
unfoldable pub is_mppt : Option Json → Bool
is_mppt none = false
is_mppt (some v) =
    is_record v
    && (is_some (as_bool (get_field (codes "active") v))
        && (finite (get_field (codes "currentA") v)
            && (finite (get_field (codes "powerW") v) && finite (get_field (codes "voltageV") v))))

-- `Number.isInteger(code)`
abbrev pub is_integer : Number → Bool
is_integer (dyadic (pos n) k) = (n % 2 ^ k) == 0
is_integer (dyadic (negsuc n) k) = (suc n % 2 ^ k) == 0
is_integer infinity = false
is_integer neg_infinity = false
is_integer nan = false

-- `Number.isInteger(code) && code >= 0`
unfoldable pub is_fault_code : Json → Bool
is_fault_code v = elim (as_number (some v)) [ none ↦ false | some x ↦ is_integer x && at_least x 0 ]

-- `Array.isArray(value.faultCodes) && value.faultCodes.every(…)`
unfoldable pub are_fault_codes : Option Json → Bool
are_fault_codes none = false
are_fault_codes (some v) = elim (as_array v) [ none ↦ false | some vs ↦ all is_fault_code vs ]

-- `typeof value === 'string' && Number.isFinite(Date.parse(value))`
unfoldable pub is_date : Host → Option Json → Bool
is_date h v = elim (as_string v) [ none ↦ false | some text ↦ is_some (h.date_parse text) ]

-- `isRecord(value.grid)` with its `voltageV` and `frequencyHz`
unfoldable pub is_grid : Option Json → Bool
is_grid none = false
is_grid (some v) =
    is_record v
    && (finite (get_field (codes "voltageV") v) && finite (get_field (codes "frequencyHz") v))

-- `isSnapshot(value)`
unfoldable pub is_snapshot : Host → Json → Bool
is_snapshot h v =
    (is_record v && is_grid (get_field (codes "grid") v))
    && (is_date h (get_field (codes "observedAt") v)
        && (is_some (as_string (get_field (codes "status") v))
            && (finite (get_field (codes "acPowerW") v)
                && (finite (get_field (codes "energyTodayWh") v)
                    && (finite (get_field (codes "energyLifetimeWh") v)
                        && (is_mppt (get_field (codes "pv1") v)
                            && (is_mppt (get_field (codes "pv2") v)
                                && are_fault_codes (get_field (codes "faultCodes") v))))))))

-- `value === undefined || test(value)`
abbrev pub absent_or : (Json → Bool) → Option Json → Bool
absent_or p none = true
absent_or p (some v) = p v

abbrev is_string : Json → Bool
is_string v = is_some (as_string (some v))

-- `isState(value)`
unfoldable pub is_state : Host → Json → Bool
is_state h v =
    (is_record v
      && (not (is_some (get_field (codes "version") v))
          && is_some (as_bool (get_field (codes "stale") v))))
    && (absent_or is_string (get_field (codes "lastSuccess") v)
        && (absent_or is_string (get_field (codes "lastError") v)
            && (absent_or is_string (get_field (codes "lastErrorAt") v)
                && (absent_or is_string (get_field (codes "errorClass") v)
                    && (absent_or (λ t. is_date h (some t)) (get_field (codes "lastSuccess") v)
                        && (absent_or (λ t. is_date h (some t)) (get_field (codes "lastErrorAt") v)
                            && absent_or (is_snapshot h) (get_field (codes "snapshot") v)))))))

-- A value that `isState` accepts, by its declared fields.
abbrev pub state_of : Json → LiveState
state_of v = record {
  error_class = as_string (get_field (codes "errorClass") v);
  last_error = as_string (get_field (codes "lastError") v);
  last_error_at = as_string (get_field (codes "lastErrorAt") v);
  last_success = as_string (get_field (codes "lastSuccess") v);
  snapshot = get_field (codes "snapshot") v;
  stale = or_else (as_bool (get_field (codes "stale") v)) false;
}

-- The event of a message of the kind 'snapshot' whose state and snapshot are there.
unfoldable pub read_pair : Host → Option Json → Option Json → Option LiveEvent
read_pair h (some state) (some snapshot) =
    if is_state h state && is_snapshot h snapshot
    then some (snapshot_event (state_of state) snapshot)
    else none
read_pair h (some state) none = none
read_pair h none snapshot = none

abbrev pub is_text : Text → Option Json → Bool
is_text text v = elim (as_string v) [ none ↦ false | some t ↦ text_eq t text ]

unfoldable pub read_event : Host → Text → Json → Option LiveEvent
read_event h kind v =
    if text_eq kind (codes "state")
    then (if is_state h v then some (state_event (state_of v)) else none)
    else if not (text_eq kind (codes "snapshot"))
        || (not (is_record v)
            || (not (is_text (codes "snapshot") (get_field (codes "kind") v))
                || is_some (get_field (codes "version") v)))
    then none
    else read_pair h (get_field (codes "state") v) (get_field (codes "snapshot") v)

-- `parseLiveEvent(kind, value)`
unfoldable pub parse_live_event : Host → Text → Text → Option LiveEvent
parse_live_event h kind text = elim (h.json_parse text) [
  | none ↦ none
  | some v ↦ read_event h kind v
]

-- `time(value)`; `none` is -Infinity.
unfoldable pub time : Host → Option Text → Option ℤ
time h none = none
time h (some []) = none
time h (some (c ∷ text)) = h.date_parse (c ∷ text)

-- `>=` on such times.
abbrev pub no_earlier : Option ℤ → Option ℤ → Bool
no_earlier a none = true
no_earlier none (some u) = false
no_earlier (some t) (some u) = lebℤ u t

-- `snapshot?.observedAt`
abbrev pub observed_at : Option Json → Option Text
observed_at none = none
observed_at (some v) = as_string (get_field (codes "observedAt") v)

-- `first ?? second`
abbrev pub first_of {ℓ} : {A : Type ℓ} → Option A → Option A → Option A
first_of (some a) other = some a
first_of none other = other

-- `mergeState(current, incoming, eventSnapshot)`
unfoldable pub merge_state : Host → Option LiveState → LiveState → Option Json → LiveState
merge_state h none incoming event = record incoming { snapshot = first_of event incoming.snapshot }
merge_state h (some current) incoming event =
    let candidate = first_of event incoming.snapshot in
    let is_current = no_earlier (time h incoming.last_success) (time h current.last_success) in
    let older = if is_current then current else incoming in
    let newer = if is_current then incoming else current in
    record {
      error_class = first_of newer.error_class older.error_class;
      last_error = first_of newer.last_error older.last_error;
      last_error_at = first_of newer.last_error_at older.last_error_at;
      last_success =
          if is_current
          then first_of incoming.last_success current.last_success
          else current.last_success;
      snapshot =
          if no_earlier (time h (observed_at candidate)) (time h (observed_at current.snapshot))
          then candidate
          else current.snapshot;
      stale = if is_current then incoming.stale else current.stale;
    }

-- What `apply` does with an event that was read.
unfoldable pub apply_event : Host → Option LiveState → LiveEvent → LiveState
apply_event h current (state_event state) = merge_state h current state none
apply_event h current (snapshot_event state snapshot) = merge_state h current state (some snapshot)

pub data StreamState : Type 0 where
  connecting connected reconnecting : StreamState

-- The cached state of the query and the state of the stream.
pub record Telemetry : Type 0 where
  pub cached : Option LiveState
  pub stream : StreamState

-- What the event source reports: a message with its kind and text, `onopen` or `onerror`.
pub data Signal : Type 0 where
  message : Text → Text → Signal
  opened broken : Signal

abbrev pub applied : Host → Telemetry → Option LiveEvent → Telemetry
applied h t none = t
applied h t (some event) = record {
  cached = some (apply_event h t.cached event);
  stream = connected;
}

-- The listeners of the event source.
unfoldable pub receive : Host → Telemetry → Signal → Telemetry
receive h t (message kind text) = applied h t (parse_live_event h kind text)
receive h t opened = record t { stream = connected }
receive h t broken = record t { stream = reconnecting }

-- A sequence of reports, while no request replaces the cached state.
unfoldable pub receive_all : Host → Telemetry → List Signal → Telemetry
unfolding receive
receive_all h t [] = t
receive_all h t (s ∷ signals) = receive_all h (receive h t s) signals
