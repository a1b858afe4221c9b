-- ===== src/Web/Live/Tests.antt =====
-- Runs of the stream, and examples of its theorems.
use helio.Web.Live.Status.{
  last_success_at, is_old, live, offline, Inputs, connection_state, SharedStatus,
}
use helio.Js.Json.{find_field, Json, bool, number, string, array, object, nil, end, field}
use helio.Web.Live.{
  time, state_of, receive, apply_event, merge_state, is_fault_code, are_fault_codes, is_date,
  is_mppt, is_grid, is_snapshot, is_state, read_event, LiveState, LiveEvent, Telemetry, Signal,
  message, opened, broken, receive_all, connecting, connected, state_event, parse_live_event,
}
use helio.Prelude.{◌-ℤ◌, Bool, true, false, Option, none, some, ◌≡◌, refl, List, [], ◌∷◌, All, pos}
use helio.Js.Text.{Text, codes, text_eq}
use helio.Js.Number.{whole}
use helio.Js.Host.{Host}
use helio.Js.Toy.{toy}
use helio.Web.Live.Laws.{IsLatest, receive_all-IsLatest, event_snapshot, event_success, event_of}
use helio.Web.Live.Events.{EventIsValid, parse_live_event-IsValid}

abbrev mppt : Json
mppt = object (
    field (codes "active") (bool true) (
      field (codes "currentA") (number (whole 3)) (
        field (codes "powerW") (number (whole 90))
          (field (codes "voltageV") (number (whole 30)) end))))

-- The snapshot that was observed at a time.
abbrev snapshot_at : Text → Json
snapshot_at at = object (
    field (codes "observedAt") (string at) (
      field (codes "status") (string (codes "normal")) (
        field (codes "acPowerW") (number (whole 180)) (
          field (codes "energyTodayWh") (number (whole 900)) (
            field (codes "energyLifetimeWh") (number (whole 9000)) (
              field (codes "pv1") mppt (
                field (codes "pv2") mppt (
                  field (codes "grid")
                    (object (
                      field (codes "voltageV") (number (whole 220))
                        (field (codes "frequencyHz") (number (whole 60)) end)))
                    (field (codes "faultCodes") (array nil) end)))))))))

abbrev state_json : Json
state_json = object (
    field (codes "stale") (bool false) (
      field (codes "lastSuccess") (string (codes "50"))
        (field (codes "snapshot") (snapshot_at (codes "50")) end)))

-- A host whose JSON text is always that of the state.
abbrev host : Host
host = toy state_json

abbrev newer_state : LiveState
newer_state = record {
  error_class = none;
  last_error = none;
  last_error_at = none;
  last_success = some (codes "70");
  snapshot = some (snapshot_at (codes "70"));
  stale = false;
}

abbrev telemetry : Telemetry
telemetry = record { cached = some newer_state; stream = connecting }

abbrev signals : List Signal
signals = opened ∷ message (codes "state") (codes "{}") ∷ broken ∷ []

abbrev is_read : Option LiveEvent → Bool
is_read none = false
is_read (some e) = true

live_code : Unit {0}
unfolding receive_all receive apply_event merge_state parse_live_event read_event is_state
    is_snapshot is_grid is_mppt is_date are_fault_codes is_fault_code time text_eq find_field
    connection_state is_old last_success_at
live_code = tt

-- An older state that comes late changes nothing but the stream.
late_test : (receive_all host telemetry signals).cached ≡ some newer_state
unfolding live_code
late_test = refl

-- From nothing, the state that comes is shown.
first_test :
    (receive_all host (record { cached = none; stream = connecting }) signals).cached
    ≡ some (state_of state_json)
unfolding live_code
first_test = refl

receive_all-IsLatest_example :
    All
      (λ s.
        IsLatest host
          (receive_all host telemetry signals).cached
          (event_snapshot host (event_of host s))
          (event_success host (event_of host s)))
      signals
receive_all-IsLatest_example = receive_all-IsLatest host telemetry signals

state_read :
    parse_live_event host (codes "state") (codes "{}") ≡ some (state_event (state_of state_json))
unfolding live_code
state_read = refl

parse_live_event-IsValid_example : EventIsValid host (state_event (state_of state_json))
parse_live_event-IsValid_example =
    parse_live_event-IsValid host (codes "state") (codes "{}") (state_event (state_of state_json))
      state_read

abbrev inputs : Inputs
inputs = record {
  is_offline = false;
  is_error = false;
  is_pending = false;
  shown = some newer_state;
  stream = connected;
  clock = pos 1000;
}

live_test : connection_state host inputs ≡ live
unfolding live_code ◌-ℤ◌
live_test = refl

abbrev shared : SharedStatus
shared = record { text = codes "Sem conexão"; connection = offline; calls = 3 }
