-- ===== src/Web/Editor.antt =====
-- web/src/features/settings/SettingsPage.tsx: the editor of the settings, as a machine whose events
-- are the visitor's, the outcomes of its requests and the settings that the server sends meanwhile.
pub mod Laws
pub mod Approvals
pub mod Edits
pub mod Tests
use helio.Prelude.{
  ℕ, Bool, true, false, not, ◌&&◌, ◌||◌, ◌==◌, Option, none, some, List, [], ◌∷◌, ◌++◌,
  if◌then◌else◌,
}
use helio.Js.Text.{Text, text_eq}
use helio.Web.Fields.{
  Locale, Settings, Field, at_username, at_password, at_confirm_password, at_logger_host,
  at_logger_serial, at_logger_port, at_modbus_slave, at_panel_count, at_panel_wattage,
  at_active_mppt, at_latitude, at_longitude, at_timezone, at_currency, at_tariff, at_retention_days,
  at_current_password, at_general, checks, includes_input, without_input, sort_inputs, clear_error,
}
use helio.Web.Settings.{
  SettingsValues, settings_to_values, values_to_settings, validate_settings,
  logger_identity_changed, same_settings, same_settings_values, settings_server_error,
}

-- What a save waits for: nothing, the confirmation of the password before the values it was started
-- with are sent, the answer to an update, or the refetches behind it.
pub data Phase : Type 0 where
  idle updating refreshing : Phase
  confirming : SettingsValues → Phase

-- The requests that the editor makes.
pub data Request : Type 0 where
  confirm_request : Text → Request
  update_request : Settings → Request

pub data Status : Type 0 where
  no_status saved_status loaded_status kept_status : Status

-- The state of the component; `server` is its property `initial`, the settings that the query holds.
pub record Editor : Type 0 where
  pub server : Settings
  pub original : Settings
  pub values : SettingsValues
  pub errors : List Field
  pub current_password : Text
  pub conflict : Option Settings
  pub saving : Bool
  pub status : Status
  pub phase : Phase
  pub requests : List Request

abbrev pub start : Locale → Settings → Editor
start l initial = record {
  server = initial;
  original = initial;
  values = settings_to_values l initial;
  errors = [];
  current_password = [];
  conflict = none;
  saving = false;
  status = no_status;
  phase = idle;
  requests = [];
}

-- `dirty` and `changedIdentity`
unfoldable pub dirty : Locale → Editor → Bool
dirty l e = not (same_settings_values e.values (settings_to_values l e.original))

abbrev pub changed_identity : Editor → Bool
changed_identity e = logger_identity_changed e.values e.original

-- The effect on `initial`. It runs after a change of `dirty`, `initial`, `original` or `saving`; where
-- none of them has changed, running it again changes nothing.
unfoldable pub sync : Locale → Editor → Editor
sync l e =
    let held = record e { conflict = some e.server } in
    let taken = record e {
      original = e.server;
      values = settings_to_values l e.server;
      conflict = none;
      errors = [];
    } in
    if same_settings l e.server e.original then e else if dirty l e || e.saving then held else taken

-- `{ ...values, [field]: value }` for the fields that have an input.
unfoldable pub set_value : Field → Text → SettingsValues → SettingsValues
set_value at_logger_host t v = record v { logger_host = t }
set_value at_logger_serial t v = record v { logger_serial = t }
set_value at_logger_port t v = record v { logger_port = t }
set_value at_modbus_slave t v = record v { modbus_slave = t }
set_value at_panel_count t v = record v { panel_count = t }
set_value at_panel_wattage t v = record v { panel_wattage = t }
set_value at_latitude t v = record v { latitude = t }
set_value at_longitude t v = record v { longitude = t }
set_value at_timezone t v = record v { timezone = t }
set_value at_currency t v = record v { currency = t }
set_value at_tariff t v = record v { tariff = t }
set_value at_retention_days t v = record v { retention_days = t }
set_value at_username t v = v
set_value at_password t v = v
set_value at_confirm_password t v = v
set_value at_active_mppt t v = v
set_value at_current_password t v = v
set_value at_general t v = v

-- `setField(field, value)`
unfoldable pub set_field : Field → Text → Editor → Editor
set_field field t e = record e {
  values = set_value field t e.values;
  errors = clear_error at_general (clear_error field e.errors);
  status = no_status;
}

-- `toggleMPPT(input)`
unfoldable pub toggle_mppt : ℕ → Editor → Editor
toggle_mppt input e =
    let inputs = e.values.active_mppt in
    record e {
      values = record e.values {
        active_mppt =
            if includes_input input inputs
            then without_input input inputs
            else sort_inputs (inputs ++ input ∷ []);
      };
      errors = clear_error at_general (clear_error at_active_mppt e.errors);
    }

abbrev is_empty : Text → Bool
is_empty [] = true
is_empty (c ∷ s) = false

-- `nextErrors` of `submit`
unfoldable pub next_errors : Locale → Editor → List Field
next_errors l e =
    validate_settings l e.values
    ++ checks ((not (changed_identity e && is_empty e.current_password), at_current_password) ∷ [])

-- The save that starts: it confirms the password where the logger's identity has changed, else it
-- updates at once.
unfoldable pub begin : Locale → Editor → Editor
begin l e =
    let confirms = record e {
      saving = true;
      status = no_status;
      errors = [];
      phase = confirming e.values;
      requests = e.requests ++ confirm_request e.current_password ∷ [];
    } in
    let updates = record e {
      saving = true;
      status = no_status;
      errors = [];
      phase = updating;
      requests = e.requests ++ update_request (values_to_settings l e.values) ∷ [];
    } in
    if changed_identity e then confirms else updates

abbrev pub submit_with : Locale → Editor → List Field → Editor
submit_with l e [] = begin l e
submit_with l e (field ∷ fields) = record e { errors = field ∷ fields }

-- `submit(event)` up to its first `await`
unfoldable pub submit : Locale → Editor → Editor
submit l e = if e.saving then e else submit_with l e (next_errors l e)

-- What a request may throw: an `ApiError`, a TypeError of the network, or anything else.
pub data Failure : Type 0 where
  api_failure : ℕ → Text → Text → Failure
  network_failure other_failure : Failure

-- The error that the `catch` of `submit` shows.
unfoldable pub failure_field : Locale → Failure → Field
failure_field l (api_failure status message code) =
    if status == 422
    then settings_server_error l message code
    else if status == 409
    then at_general
    else if status == 401
    then at_current_password
    else at_general
failure_field l network_failure = at_general
failure_field l other_failure = at_general

abbrev fail_in : Locale → Failure → Editor → Phase → Editor
fail_in l failure e idle = e
fail_in l failure e refreshing = e
fail_in l failure e updating = record e {
  errors = failure_field l failure ∷ [];
  saving = false;
  phase = idle;
}
fail_in l failure e (confirming v) = record e {
  errors = failure_field l failure ∷ [];
  saving = false;
  phase = idle;
}

abbrev confirm_in : Locale → Editor → Phase → Editor
confirm_in l e idle = e
confirm_in l e refreshing = e
confirm_in l e updating = e
confirm_in l e (confirming v) = record e {
  phase = updating;
  requests = e.requests ++ update_request (values_to_settings l v) ∷ [];
}

abbrev save_in : Locale → Settings → Editor → Phase → Editor
save_in l saved e idle = e
save_in l saved e refreshing = e
save_in l saved e (confirming v) = e
save_in l saved e updating = record e {
  server = saved;
  original = saved;
  values = settings_to_values l saved;
  current_password = [];
  conflict = none;
  status = saved_status;
  phase = refreshing;
}

abbrev finish_in : Editor → Phase → Editor
finish_in e idle = e
finish_in e updating = e
finish_in e (confirming v) = e
finish_in e refreshing = record e { saving = false; phase = idle }

-- The two buttons of a conflict; they are disabled while the editor saves.
abbrev load_from : Locale → Editor → Option Settings → Editor
load_from l e none = e
load_from l e (some theirs) = record e {
  original = theirs;
  values = settings_to_values l theirs;
  current_password = [];
  conflict = none;
  errors = [];
  status = loaded_status;
}

abbrev keep_from : Editor → Option Settings → Editor
keep_from e none = e
keep_from e (some theirs) = record e { original = theirs; conflict = none; status = kept_status }

pub data Event : Type 0 where
  sets : Field → Text → Event
  toggles : ℕ → Event
  types_password : Text → Event
  submits loads_theirs keeps_edits : Event
  -- the password is confirmed, the update is answered with the settings, a request fails, and the
  -- refetches behind a save are done
  confirmed refreshed : Event
  saved : Settings → Event
  fails : Failure → Event
  -- the query has other settings
  refetched : Settings → Event

-- The handler of an event, an event that cannot happen in the phase being ignored.
unfoldable pub act : Locale → Event → Editor → Editor
unfolding submit set_field toggle_mppt
act l (sets field t) e = set_field field t e
act l (toggles input) e = toggle_mppt input e
act l (types_password t) e = record e {
  current_password = t;
  errors = clear_error at_current_password e.errors;
}
act l submits e = submit l e
act l loads_theirs e = if e.saving then e else load_from l e e.conflict
act l keeps_edits e = if e.saving then e else keep_from e e.conflict
act l confirmed e = confirm_in l e e.phase
act l refreshed e = finish_in e e.phase
act l (saved settings) e = save_in l settings e e.phase
act l (fails failure) e = fail_in l failure e e.phase
act l (refetched settings) e = record e { server = settings }

-- An event with the effect behind it.
unfoldable pub handle : Locale → Event → Editor → Editor
unfolding act sync
handle l event e = sync l (act l event e)

unfoldable pub run : Locale → List Event → Editor → Editor
unfolding handle
run l [] e = e
run l (event ∷ events) e = run l events (handle l event e)
