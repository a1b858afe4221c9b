-- ===== src/Web/Wizard.antt =====
-- web/src/features/onboarding/OnboardingWizard.tsx: the set-up wizard, as a machine whose events are
-- the visitor's and the outcomes of the request that it sends.
pub mod Laws
pub mod Tests
use helio.Prelude.{
  ℕ, ◌+◌, ◌-◌, Bool, true, false, not, ◌&&◌, ◌||◌, ◌==◌, Option, none, some, List, [], ◌∷◌, ◌++◌,
  if◌then◌else◌, leb, ltb, min,
}
use helio.Js.Text.{Text, codes, text_eq}
use helio.Web.Fields.{
  Locale, Field, at_username, at_password, at_confirm_password, at_logger_host, at_logger_serial,
  at_logger_port, at_modbus_slave, at_panel_count, at_panel_wattage, at_active_mppt, at_latitude,
  at_longitude, at_timezone, at_currency, at_tariff, at_retention_days, at_current_password,
  at_general, includes_input, without_input, number_of, clear_error,
}
use helio.Web.Forms.{
  OnboardingValues, Payload, initial_onboarding_values, validate_step, to_bootstrap_payload,
  server_field_error,
}

-- The state of the component. `sent` are the payloads that were posted, `pending` is the number of
-- them without an answer, and `closed` tells whether `onSuccess` or `onBootstrapClosed` was called.
pub record Wizard : Type 0 where
  pub step : ℕ
  pub values : OnboardingValues
  pub errors : List Field
  pub focus : Option Field
  pub submission_started : Bool
  pub pending : ℕ
  pub sent : List Payload
  pub closed : Bool

-- The wizard when it is shown.
abbrev pub start : Locale → Wizard
start l = record {
  step = 0;
  values = initial_onboarding_values l;
  errors = [];
  focus = none;
  submission_started = false;
  pending = 0;
  sent = [];
  closed = false;
}

-- `stepNames.length - 1`
abbrev pub last_step : ℕ
last_step = 4

-- The steps of `stepForField`; of the form as a whole, the current one.
abbrev pub step_for_field : Field → ℕ → ℕ
step_for_field at_username step = 0
step_for_field at_password step = 0
step_for_field at_confirm_password step = 0
step_for_field at_logger_host step = 1
step_for_field at_logger_serial step = 1
step_for_field at_logger_port step = 1
step_for_field at_modbus_slave step = 1
step_for_field at_panel_count step = 2
step_for_field at_panel_wattage step = 2
step_for_field at_active_mppt step = 2
step_for_field at_latitude step = 3
step_for_field at_longitude step = 3
step_for_field at_timezone step = 3
step_for_field at_currency step = 3
step_for_field at_tariff step = 3
step_for_field at_retention_days step = 3
step_for_field at_current_password step = step
step_for_field at_general step = step

-- `{ ...values, [field]: value }` for the fields that have an input.
unfoldable pub set_value : Field → Text → OnboardingValues → OnboardingValues
set_value at_username t v = record v { username = t }
set_value at_password t v = record v { password = t }
set_value at_confirm_password t v = record v { confirm_password = t }
set_value at_logger_host t v = record v { logger_host = t }
set_value at_logger_serial t v = record v { logger_serial = t }
set_value at_logger_port t v = record v { logger_port = t }
set_value at_modbus_slave t v = record v { modbus_slave = t }
set_value at_panel_count t v = record v { panel_count = t }
set_value at_panel_wattage t v = record v { panel_wattage = t }
set_value at_active_mppt t v = v
set_value at_latitude t v = record v { latitude = t }
set_value at_longitude t v = record v { longitude = t }
set_value at_timezone t v = record v { timezone = t }
set_value at_currency t v = record v { currency = t }
set_value at_tariff t v = record v { tariff = t }
set_value at_retention_days t v = record v { retention_days = t }
set_value at_current_password t v = v
set_value at_general t v = v

-- `update(field, value)`
unfoldable pub update : Field → Text → Wizard → Wizard
update field t w = record w {
  values = set_value field t w.values;
  errors = clear_error field w.errors;
}

-- `toggleMPPT(input)`
unfoldable pub toggle_mppt : ℕ → Wizard → Wizard
toggle_mppt input w =
    let inputs = w.values.active_mppt in
    record w {
      values = record w.values {
        active_mppt =
            if includes_input input inputs
            then without_input input inputs
            else inputs ++ input ∷ [];
      };
      errors = clear_error at_active_mppt w.errors;
    }

-- `advance()`, with the errors that `validateStep` finds.
abbrev advance_with : Wizard → List Field → Wizard
advance_with w [] = record w { errors = []; step = min (w.step + 1) last_step }
advance_with w (field ∷ fields) = record w { errors = field ∷ fields; focus = some field }

unfoldable pub advance : Locale → Wizard → Wizard
advance l w = advance_with w (validate_step l w.step w.values)

-- The loop of `submit`: the first of so many steps, from a candidate on, that has an error.
abbrev found_at :
    ℕ → List Field → Option (ℕ × (Field × List Field)) → Option (ℕ × (Field × List Field))
found_at step [] later = later
found_at step (field ∷ fields) later = some (step, (field, field ∷ fields))

unfoldable pub first_invalid : Locale → OnboardingValues → Option (ℕ × (Field × List Field))
first_invalid l v = found_at 0 (validate_step l 0 v) (
    found_at 1 (validate_step l 1 v)
      (found_at 2 (validate_step l 2 v) (found_at 3 (validate_step l 3 v) none)))

-- `mutation.mutate(toBootstrapPayload(values))`. Where the conversion throws, the lock stays and
-- nothing is posted.
abbrev post : Wizard → Option Payload → Wizard
post w none = w
post w (some payload) = record w { pending = w.pending + 1; sent = w.sent ++ payload ∷ [] }

abbrev submit_valid : Locale → Wizard → Wizard
submit_valid l w =
    if w.submission_started
    then record w { errors = [] }
    else post (record w { errors = []; submission_started = true })
        (to_bootstrap_payload l w.values)

abbrev submit_found : Locale → Wizard → Option (ℕ × (Field × List Field)) → Wizard
submit_found l w none = submit_valid l w
submit_found l w (some (step, (field, fields))) = record w {
  errors = fields;
  step = step;
  focus = some field;
}

-- `submit()`
unfoldable pub submit : Locale → Wizard → Wizard
submit l w = submit_found l w (first_invalid l w.values)

-- How the request ends.
pub data Answer : Type 0 where
  created : Answer
  -- an `ApiError` with its status, message and code
  refused : ℕ → Text → Text → Answer
  failed : Answer

-- The errors after a refusal with status 422, with the field that the message is about.
abbrev show_refusal : Wizard → Field → Wizard
show_refusal w field =
    if number_of field == number_of at_general
    then record w { errors = field ∷ [] }
    else record w { errors = field ∷ []; step = step_for_field field w.step; focus = some field }

-- `onSuccess` and `onError` of the mutation. After a conflict the set-up is over.
unfoldable pub settle : Locale → Answer → Wizard → Wizard
settle l created w = record w { pending = w.pending - 1; closed = true }
settle l failed w = record w {
  pending = w.pending - 1;
  submission_started = false;
  errors = at_general ∷ [];
}
settle l (refused status message code) w =
    let released = record w { pending = w.pending - 1; submission_started = false } in
    let general = record released { errors = at_general ∷ [] } in
    let shown = show_refusal released (server_field_error l message code) in
    if status == 409
    then record released { closed = true }
    else if status == 422
    then shown
    else general

pub data Event : Type 0 where
  updates : Field → Text → Event
  toggles : ℕ → Event
  -- the form's submit event, and the button back
  submits goes_back : Event
  answers : Answer → Event

-- The events that can happen. The button back is there after the first step, and an answer needs a
-- request. The button that submits is disabled while a request is pending, but a second submit event
-- may come before the page is drawn again, so it is allowed at any time here.
unfoldable pub is_possible : Event → Wizard → Bool
is_possible (updates field t) w = true
is_possible (toggles input) w = true
is_possible submits w = true
is_possible goes_back w = ltb 0 w.step
is_possible (answers answer) w = ltb 0 w.pending

unfoldable pub handle : Locale → Event → Wizard → Wizard
unfolding advance submit update toggle_mppt settle
handle l (updates field t) w = update field t w
handle l (toggles input) w = toggle_mppt input w
handle l submits w =
    let sent = submit l w in let next = advance l w in if w.step == last_step then sent else next
handle l goes_back w = record w { errors = []; step = w.step - 1 }
handle l (answers answer) w = settle l answer w

unfoldable pub run : Locale → List Event → Wizard → Wizard
unfolding handle is_possible
run l [] w = w
run l (e ∷ events) w =
    let taken = run l events (handle l e w) in
    let skipped = run l events w in if is_possible e w then taken else skipped
