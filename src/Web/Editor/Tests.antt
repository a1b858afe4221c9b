-- ===== src/Web/Editor/Tests.antt =====
-- Runs of the editor, and examples of its theorems.
use helio.Prelude.{true, ◌≡◌, refl, List, [], ◌∷◌, map}
use helio.Js.Text.{codes, text_eq, trim, drop_end, drop_while, is_space}
use helio.Js.Number.{whole}
use helio.Web.Fields.{
  Settings, at_panel_count, at_logger_host, checks, integer, is_numeral, is_between, is_octet,
  split_on, valid_ipv4, valid_logger_serial, is_power_allowed, is_positive, valid_timezone,
  is_currency, currencies, decimal, replace_comma, decimal_whole, decimal_fraction, is_within,
  tariff_minor, tariff_limit, tariff_from, tariff_fraction, sort_inputs, insert_input, numeral,
  digits_from, text_leb, pad_two, clear_error, includes_input, without_input,
}
use helio.Web.Fields.Toy.{ascii}
use helio.Web.Settings.{
  settings_to_values, values_to_settings, validate_settings, tariff_text, trimmed_tariff,
  logger_identity_changed, same_settings, same_settings_values, same_inputs,
}
use helio.Web.Editor.{
  Editor, confirm_request, update_request, start, dirty, sync, set_field, set_value, toggle_mppt,
  next_errors, begin, submit, failure_field, Event, sets, types_password, submits, confirmed,
  refetched, act, handle, run,
}
use helio.Web.Editor.Approvals.{AddsRequest, run-AddsRequest}
use helio.Web.Editor.Edits.{IsKept, is_edited, refetches-IsKept}

abbrev settings : Settings
settings = record {
  active_mppt = 1 ∷ [];
  currency = codes "BRL";
  latitude = whole 0;
  logger_host = codes "192.0.2.1";
  logger_port = 8899;
  logger_serial = codes "1";
  longitude = whole 0;
  modbus_slave = 1;
  panel_count = 7;
  panel_wattage = 610;
  retention_days = 730;
  tariff_minor_per_kwh = 95;
  timezone = codes "UTC";
}

editor_code : Unit {0}
unfolding checks integer is_numeral is_between is_octet split_on valid_ipv4 valid_logger_serial
    is_power_allowed is_positive valid_timezone is_currency currencies decimal replace_comma
    decimal_whole decimal_fraction is_within tariff_minor tariff_limit tariff_from tariff_fraction
    sort_inputs insert_input numeral digits_from text_leb pad_two text_eq trim drop_end drop_while
    is_space clear_error includes_input without_input settings_to_values values_to_settings
    validate_settings tariff_text trimmed_tariff logger_identity_changed same_settings
    same_settings_values same_inputs dirty sync set_field set_value toggle_mppt next_errors begin
    submit failure_field act handle run is_edited
editor_code = tt

abbrev edited : Editor
edited = record (start ascii settings) {
  values = record (start ascii settings).values { panel_count = codes "8" };
}

-- A change of the panels is sent at once.
update_test :
    (run ascii (submits ∷ []) edited).requests
    ≡ update_request (record settings { panel_count = 8 }) ∷ []
unfolding editor_code
update_test = refl

-- A change of the logger's address needs the password, and is sent once it is confirmed.
abbrev moving : List Event
moving =
    sets at_logger_host (codes "192.0.2.2")
    ∷ submits
    ∷ types_password (codes "secret")
    ∷ submits
    ∷ sets at_panel_count (codes "9")
    ∷ confirmed
    ∷ []

confirm_test :
    (run ascii moving (start ascii settings)).requests
    ≡ confirm_request (codes "secret")
      ∷ update_request (record settings { logger_host = codes "192.0.2.2" })
      ∷ []
unfolding editor_code
confirm_test = refl

edited_test : is_edited ascii edited ≡ true
unfolding editor_code
edited_test = refl

refetches-IsKept_example :
    IsKept ascii edited
      (run ascii (map refetched (record settings { panel_count = 9 } ∷ settings ∷ [])) edited)
refetches-IsKept_example =
    refetches-IsKept ascii (record settings { panel_count = 9 }) (settings ∷ []) edited edited_test

-- The visitor has moved the logger and given the password; then the server confirms it.
abbrev moved : List Event
moved = sets at_logger_host (codes "192.0.2.2") ∷ types_password (codes "secret") ∷ submits ∷ []

run-AddsRequest_example :
    AddsRequest ascii confirmed
      (run ascii moved (start ascii settings))
      (handle ascii confirmed (run ascii moved (start ascii settings))).requests
run-AddsRequest_example = run-AddsRequest ascii settings moved confirmed
