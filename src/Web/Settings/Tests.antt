-- ===== src/Web/Settings/Tests.antt =====
-- Runs of settings-model.ts, and examples of its theorems.
use helio.Prelude.{true, negsuc, false, ◌≡◌, refl, [], ◌∷◌, arith}
use helio.Js.Text.{codes, text_eq, trim, drop_end, drop_while, is_space}
use helio.Js.Number.{Number, dyadic, whole}
use helio.Web.Fields.{
  Locale, Settings, checks, integer, is_numeral, is_between, is_octet, split_on, valid_ipv4,
  valid_logger_serial, is_power_allowed, is_positive, valid_timezone, is_currency, currencies,
  decimal, replace_comma, decimal_whole, decimal_fraction, is_within, tariff_minor, tariff_limit,
  tariff_from, tariff_fraction, sort_inputs, insert_input, numeral, digits_from, text_leb, pad_two,
  at_panel_count, at_tariff,
}
use helio.Web.Fields.Toy.{ascii}
use helio.Web.Fields.Checks.{HasFigures, IsInRange}
use helio.Web.Settings.{
  SettingsValues, settings_to_values, values_to_settings, validate_settings, tariff_text,
  trimmed_tariff, logger_identity_changed, same_settings_values, same_inputs,
}
use helio.Web.Settings.Laws.{values_to_settings-IsInRange, figures}
use helio.Web.Settings.Canonical.{IsCoordinate, IsServed, settings_roundtrip}
use helio.Web.Fields.Shown.{pointed}

abbrev settings : Settings
settings = record {
  active_mppt = 1 ∷ 2 ∷ [];
  currency = codes "BRL";
  latitude = whole 0;
  logger_host = codes "192.0.2.1";
  logger_port = 8899;
  logger_serial = codes "4294967295";
  longitude = whole 0;
  modbus_slave = 1;
  panel_count = 7;
  panel_wattage = 610;
  retention_days = 730;
  tariff_minor_per_kwh = 9505;
  timezone = codes "UTC";
}

settings_code : Unit {0}
unfolding checks integer is_numeral is_between is_octet split_on valid_ipv4 valid_logger_serial
    is_power_allowed is_positive valid_timezone is_currency currencies decimal replace_comma
    decimal_whole decimal_fraction is_within tariff_minor tariff_limit tariff_from tariff_fraction
    sort_inputs insert_input numeral digits_from text_leb pad_two text_eq trim drop_end drop_while
    is_space settings_to_values values_to_settings validate_settings tariff_text trimmed_tariff
    logger_identity_changed same_settings_values same_inputs
settings_code = tt

abbrev shown : SettingsValues
shown = record {
  active_mppt = 1 ∷ 2 ∷ [];
  currency = codes "BRL";
  latitude = codes "0";
  logger_host = codes "192.0.2.1";
  logger_port = codes "8899";
  logger_serial = codes "4294967295";
  longitude = codes "0";
  modbus_slave = codes "1";
  panel_count = codes "7";
  panel_wattage = codes "610";
  retention_days = codes "730";
  tariff = codes "95,05";
  timezone = codes "UTC";
}

shown_test : settings_to_values ascii settings ≡ shown
unfolding settings_code
shown_test = refl

no_errors : validate_settings ascii shown ≡ []
unfolding settings_code
no_errors = refl

errors_test :
    validate_settings ascii (record shown { panel_count = codes "20"; tariff = codes "1,2,3" })
    ≡ at_panel_count ∷ at_tariff ∷ []
unfolding settings_code
errors_test = refl

-- Minus 23.5, the only number that this locale writes and reads.
abbrev south : Number
south = dyadic (negsuc 46) 1

abbrev southern : Locale
southern = record ascii { number_of = λ t. south; number_text = λ x. codes "-23.5" }

abbrev farm : Settings
farm = record settings { latitude = south; longitude = south }

south-IsCoordinate : IsCoordinate southern south
unfolding settings_code
south-IsCoordinate = record {
  shape = pointed true (codes "23") (codes "5");
  digits = (refl, refl);
  shown = refl;
  read = refl;
  finite = refl;
}

farm-IsInRange : IsInRange farm
unfolding settings_code
farm-IsInRange = record {
  latitude = refl;
  longitude = refl;
  port = (omega arith, omega arith);
  slave = (omega arith, omega arith);
  panels = (omega arith, omega arith);
  power = omega arith;
  retention = (omega arith, omega arith);
  tariff = omega arith;
}

farm-IsServed : IsServed southern farm
unfolding settings_code
farm-IsServed = record {
  range = farm-IsInRange;
  some_input = omega arith;
  sorted = (refl, tt);
  host = refl;
  serial = refl;
  currency = refl;
  zone = refl;
  solid = (refl, (refl, (refl, tt)));
  latitude = south-IsCoordinate;
  longitude = south-IsCoordinate;
}

settings_roundtrip_example :
    (validate_settings southern (settings_to_values southern farm) ≡ [])
    × ((values_to_settings southern (settings_to_values southern farm) ≡ farm)
        × (logger_identity_changed (settings_to_values southern farm) farm ≡ false))
settings_roundtrip_example = settings_roundtrip southern farm (λ t e. refl) farm-IsServed

values_to_settings-IsInRange_example :
    HasFigures (figures ascii shown) (values_to_settings ascii shown)
    × IsInRange (values_to_settings ascii shown)
values_to_settings-IsInRange_example = values_to_settings-IsInRange ascii shown no_errors
