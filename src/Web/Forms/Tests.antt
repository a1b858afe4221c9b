-- ===== src/Web/Forms/Tests.antt =====
-- Runs of schema.ts, and an example of its theorem.
use helio.Prelude.{◌≡◌, refl, [], ◌∷◌, some}
use helio.Js.Text.{starts_with, trim, drop_end, drop_while, is_space, codes, text_eq}
use helio.Web.Browser.{contains}
use helio.Web.Fields.Toy.{ascii}
use helio.Web.Forms.{
  validate_location, validate_step, valid_currency, server_field_error, first_mapping, mentions,
  OnboardingValues, validate_logger, validate_panels, validate_account, installation,
}
use helio.Web.Fields.{
  at_currency, at_tariff, at_retention_days, at_logger_serial, at_general, valid_timezone,
  is_currency, currencies, decimal, replace_comma, decimal_whole, decimal_fraction, is_within,
  tariff_minor, tariff_limit, tariff_from, tariff_fraction, checks, at_logger_port, at_panel_count,
  at_password, integer, is_numeral, is_between, is_octet, split_on, valid_ipv4, valid_logger_serial,
  is_power_allowed, is_positive,
}

abbrev values : OnboardingValues
values = record {
  active_mppt = 1 ∷ [];
  confirm_password = codes "correct horse";
  currency = codes "BRL";
  latitude = codes "0";
  logger_host = codes "192.0.2.1";
  logger_port = codes "8899";
  logger_serial = codes "4294967295";
  longitude = codes "0";
  modbus_slave = codes "1";
  panel_count = codes "7";
  panel_wattage = codes "610";
  password = codes "correct horse";
  retention_days = codes "730";
  tariff = codes "0,95";
  timezone = codes "UTC";
  username = codes "ada";
}

forms_code : Unit {0}
unfolding checks integer is_numeral is_between is_octet split_on valid_ipv4 valid_logger_serial
    validate_logger validate_panels validate_account is_power_allowed is_positive installation
    text_eq
forms_code = tt

location_code : Unit {0}
unfolding forms_code validate_location validate_step valid_timezone valid_currency is_currency
    currencies decimal replace_comma decimal_whole decimal_fraction is_within tariff_minor
    tariff_limit tariff_from tariff_fraction trim drop_end drop_while is_space
location_code = tt

port_test : validate_logger (record values { logger_port = codes "65536" }) ≡ at_logger_port ∷ []
unfolding forms_code
port_test = refl

power_test : validate_panels (record values { panel_count = codes "20" }) ≡ at_panel_count ∷ []
unfolding forms_code
power_test = refl

password_test :
    validate_account ascii
      (record values { password = codes "short"; confirm_password = codes "short" })
    ≡ at_password ∷ []
unfolding forms_code trim drop_end drop_while is_space
password_test = refl

tariff_test : (tariff_minor (codes "0,95") ≡ some 95) × (tariff_minor (codes "12.5") ≡ some 1250)
unfolding location_code
tariff_test = (refl, refl)

refused_test :
    validate_step ascii 3 (record values {
      currency = codes "XYZ";
      tariff = codes "1,234";
      retention_days = codes "29";
    })
    ≡ at_currency ∷ at_tariff ∷ at_retention_days ∷ []
unfolding location_code
refused_test = refl

server_test :
    (server_field_error ascii (codes "logger serial is out of range") (codes "invalid_settings")
      ≡ at_logger_serial)
    × (server_field_error ascii (codes "nope") (codes "invalid_settings") ≡ at_general)
unfolding location_code server_field_error first_mapping mentions contains starts_with
server_test = (refl, refl)
