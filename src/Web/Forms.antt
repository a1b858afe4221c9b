-- ===== src/Web/Forms.antt =====
-- web/src/features/onboarding/schema.ts: the fields of the set-up form, their validation by steps,
-- and their conversion to the payload.
pub mod Laws
pub mod Tests
use helio.Prelude.{
  ℕ, ◌+◌, ◌*◌, ◌-◌, ◌^◌, Bool, true, false, not, ◌&&◌, ◌||◌, ◌==◌, Option, none, some, List, [],
  ◌∷◌, ◌++◌, if◌then◌else◌, leb, length, all, is_some, ◌>>=◌,
}
use helio.Js.Text.{Text, codes, text_eq, trim, in_range}
use helio.Js.Number.{Number}
use helio.Web.Browser.{contains}
use helio.Web.Fields.{
  Locale, Settings, Field, checks, at_username, at_password, at_confirm_password, at_logger_host,
  at_logger_serial, at_logger_port, at_modbus_slave, at_panel_count, at_panel_wattage,
  at_active_mppt, at_latitude, at_longitude, at_timezone, at_currency, at_tariff, at_retention_days,
  at_general, integer, is_between, is_positive, is_power_allowed, valid_ipv4, valid_logger_serial,
  decimal, is_within, tariff_minor, valid_timezone, normal_currency, is_currency, sort_inputs,
}

pub record OnboardingValues : Type 0 where
  pub active_mppt : List ℕ
  pub confirm_password : Text
  pub currency : Text
  pub latitude : Text
  pub logger_host : Text
  pub logger_port : Text
  pub logger_serial : Text
  pub longitude : Text
  pub modbus_slave : Text
  pub panel_count : Text
  pub panel_wattage : Text
  pub password : Text
  pub retention_days : Text
  pub tariff : Text
  pub timezone : Text
  pub username : Text

-- `validateStep(1, values)`
unfoldable pub validate_logger : OnboardingValues → List Field
validate_logger v = checks (
    (valid_ipv4 v.logger_host, at_logger_host)
    ∷ (valid_logger_serial v.logger_serial, at_logger_serial)
    ∷ (is_between 1 65535 (integer v.logger_port), at_logger_port)
    ∷ (is_between 1 247 (integer v.modbus_slave), at_modbus_slave)
    ∷ [])

-- `validateStep(2, values)`. The second error of the panels' count takes the place of the first.
unfoldable pub validate_panels : OnboardingValues → List Field
validate_panels v = checks (
    (
      is_positive (integer v.panel_count)
          && is_power_allowed (integer v.panel_count) (integer v.panel_wattage),
      at_panel_count,
    )
    ∷ (is_positive (integer v.panel_wattage), at_panel_wattage)
    ∷ (not (length v.active_mppt == 0), at_active_mppt)
    ∷ [])

-- `validateStep(0, values)`
unfoldable pub validate_account : Locale → OnboardingValues → List Field
validate_account l v = checks (
    (not (length (trim v.username) == 0), at_username)
    ∷ (leb 12 (l.characters v.password) && leb (l.bytes v.password) 128, at_password)
    ∷ (text_eq v.password v.confirm_password, at_confirm_password)
    ∷ [])

-- `validCurrency(value)`
unfoldable pub valid_currency : Locale → Text → Bool
valid_currency l s =
    let normalized = normal_currency l s in
    ((length normalized == 3) && all (in_range b'A' b'Z') normalized) && is_currency normalized

-- `validateStep(3, values)`
unfoldable pub validate_location : Locale → OnboardingValues → List Field
validate_location l v = checks (
    (is_within 90 (decimal l v.latitude), at_latitude)
    ∷ (is_within 180 (decimal l v.longitude), at_longitude)
    ∷ (valid_timezone l v.timezone, at_timezone)
    ∷ (valid_currency l v.currency, at_currency)
    ∷ (is_some (tariff_minor v.tariff), at_tariff)
    ∷ (is_between 30 3650 (integer v.retention_days), at_retention_days)
    ∷ [])

-- `validateStep(step, values)`: the fields with an error, in the order in which they are set.
unfoldable pub validate_step : Locale → ℕ → OnboardingValues → List Field
validate_step l step v =
    if step == 0
    then validate_account l v
    else if step == 1
    then validate_logger v
    else if step == 2
    then validate_panels v
    else if step == 3
    then validate_location l v
    else []

-- The fields of the payload that these steps check, as `toBootstrapPayload` converts them: `none`
-- where `requiredInteger` throws.
pub record Installation : Type 0 where
  pub host : Text
  pub port : ℕ
  pub slave : ℕ
  pub count : ℕ
  pub watts : ℕ

unfoldable pub installation : OnboardingValues → Option Installation
installation v = do
  port ← integer v.logger_port
  slave ← integer v.modbus_slave
  count ← integer v.panel_count
  watts ← integer v.panel_wattage
  some (record {
    host = trim v.logger_host;
    port = port;
    slave = slave;
    count = count;
    watts = watts;
  })

-- `BootstrapPayload`
pub record Payload : Type 0 where
  pub username : Text
  pub password : Text
  pub settings : Settings

-- `toBootstrapPayload(values)`; `none` where `requiredInteger`, `requiredDecimal` or
-- `requiredTariffMinor` throws.
unfoldable pub to_bootstrap_payload : Locale → OnboardingValues → Option Payload
to_bootstrap_payload l v = do
  latitude ← decimal l v.latitude
  port ← integer v.logger_port
  longitude ← decimal l v.longitude
  slave ← integer v.modbus_slave
  count ← integer v.panel_count
  watts ← integer v.panel_wattage
  retention ← integer v.retention_days
  tariff ← tariff_minor v.tariff
  some (record {
    username = trim v.username;
    password = v.password;
    settings = record {
      active_mppt = sort_inputs v.active_mppt;
      currency = normal_currency l v.currency;
      latitude = latitude;
      logger_host = trim v.logger_host;
      logger_port = port;
      logger_serial = v.logger_serial;
      longitude = longitude;
      modbus_slave = slave;
      panel_count = count;
      panel_wattage = watts;
      retention_days = retention;
      tariff_minor_per_kwh = tariff;
      timezone = trim v.timezone;
    };
  })

abbrev power_of : Option ℕ → Option ℕ → ℕ
power_of (some count) (some watts) = if leb (count * watts) (2 ^ 53 - 1) then count * watts else 0
power_of (some count) none = 0
power_of none watts = 0

-- `installedPower(values)`
unfoldable pub installed_power : OnboardingValues → ℕ
installed_power v = power_of (integer v.panel_count) (integer v.panel_wattage)

-- `initialOnboardingValues`
abbrev pub initial_onboarding_values : Locale → OnboardingValues
initial_onboarding_values l = record {
  active_mppt = 1 ∷ [];
  confirm_password = [];
  currency = codes "BRL";
  latitude = [];
  logger_host = [];
  logger_port = codes "8899";
  logger_serial = [];
  longitude = [];
  modbus_slave = codes "1";
  panel_count = codes "7";
  panel_wattage = codes "610";
  password = [];
  retention_days = codes "730";
  tariff = codes "0,95";
  timezone = l.device_time_zone;
  username = [];
}

-- `mappings`: the words of a message and the field that they are about.
abbrev mappings : List (List Text × Field)
mappings =
    (codes "username" ∷ [], at_username)
    ∷ (codes "logger host" ∷ codes "loggerhost" ∷ [], at_logger_host)
    ∷ (codes "logger serial" ∷ codes "loggerserial" ∷ codes "serial" ∷ [], at_logger_serial)
    ∷ (codes "logger port" ∷ codes "loggerport" ∷ [], at_logger_port)
    ∷ (codes "modbus slave" ∷ codes "modbusslave" ∷ [], at_modbus_slave)
    ∷ (codes "installed power" ∷ codes "panel count" ∷ [], at_panel_count)
    ∷ (codes "panel wattage" ∷ codes "panelwattage" ∷ codes "wattage" ∷ [], at_panel_wattage)
    ∷ (codes "mppt" ∷ [], at_active_mppt)
    ∷ (codes "latitude" ∷ [], at_latitude)
    ∷ (codes "longitude" ∷ [], at_longitude)
    ∷ (codes "timezone" ∷ codes "time zone" ∷ [], at_timezone)
    ∷ (codes "currency" ∷ [], at_currency)
    ∷ (codes "tariff" ∷ [], at_tariff)
    ∷ (codes "retention" ∷ [], at_retention_days)
    ∷ []

-- `pattern.test(message)`
unfoldable pub mentions : Text → List Text → Bool
mentions message [] = false
mentions message (word ∷ words) = contains word message || mentions message words

unfoldable pub first_mapping : Text → List (List Text × Field) → Field
unfolding mentions
first_mapping message [] = at_general
first_mapping message ((words, field) ∷ rest) =
    let later = first_mapping message rest in if mentions message words then field else later

-- `serverFieldError(message, code)`, without the text for the visitor.
unfoldable pub server_field_error : Locale → Text → Text → Field
unfolding first_mapping
server_field_error l message code =
    let normalized = l.to_lower message in
    if text_eq code (codes "invalid_request")
    then at_username
    else if text_eq code (codes "invalid_password") || contains (codes "password") normalized
    then at_password
    else first_mapping normalized mappings
