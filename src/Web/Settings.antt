-- ===== src/Web/Settings.antt =====
-- web/src/features/settings/settings-model.ts: the values of the settings form, their validation,
-- and their conversion from and to settings.
pub mod Laws
pub mod Canonical
pub mod Tests
use helio.Prelude.{
  ℕ, ◌+◌, ◌*◌, ◌-◌, ◌/◌, ◌%◌, ◌^◌, Bool, true, false, not, ◌&&◌, ◌||◌, ◌==◌, Option, none, some,
  List, [], ◌∷◌, ◌++◌, if◌then◌else◌, leb, ltb, length, is_some, or_else,
}
use helio.Js.Text.{Text, codes, text_eq, trim}
use helio.Js.Number.{Number, whole}
use helio.Web.Fields.{
  Locale, Settings, Field, checks, at_username, at_password, at_confirm_password, at_logger_host,
  at_logger_serial, at_logger_port, at_modbus_slave, at_panel_count, at_panel_wattage,
  at_active_mppt, at_latitude, at_longitude, at_timezone, at_currency, at_tariff, at_retention_days,
  at_current_password, at_general, integer, is_between, is_positive, is_power_allowed, valid_ipv4,
  valid_logger_serial, decimal, is_within, tariff_minor, valid_timezone, normal_currency,
  is_currency, sort_inputs, numeral, pad_two,
}
use helio.Web.Forms.{server_field_error}

pub record SettingsValues : Type 0 where
  pub active_mppt : List ℕ
  pub currency : Text
  pub latitude : Text
  pub logger_host : Text
  pub logger_port : Text
  pub logger_serial : Text
  pub longitude : Text
  pub modbus_slave : Text
  pub panel_count : Text
  pub panel_wattage : Text
  pub retention_days : Text
  pub tariff : Text
  pub timezone : Text

-- `tariffMinor(value)` of settings-model.ts, which trims.
unfoldable pub trimmed_tariff : Text → Option ℕ
trimmed_tariff s = tariff_minor (trim s)

-- `${tariffMajor},${tariffFraction}`
unfoldable pub tariff_text : ℕ → Text
tariff_text minor = numeral (minor / 100) ++ b',' ∷ pad_two (numeral (minor % 100))

-- `settingsToValues(settings)`
unfoldable pub settings_to_values : Locale → Settings → SettingsValues
settings_to_values l s = record {
  active_mppt = s.active_mppt;
  currency = s.currency;
  latitude = l.number_text s.latitude;
  logger_host = s.logger_host;
  logger_port = numeral s.logger_port;
  logger_serial = s.logger_serial;
  longitude = l.number_text s.longitude;
  modbus_slave = numeral s.modbus_slave;
  panel_count = numeral s.panel_count;
  panel_wattage = numeral s.panel_wattage;
  retention_days = numeral s.retention_days;
  tariff = tariff_text s.tariff_minor_per_kwh;
  timezone = s.timezone;
}

-- `validateSettings(values)`: the fields with an error, in the order in which they are set.
unfoldable pub validate_settings : Locale → SettingsValues → List Field
validate_settings l v =
    let count = integer v.panel_count in
    let wattage = integer v.panel_wattage in
    checks (
      (is_positive count && is_power_allowed count wattage, at_panel_count)
      ∷ (is_positive wattage, at_panel_wattage)
      ∷ (not (length v.active_mppt == 0), at_active_mppt)
      ∷ (valid_ipv4 v.logger_host, at_logger_host)
      ∷ (valid_logger_serial v.logger_serial, at_logger_serial)
      ∷ (is_between 1 65535 (integer v.logger_port), at_logger_port)
      ∷ (is_between 1 247 (integer v.modbus_slave), at_modbus_slave)
      ∷ (is_within 90 (decimal l v.latitude), at_latitude)
      ∷ (is_within 180 (decimal l v.longitude), at_longitude)
      ∷ (valid_timezone l v.timezone, at_timezone)
      ∷ (is_currency (normal_currency l v.currency), at_currency)
      ∷ (is_some (trimmed_tariff v.tariff), at_tariff)
      ∷ (is_between 30 3650 (integer v.retention_days), at_retention_days)
      ∷ [])

-- `valuesToSettings(values)`
unfoldable pub values_to_settings : Locale → SettingsValues → Settings
values_to_settings l v = record {
  active_mppt = sort_inputs v.active_mppt;
  currency = normal_currency l v.currency;
  latitude = or_else (decimal l v.latitude) (whole 0);
  logger_host = trim v.logger_host;
  logger_port = or_else (integer v.logger_port) 0;
  logger_serial = v.logger_serial;
  longitude = or_else (decimal l v.longitude) (whole 0);
  modbus_slave = or_else (integer v.modbus_slave) 0;
  panel_count = or_else (integer v.panel_count) 0;
  panel_wattage = or_else (integer v.panel_wattage) 0;
  retention_days = or_else (integer v.retention_days) 0;
  tariff_minor_per_kwh = or_else (trimmed_tariff v.tariff) 0;
  timezone = trim v.timezone;
}

abbrev power_of : Option ℕ → Option ℕ → ℕ
power_of (some count) (some wattage) =
    if leb (count * wattage) (2 ^ 53 - 1) then count * wattage else 0
power_of (some count) none = 0
power_of none wattage = 0

-- `derivedInstalledPower(values)`
unfoldable pub derived_installed_power : SettingsValues → ℕ
derived_installed_power v = power_of (integer v.panel_count) (integer v.panel_wattage)

-- `integer(value) !== number`
abbrev pub differs : Option ℕ → ℕ → Bool
differs none n = true
differs (some m) n = not (m == n)

-- `loggerIdentityChanged(values, original)`
unfoldable pub logger_identity_changed : SettingsValues → Settings → Bool
logger_identity_changed v original =
    not (text_eq (trim v.logger_host) original.logger_host)
    || (not (text_eq v.logger_serial original.logger_serial)
        || (differs (integer v.logger_port) original.logger_port
            || differs (integer v.modbus_slave) original.modbus_slave))

-- Equality of lists of numbers.
unfoldable pub same_inputs : List ℕ → List ℕ → Bool
same_inputs [] [] = true
same_inputs (x ∷ xs) (y ∷ ys) = (x == y) && same_inputs xs ys
same_inputs _ _ = false

-- `sameSettingsValues(left, right)`: the JSON texts of the values are equal exactly when all of them
-- are, their keys being in one order.
unfoldable pub same_settings_values : SettingsValues → SettingsValues → Bool
same_settings_values a b =
    same_inputs a.active_mppt b.active_mppt
    && (text_eq a.currency b.currency
        && (text_eq a.latitude b.latitude
            && (text_eq a.logger_host b.logger_host
                && (text_eq a.logger_port b.logger_port
                    && (text_eq a.logger_serial b.logger_serial
                        && (text_eq a.longitude b.longitude
                            && (text_eq a.modbus_slave b.modbus_slave
                                && (text_eq a.panel_count b.panel_count
                                    && (text_eq a.panel_wattage b.panel_wattage
                                        && (text_eq a.retention_days b.retention_days
                                            && (text_eq a.tariff b.tariff
                                                && text_eq a.timezone b.timezone)))))))))))

-- `sameSettings(left, right)`
unfoldable pub same_settings : Locale → Settings → Settings → Bool
same_settings l a b = same_settings_values (settings_to_values l a) (settings_to_values l b)

-- The fields of `serverFieldError` that the settings form has.
abbrev pub own_field : Field → Field
own_field at_username = at_general
own_field at_password = at_general
own_field at_confirm_password = at_general
own_field at_logger_host = at_logger_host
own_field at_logger_serial = at_logger_serial
own_field at_logger_port = at_logger_port
own_field at_modbus_slave = at_modbus_slave
own_field at_panel_count = at_panel_count
own_field at_panel_wattage = at_panel_wattage
own_field at_active_mppt = at_active_mppt
own_field at_latitude = at_latitude
own_field at_longitude = at_longitude
own_field at_timezone = at_timezone
own_field at_currency = at_currency
own_field at_tariff = at_tariff
own_field at_retention_days = at_retention_days
own_field at_current_password = at_current_password
own_field at_general = at_general

-- `settingsServerError(message, code)`
unfoldable pub settings_server_error : Locale → Text → Text → Field
settings_server_error l message code = own_field (server_field_error l message code)
