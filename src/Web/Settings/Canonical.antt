-- ===== src/Web/Settings/Canonical.antt =====
-- settings-model.ts: settings of the server are shown without errors and survive the form.
use helio.Prelude.{
  ℕ, ◌*◌, ◌≤◌, Bool, true, false, Option, none, some, ◌≡◌, refl, ◌∙◌, ap, List, [], ◌∷◌, arith, All,
  length,
}
use native.Mathlib.Nat.{mul-le-mul_left, mul-le-mul_right}
use helio.Js.Text.{text_eq_refl, trim}
use helio.Js.Number.{Number, is_finite}
use helio.Web.Fields.{
  Locale, Settings, Field, checks, integer, decimal, numeral, is_between, is_positive,
  is_power_allowed, valid_ipv4, valid_logger_serial, valid_timezone, is_currency, normal_currency,
  sort_inputs,
}
use helio.Web.Fields.Laws.{integer-numeral, trim-IsSolid, IsSolid}
use helio.Web.Fields.Checks.{IsInRange}
use helio.Web.Fields.Shown.{
  Plain, plain_text, IsDigits, decimal-plain_text, IsSorted, sort_inputs-IsSorted, KeepsCapitals,
  normal_currency-same, valid_ipv4-IsSolid,
}
use helio.Web.Settings.{
  settings_to_values, values_to_settings, validate_settings, trimmed_tariff, tariff_text,
  logger_identity_changed, differs,
}
use helio.Web.Settings.Laws.{trimmed_tariff-tariff_text}

-- A finite number that `String` writes as a plain decimal, without an exponent, and that `Number`
-- reads from it.
pub record IsCoordinate (l : Locale) (x : Number) : Type 0 where
  pub shape : Plain
  pub digits : IsDigits shape
  pub shown : l.number_text x ≡ plain_text shape
  pub read : l.number_of (plain_text shape) ≡ x
  pub finite : is_finite x ≡ true

-- Settings as the server sends them: every field satisfies the rule of the form for it, the inputs
-- are in order, and no name of a time zone has white space.
pub record IsServed (l : Locale) (s : Settings) : Type 0 where
  pub range : IsInRange s
  pub some_input : 1 ≤ length s.active_mppt
  pub sorted : IsSorted s.active_mppt
  pub host : valid_ipv4 s.logger_host ≡ true
  pub serial : valid_logger_serial s.logger_serial ≡ true
  pub currency : is_currency s.currency ≡ true
  pub zone : valid_timezone l s.timezone ≡ true
  pub solid : IsSolid s.timezone
  pub latitude : IsCoordinate l s.latitude
  pub longitude : IsCoordinate l s.longitude

decimal-IsCoordinate :
    (l : Locale) (x : Number) → IsCoordinate l x → decimal l (l.number_text x) ≡ some x
decimal-IsCoordinate l x c =
    ap (decimal l) c.shown ∙ decimal-plain_text l c.shape x c.digits c.read c.finite

-- What the parsers read from the texts that the form shows.
record IsRead (l : Locale) (s : Settings) : Type 0 where
  inputs : sort_inputs s.active_mppt ≡ s.active_mppt
  currency : normal_currency l s.currency ≡ s.currency
  latitude : decimal l (l.number_text s.latitude) ≡ some s.latitude
  longitude : decimal l (l.number_text s.longitude) ≡ some s.longitude
  host : trim s.logger_host ≡ s.logger_host
  zone : trim s.timezone ≡ s.timezone
  port : integer (numeral s.logger_port) ≡ some s.logger_port
  slave : integer (numeral s.modbus_slave) ≡ some s.modbus_slave
  count : integer (numeral s.panel_count) ≡ some s.panel_count
  watts : integer (numeral s.panel_wattage) ≡ some s.panel_wattage
  retention : integer (numeral s.retention_days) ≡ some s.retention_days
  tariff : trimmed_tariff (tariff_text s.tariff_minor_per_kwh) ≡ some s.tariff_minor_per_kwh

factors-bound : (n m : ℕ) → 1 ≤ n → 1 ≤ m → n * m ≤ 12000 → (n ≤ 12000) × (m ≤ 12000)
factors-bound n m p q h = (omega (arith, mul-le-mul_left n q), omega (arith, mul-le-mul_right m p))

served-IsRead : (l : Locale) (s : Settings) → KeepsCapitals l → IsServed l s → IsRead l s
served-IsRead l s k v =
    let r = v.range in
    let (few, small) = factors-bound s.panel_count s.panel_wattage r.panels.0 r.panels.1 r.power in
    record {
      inputs = sort_inputs-IsSorted s.active_mppt v.sorted;
      currency = normal_currency-same l s.currency k v.currency;
      latitude = decimal-IsCoordinate l s.latitude v.latitude;
      longitude = decimal-IsCoordinate l s.longitude v.longitude;
      host = trim-IsSolid s.logger_host (valid_ipv4-IsSolid s.logger_host v.host);
      zone = trim-IsSolid s.timezone v.solid;
      port = integer-numeral s.logger_port (omega (arith, r.port));
      slave = integer-numeral s.modbus_slave (omega (arith, r.slave));
      count = integer-numeral s.panel_count (omega (arith, few));
      watts = integer-numeral s.panel_wattage (omega (arith, small));
      retention = integer-numeral s.retention_days (omega (arith, r.retention));
      tariff = trimmed_tariff-tariff_text s.tariff_minor_per_kwh r.tariff;
    }

values_to_settings-settings_to_values :
    (l : Locale) (s : Settings) → IsRead l s → values_to_settings l (settings_to_values l s) ≡ s
unfolding values_to_settings settings_to_values
values_to_settings-settings_to_values l s c =
    simp
      (
        c.inputs, c.currency, c.latitude, c.longitude, c.host, c.zone, c.port, c.slave, c.count,
        c.watts, c.retention, c.tariff,
      )
      refl

differs_same : (o : Option ℕ) (n : ℕ) → o ≡ some n → differs o n ≡ false
differs_same none n e = cc
differs_same (some m) n e = ground arith

logger_identity_changed-settings_to_values :
    (l : Locale) (s : Settings)
    → IsRead l s
    → logger_identity_changed (settings_to_values l s) s ≡ false
unfolding logger_identity_changed settings_to_values
logger_identity_changed-settings_to_values l s c =
    simp
      (
        c.host,
        text_eq_refl s.logger_host,
        text_eq_refl s.logger_serial,
        differs_same (integer (numeral s.logger_port)) s.logger_port c.port,
        differs_same (integer (numeral s.modbus_slave)) s.modbus_slave c.slave,
      )
      refl

checks-all : (tests : List (Bool × Field)) → All (λ t. t.0 ≡ true) tests → checks tests ≡ []
unfolding checks
checks-all [] h = refl
checks-all ((true, field) ∷ tests) (e, h) = checks-all tests h
checks-all ((false, field) ∷ tests) (e, h) = cc

is_between-in :
    (lo hi n : ℕ) (o : Option ℕ) → o ≡ some n → (lo ≤ n) × (n ≤ hi) → is_between lo hi o ≡ true
unfolding is_between
is_between-in lo hi n o e (a, b) = rw e (ground arith)

is_positive-in : (n : ℕ) (o : Option ℕ) → o ≡ some n → 1 ≤ n → is_positive o ≡ true
unfolding is_positive
is_positive-in n o e h = rw e (ground arith)

is_power_allowed-in :
    (n m : ℕ) (o o' : Option ℕ)
    → o ≡ some n
    → o' ≡ some m
    → n * m ≤ 12000
    → is_power_allowed o o' ≡ true
unfolding is_power_allowed
is_power_allowed-in n m o o' e e' h = rw (e, e') (ground arith)

validate_settings-settings_to_values :
    (l : Locale) (s : Settings)
    → IsServed l s
    → IsRead l s
    → validate_settings l (settings_to_values l s) ≡ []
unfolding validate_settings settings_to_values
validate_settings-settings_to_values l s v c =
    let r = v.range in
    checks-all _ (
      rw (is_positive-in s.panel_count _ c.count r.panels.0)
          (is_power_allowed-in s.panel_count s.panel_wattage _ _ c.count c.watts r.power),
      (
        is_positive-in s.panel_wattage _ c.watts r.panels.1,
        (
          ground (arith, v.some_input),
          (
            v.host,
            (
              v.serial,
              (
                is_between-in 1 65535 s.logger_port _ c.port r.port,
                (
                  is_between-in 1 247 s.modbus_slave _ c.slave r.slave,
                  (
                    rw c.latitude r.latitude,
                    (
                      rw c.longitude r.longitude,
                      (
                        v.zone,
                        (
                          rw c.currency v.currency,
                          (
                            rw c.tariff refl,
                            (is_between-in 30 3650 s.retention_days _ c.retention r.retention, tt),
                          ),
                        ),
                      ),
                    ),
                  ),
                ),
              ),
            ),
          ),
        ),
      ),
    )

-- The settings form is faithful to settings that the server sends: the values that it shows of them
-- have no errors, are converted back to the same settings, every figure, text and input included,
-- and do not count as a change of the logger's identity. The server's settings satisfy the rules of
-- the form, and their coordinates are written without an exponent; `toUpperCase` keeps capitals.
pub settings_roundtrip :
    (l : Locale) (s : Settings)
    → KeepsCapitals l
    → IsServed l s
    → (validate_settings l (settings_to_values l s) ≡ [])
      × ((values_to_settings l (settings_to_values l s) ≡ s)
          × (logger_identity_changed (settings_to_values l s) s ≡ false))
settings_roundtrip l s k v =
    let c = served-IsRead l s k v in
    (
      validate_settings-settings_to_values l s v c,
      (
        values_to_settings-settings_to_values l s c,
        logger_identity_changed-settings_to_values l s c,
      ),
    )
