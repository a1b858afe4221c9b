-- ===== src/Web/Forms/Laws.antt =====
-- schema.ts: a form that passes its steps is converted without an error, into values in range.
use helio.Prelude.{ℕ, ◌*◌, ◌≤◌, true, ◌&&◌, some, ◌≡◌, refl, [], is_some}
use helio.Js.Text.{trim}
use helio.Web.Forms.{
  OnboardingValues, validate_logger, validate_panels, validate_location, valid_currency,
  Installation, installation, Payload, to_bootstrap_payload,
}
use helio.Web.Fields.{
  Locale, Settings, integer, decimal, tariff_minor, is_between, is_within, is_power_allowed,
  is_positive, valid_ipv4, valid_logger_serial, valid_timezone, normal_currency, sort_inputs,
}
use helio.Web.Fields.Checks.{
  checks-none, is_between-some, is_positive-some, power-bound, and-left, and-right, Figures,
  ArePassed, IsInRange, HasFigures, ArePassed-settings, tariff_minor-bound,
}

-- The ranges that the logger and the inverter allow.
pub record IsAllowed (i : Installation) : Type 0 where
  pub port : (1 ≤ i.port) × (i.port ≤ 65535)
  pub slave : (1 ≤ i.slave) × (i.slave ≤ 247)
  pub panels : (1 ≤ i.count) × (1 ≤ i.watts)
  pub power : i.count * i.watts ≤ 12000

installation-some :
    (v : OnboardingValues) (port slave count watts : ℕ)
    → integer v.logger_port ≡ some port
    → integer v.modbus_slave ≡ some slave
    → integer v.panel_count ≡ some count
    → integer v.panel_wattage ≡ some watts
    → installation v
      ≡ some (record {
        host = trim v.logger_host;
        port = port;
        slave = slave;
        count = count;
        watts = watts;
      })
unfolding installation
installation-some v port slave count watts a b c d = simp (a, b, c, d) refl

-- What `validateStep(1, …)` has tested where it finds no error.
record IsLogger (v : OnboardingValues) : Type 0 where
  address : valid_ipv4 v.logger_host ≡ true
  serial : valid_logger_serial v.logger_serial ≡ true
  port : is_between 1 65535 (integer v.logger_port) ≡ true
  slave : is_between 1 247 (integer v.modbus_slave) ≡ true

validate_logger-IsLogger : (v : OnboardingValues) → validate_logger v ≡ [] → IsLogger v
unfolding validate_logger
validate_logger-IsLogger v e =
    let (a, (s, (p, (m, _)))) = checks-none _ e in
    record { address = a; serial = s; port = p; slave = m }

-- What `validateStep(2, …)` has tested where it finds no error.
record ArePanels (v : OnboardingValues) : Type 0 where
  count :
      is_positive (integer v.panel_count)
        && is_power_allowed (integer v.panel_count) (integer v.panel_wattage)
      ≡ true
  watts : is_positive (integer v.panel_wattage) ≡ true

validate_panels-ArePanels : (v : OnboardingValues) → validate_panels v ≡ [] → ArePanels v
unfolding validate_panels
validate_panels-ArePanels v e = let (c, (w, _)) = checks-none _ e in record { count = c; watts = w }

-- What `validateStep(3, …)` has tested where it finds no error.
record IsLocation (l : Locale) (v : OnboardingValues) : Type 0 where
  latitude : is_within 90 (decimal l v.latitude) ≡ true
  longitude : is_within 180 (decimal l v.longitude) ≡ true
  zone : valid_timezone l v.timezone ≡ true
  currency : valid_currency l v.currency ≡ true
  tariff : is_some (tariff_minor v.tariff) ≡ true
  retention : is_between 30 3650 (integer v.retention_days) ≡ true

validate_location-IsLocation :
    (l : Locale) (v : OnboardingValues) → validate_location l v ≡ [] → IsLocation l v
unfolding validate_location
validate_location-IsLocation l v e =
    let (a, (b, (z, (c, (t, (r, _)))))) = checks-none _ e in
    record { latitude = a; longitude = b; zone = z; currency = c; tariff = t; retention = r }

-- A form whose steps for the logger and the panels find no error has its four integers converted:
-- `requiredInteger` throws for none of them, and the port, the slave's address, the two figures of
-- the panels and their power are in the ranges that the logger and the inverter allow.
pub installation_lem :
    (v : OnboardingValues)
    → validate_logger v ≡ []
    → validate_panels v ≡ []
    → (i : Installation) × ((installation v ≡ some i) × IsAllowed i)
installation_lem v e e' =
    let l = validate_logger-IsLogger v e in
    let p = validate_panels-ArePanels v e' in
    let allowed = is_power_allowed (integer v.panel_count) (integer v.panel_wattage) in
    let (port, (a, a1)) = is_between-some 1 65535 (integer v.logger_port) l.port in
    let (slave, (b, b1)) = is_between-some 1 247 (integer v.modbus_slave) l.slave in
    let (count, (c, c1)) =
      is_positive-some (integer v.panel_count)
        (and-left (is_positive (integer v.panel_count)) allowed p.count) in
    let (watts, (d, d1)) = is_positive-some (integer v.panel_wattage) p.watts in
    (
      record {
        host = trim v.logger_host;
        port = port;
        slave = slave;
        count = count;
        watts = watts;
      },
      (
        installation-some v port slave count watts a b c d,
        record {
          port = a1;
          slave = b1;
          panels = (c1, d1);
          power =
              power-bound (integer v.panel_count) (integer v.panel_wattage) count watts c d c1 d1
                (and-right (is_positive (integer v.panel_count)) allowed p.count);
        },
      ),
    )

-- The figures of the form.
abbrev figures : Locale → OnboardingValues → Figures
figures l v = record {
  latitude = decimal l v.latitude;
  longitude = decimal l v.longitude;
  port = integer v.logger_port;
  slave = integer v.modbus_slave;
  count = integer v.panel_count;
  watts = integer v.panel_wattage;
  retention = integer v.retention_days;
  tariff = tariff_minor v.tariff;
}

figures-ArePassed :
    (l : Locale) (v : OnboardingValues)
    → validate_logger v ≡ []
    → validate_panels v ≡ []
    → validate_location l v ≡ []
    → ArePassed (figures l v)
figures-ArePassed l v e1 e2 e3 =
    let a = validate_logger-IsLogger v e1 in
    let b = validate_panels-ArePanels v e2 in
    let c = validate_location-IsLocation l v e3 in
    record {
      latitude = c.latitude;
      longitude = c.longitude;
      port = a.port;
      slave = a.slave;
      count = b.count;
      watts = b.watts;
      retention = c.retention;
      tariff = c.tariff;
    }

-- The payload that stands for settings.
abbrev pub payload_of : OnboardingValues → Settings → Payload
payload_of v s = record { username = trim v.username; password = v.password; settings = s }

to_bootstrap_payload-HasFigures :
    (l : Locale) (v : OnboardingValues) (s : Settings)
    → HasFigures (figures l v) s
    → ((s.active_mppt ≡ sort_inputs v.active_mppt) × (s.currency ≡ normal_currency l v.currency))
      × ((s.logger_host ≡ trim v.logger_host)
          × ((s.logger_serial ≡ v.logger_serial) × (s.timezone ≡ trim v.timezone)))
    → to_bootstrap_payload l v ≡ some (payload_of v s)
unfolding to_bootstrap_payload
to_bootstrap_payload-HasFigures l v s f ((m, c), (h, (n, z))) =
    simp
      (
        f.latitude,
        f.port,
        f.longitude,
        f.slave,
        f.count,
        f.watts,
        f.retention,
        f.tariff,
        ← m,
        ← c,
        ← h,
        ← n,
        ← z,
      )
      refl

pub to_bootstrap_payload_lem :
    (l : Locale) (v : OnboardingValues)
    → validate_logger v ≡ []
    → validate_panels v ≡ []
    → validate_location l v ≡ []
    → (s : Settings) × ((to_bootstrap_payload l v ≡ some (payload_of v s)) × IsInRange s)
to_bootstrap_payload_lem l v e1 e2 e3 =
    let (s, ((f, r), texts)) =
      ArePassed-settings (figures l v) (sort_inputs v.active_mppt) (normal_currency l v.currency)
        (trim v.logger_host) v.logger_serial (trim v.timezone) (figures-ArePassed l v e1 e2 e3)
        (tariff_minor-bound v.tariff) in
    (s, (to_bootstrap_payload-HasFigures l v s f texts, r))
