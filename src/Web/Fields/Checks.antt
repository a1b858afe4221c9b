-- ===== src/Web/Fields/Checks.antt =====
-- What the validation of the forms ensures of the figures that their texts stand for.
use helio.Prelude.{
  ℕ, ◌*◌, ◌≤◌, Bool, true, false, ◌&&◌, Option, none, some, ◌≡◌, refl, List, [], ◌∷◌, arith, All,
  is_some,
}
use helio.Js.Text.{Text}
use helio.Js.Number.{Number}
use helio.Web.Fields.{
  Settings, Field, checks, is_between, is_power_allowed, is_positive, is_within, tariff_minor,
  tariff_from, tariff_limit,
}

-- A validation without errors has passed all of its tests.
pub checks-none : (tests : List (Bool × Field)) → checks tests ≡ [] → All (λ t. t.0 ≡ true) tests
unfolding checks
checks-none [] e = tt
checks-none ((true, field) ∷ tests) e = (refl, checks-none tests e)
checks-none ((false, field) ∷ tests) e = cc

pub is_between-some :
    (lo hi : ℕ) (o : Option ℕ)
    → is_between lo hi o ≡ true
    → (n : ℕ) × ((o ≡ some n) × ((lo ≤ n) × (n ≤ hi)))
unfolding is_between
is_between-some lo hi none e = cc
is_between-some lo hi (some n) e = (n, (refl, (ground arith, ground arith)))

pub is_positive-some : (o : Option ℕ) → is_positive o ≡ true → (n : ℕ) × ((o ≡ some n) × (1 ≤ n))
unfolding is_positive
is_positive-some none e = cc
is_positive-some (some n) e = (n, (refl, ground arith))

is_within-some :
    (m : ℕ) (o : Option Number)
    → is_within m o ≡ true
    → (x : Number) × ((o ≡ some x) × (is_within m (some x) ≡ true))
unfolding is_within
is_within-some m none e = cc
is_within-some m (some x) e = (x, (refl, e))

is_some-some {ℓ} : {A : Type ℓ} (o : Option A) → is_some o ≡ true → (a : A) × (o ≡ some a)
is_some-some none e = cc
is_some-some (some a) e = (a, refl)

pub power-bound :
    (o o' : Option ℕ) (n m : ℕ)
    → o ≡ some n
    → o' ≡ some m
    → 1 ≤ n
    → 1 ≤ m
    → is_power_allowed o o' ≡ true
    → n * m ≤ 12000
power-bound o o' n m e e' p q h = allowed (rw (e, e') at h)
  where
    allowed : is_power_allowed (some n) (some m) ≡ true → n * m ≤ 12000
    allowed k = unfold is_power_allowed in ground arith

pub and-left : (a b : Bool) → a && b ≡ true → a ≡ true
and-left true b e = refl
and-left false b e = e

pub and-right : (a b : Bool) → a && b ≡ true → b ≡ true
and-right true b e = e
and-right false b e = cc

tariff_limit-bound : (o : Option ℕ) (n : ℕ) → tariff_limit o ≡ some n → n ≤ 1000000000
unfolding tariff_limit
tariff_limit-bound none n e = cc
tariff_limit-bound (some m) n e = ground arith

-- A tariff that is read is at most ten million in whole units.
pub tariff_minor-bound : (s : Text) (n : ℕ) → tariff_minor s ≡ some n → n ≤ 1000000000
unfolding tariff_minor
tariff_minor-bound s n e = tariff_limit-bound (tariff_from 0 false s) n e

-- The figures that the texts of a form stand for.
pub record Figures : Type 0 where
  pub latitude : Option Number
  pub longitude : Option Number
  pub port : Option ℕ
  pub slave : Option ℕ
  pub count : Option ℕ
  pub watts : Option ℕ
  pub retention : Option ℕ
  pub tariff : Option ℕ

-- They have passed the tests of the validation.
pub record ArePassed (f : Figures) : Type 0 where
  pub latitude : is_within 90 f.latitude ≡ true
  pub longitude : is_within 180 f.longitude ≡ true
  pub port : is_between 1 65535 f.port ≡ true
  pub slave : is_between 1 247 f.slave ≡ true
  pub count : is_positive f.count && is_power_allowed f.count f.watts ≡ true
  pub watts : is_positive f.watts ≡ true
  pub retention : is_between 30 3650 f.retention ≡ true
  pub tariff : is_some f.tariff ≡ true

-- Settings in the ranges that the logger, the inverter and the server allow.
pub record IsInRange (s : Settings) : Type 0 where
  pub latitude : is_within 90 (some s.latitude) ≡ true
  pub longitude : is_within 180 (some s.longitude) ≡ true
  pub port : (1 ≤ s.logger_port) × (s.logger_port ≤ 65535)
  pub slave : (1 ≤ s.modbus_slave) × (s.modbus_slave ≤ 247)
  pub panels : (1 ≤ s.panel_count) × (1 ≤ s.panel_wattage)
  pub power : s.panel_count * s.panel_wattage ≤ 12000
  pub retention : (30 ≤ s.retention_days) × (s.retention_days ≤ 3650)
  pub tariff : s.tariff_minor_per_kwh ≤ 1000000000

-- Settings have the figures.
pub record HasFigures (f : Figures) (s : Settings) : Type 0 where
  pub latitude : f.latitude ≡ some s.latitude
  pub longitude : f.longitude ≡ some s.longitude
  pub port : f.port ≡ some s.logger_port
  pub slave : f.slave ≡ some s.modbus_slave
  pub count : f.count ≡ some s.panel_count
  pub watts : f.watts ≡ some s.panel_wattage
  pub retention : f.retention ≡ some s.retention_days
  pub tariff : f.tariff ≡ some s.tariff_minor_per_kwh

-- Figures that have passed are those of settings in range, with any texts beside them.
pub ArePassed-settings :
    (f : Figures) (inputs : List ℕ) (currency host serial zone : Text)
    → ArePassed f
    → ((n : ℕ) → f.tariff ≡ some n → n ≤ 1000000000)
    → (s : Settings) × ((HasFigures f s × IsInRange s)
        × (((s.active_mppt ≡ inputs) × (s.currency ≡ currency))
            × ((s.logger_host ≡ host) × ((s.logger_serial ≡ serial) × (s.timezone ≡ zone)))))
ArePassed-settings f inputs currency host serial zone p bound =
    let (latitude, (a, a1)) = is_within-some 90 f.latitude p.latitude in
    let (longitude, (b, b1)) = is_within-some 180 f.longitude p.longitude in
    let (port, (c, c1)) = is_between-some 1 65535 f.port p.port in
    let (slave, (d, d1)) = is_between-some 1 247 f.slave p.slave in
    let allowed = is_power_allowed f.count f.watts in
    let (count, (g, g1)) =
      is_positive-some f.count (and-left (is_positive f.count) allowed p.count) in
    let (watts, (h, h1)) = is_positive-some f.watts p.watts in
    let (retention, (k, k1)) = is_between-some 30 3650 f.retention p.retention in
    let (tariff, m) = is_some-some f.tariff p.tariff in
    (
      record {
        active_mppt = inputs;
        currency = currency;
        latitude = latitude;
        logger_host = host;
        logger_port = port;
        logger_serial = serial;
        longitude = longitude;
        modbus_slave = slave;
        panel_count = count;
        panel_wattage = watts;
        retention_days = retention;
        tariff_minor_per_kwh = tariff;
        timezone = zone;
      },
      (
        (
          record {
            latitude = a;
            longitude = b;
            port = c;
            slave = d;
            count = g;
            watts = h;
            retention = k;
            tariff = m;
          },
          record {
            latitude = a1;
            longitude = b1;
            port = c1;
            slave = d1;
            panels = (g1, h1);
            power =
                power-bound f.count f.watts count watts g h g1 h1
                  (and-right (is_positive f.count) allowed p.count);
            retention = k1;
            tariff = bound tariff m;
          },
        ),
        ((refl, refl), (refl, (refl, refl))),
      ),
    )
