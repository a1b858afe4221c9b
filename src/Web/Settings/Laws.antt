-- ===== src/Web/Settings/Laws.antt =====
-- settings-model.ts: settings survive the form, and a form without errors gives settings in range.
use helio.Prelude.{
  ℕ, ◌+◌, ◌*◌, ◌/◌, ◌%◌, ◌≤◌, true, false, some, ◌≡◌, refl, ◌∙◌, [], ◌∷◌, arith, All-append,
}
use helio.Js.Text.{Text, trim, is_space}
use helio.Web.Fields.{
  tariff_fraction, Locale, Settings, integer, decimal, tariff_minor, tariff_limit, tariff_from,
  numeral, pad_two, normal_currency, sort_inputs,
}
use helio.Web.Fields.Laws.{
  tariff_from-numeral, tariff_fraction-pad_two, trim-IsSolid, IsSolid, numeral-IsSolid,
  pad_two-IsSolid,
}
use helio.Web.Fields.Checks.{
  checks-none, Figures, ArePassed, IsInRange, HasFigures, ArePassed-settings, tariff_minor-bound,
}
use helio.Web.Settings.{
  SettingsValues, values_to_settings, validate_settings, trimmed_tariff, tariff_text,
}

tariff_text-IsSolid : (n : ℕ) → IsSolid (tariff_text n)
unfolding tariff_text is_space
tariff_text-IsSolid n =
    All-append (λ c. is_space c ≡ false) (numeral (n / 100)) (b',' ∷ pad_two (numeral (n % 100)))
      (numeral-IsSolid (n / 100))
      (refl, pad_two-IsSolid (numeral (n % 100)) (numeral-IsSolid (n % 100)))

tariff_from_comma :
    (whole : ℕ) (s : Text) → tariff_from whole true (b',' ∷ s) ≡ tariff_fraction whole s
unfolding tariff_from
tariff_from_comma whole s = refl

tariff_from-tariff_text :
    (n : ℕ) → tariff_from 0 false (tariff_text n) ≡ some (n / 100 * 100 + n % 100)
unfolding tariff_text
tariff_from-tariff_text n =
    let cents = pad_two (numeral (n % 100)) in
    tariff_from-numeral (n / 100) (b',' ∷ cents)
    ∙ (tariff_from_comma (n / 100) cents
        ∙ tariff_fraction-pad_two (n / 100) (n % 100) (omega arith))

tariff_minor-text : (n : ℕ) → n ≤ 1000000000 → tariff_minor (tariff_text n) ≡ some n
unfolding tariff_minor tariff_limit
tariff_minor-text n h = rw (tariff_from-tariff_text n) (ground arith)

-- The tariff that the form shows is read back, to the hundredth.
pub trimmed_tariff-tariff_text : (n : ℕ) → n ≤ 1000000000 → trimmed_tariff (tariff_text n) ≡ some n
unfolding trimmed_tariff
trimmed_tariff-tariff_text n h =
    rw (trim-IsSolid (tariff_text n) (tariff_text-IsSolid n)) (tariff_minor-text n h)

trimmed_tariff-bound : (s : Text) (n : ℕ) → trimmed_tariff s ≡ some n → n ≤ 1000000000
unfolding trimmed_tariff
trimmed_tariff-bound s n e = tariff_minor-bound (trim s) n e

abbrev pub figures : Locale → SettingsValues → Figures
figures l v = record {
  latitude = decimal l v.latitude;
  longitude = decimal l v.longitude;
  port = integer v.logger_port;
  slave = integer v.modbus_slave;
  count = integer v.panel_count;
  watts = integer v.panel_wattage;
  retention = integer v.retention_days;
  tariff = trimmed_tariff v.tariff;
}

figures-ArePassed :
    (l : Locale) (v : SettingsValues) → validate_settings l v ≡ [] → ArePassed (figures l v)
unfolding validate_settings
figures-ArePassed l v e =
    let (
      count,
      (
        watts,
        (_, (_, (_, (port, (slave, (latitude, (longitude, (_, (_, (tariff, (retention, _))))))))))),
      ),
    ) =
      checks-none _ e in
    record {
      latitude = latitude;
      longitude = longitude;
      port = port;
      slave = slave;
      count = count;
      watts = watts;
      retention = retention;
      tariff = tariff;
    }

values_to_settings-HasFigures :
    (l : Locale) (v : SettingsValues) (s : Settings)
    → HasFigures (figures l v) s
    → ((s.active_mppt ≡ sort_inputs v.active_mppt) × (s.currency ≡ normal_currency l v.currency))
      × ((s.logger_host ≡ trim v.logger_host)
          × ((s.logger_serial ≡ v.logger_serial) × (s.timezone ≡ trim v.timezone)))
    → values_to_settings l v ≡ s
unfolding values_to_settings
values_to_settings-HasFigures l v s f ((m, c), (h, (n, z))) =
    simp
      (
        f.latitude,
        f.port,
        f.longitude,
        f.slave,
        f.count,
        f.watts,
        f.retention,
        f.tariff,
        ← m,
        ← c,
        ← h,
        ← n,
        ← z,
      )
      refl

-- What the form sends is in range: where `validateSettings` finds no error, none of the defaults of
-- `valuesToSettings` stands for a text that could not be read, and all figures are in the ranges that
-- the logger, the inverter and the server allow.
pub values_to_settings-IsInRange :
    (l : Locale) (v : SettingsValues)
    → validate_settings l v ≡ []
    → HasFigures (figures l v) (values_to_settings l v) × IsInRange (values_to_settings l v)
values_to_settings-IsInRange l v e =
    let (s, ((f, r), texts)) =
      ArePassed-settings (figures l v) (sort_inputs v.active_mppt) (normal_currency l v.currency)
        (trim v.logger_host) v.logger_serial (trim v.timezone) (figures-ArePassed l v e)
        (trimmed_tariff-bound v.tariff) in
    rw (values_to_settings-HasFigures l v s f texts) (f, r)
