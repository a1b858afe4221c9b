-- ===== src/Web/Tariffs/Laws.antt =====
-- ManualTariffForm.tsx: figures are read as they are written, and only good tariffs are sent.
use helio.Prelude.{
  ℕ, zero, suc, ◌+◌, ◌-◌, ◌*◌, ◌^◌, ◌≤◌, ◌<◌, true, false, Option, none, some, List, [], ◌∷◌, ◌≡◌,
  ◌≢◌, ap, arith, all, length, All, All-append, ◌⊎◌, AllSome, bind-AllSome,
}
use helio.Js.Text.{Text, is_digit, trim}
use helio.Web.Fields.{Locale, decimal_from}
use helio.Web.Tariffs.{
  fraction, scaled_from, when_safe, micros, minor, Values, Tariff, given, read_availability,
  tariff_of, Form, post, Event, sets, submits, creates, fails, handle, run,
}

-- Digits behind a separator, and the places that they leave.
pub fraction-digits :
    (places n : ℕ) (s : Text)
    → all is_digit s ≡ true
    → length s ≤ places
    → fraction places n s ≡ some (decimal_from n s * 10 ^ (places - length s))
unfolding fraction
fraction-digits places n [] d h = ap (λ p. some (n * 10 ^ p)) (omega arith)
fraction-digits zero n (c ∷ s) d h = absurd (omega arith)
fraction-digits (suc places) n (c ∷ s) d h =
    ground (arith, d, fraction-digits places (n * 10 + (c - b'0')) s)

-- The rates are safe integers, the availability is one of three, and the texts are not empty.
pub record IsTariff (t : Tariff) : Type 0 where
  pub named : t.distributor ≢ []
  pub starts : t.effective_from ≢ []
  pub ends : t.effective_to ≢ []
  pub consumption : (t.consumption_te_micros < 2 ^ 53) × (t.consumption_tusd_micros < 2 ^ 53)
  pub compensation : (t.compensation_te_micros < 2 ^ 53) × (t.compensation_tusd_micros < 2 ^ 53)
  pub others : (t.flag_micros < 2 ^ 53) × (t.cip_minor < 2 ^ 53)
  pub available :
      (t.availability_kwh ≡ 30) ⊎ ((t.availability_kwh ≡ 50) ⊎ (t.availability_kwh ≡ 100))

when_safe-bound : (o : Option ℕ) (n : ℕ) → when_safe o ≡ some n → n < 2 ^ 53
unfolding when_safe
when_safe-bound none n e = cc
when_safe-bound (some m) n e = ground (arith, e)

micros-bound : (s : Text) (n : ℕ) → micros s ≡ some n → n < 2 ^ 53
unfolding micros
micros-bound s n e = when_safe-bound (scaled_from 6 0 false (trim s)) n e

minor-bound : (s : Text) (n : ℕ) → minor s ≡ some n → n < 2 ^ 53
unfolding minor
minor-bound s n e = when_safe-bound (scaled_from 2 0 false (trim s)) n e

given-nonempty : (s t : Text) → given s ≡ some t → t ≢ []
unfolding given
given-nonempty [] t e = cc
given-nonempty (c ∷ s) t e = λ k. cc

read_availability-available :
    (l : Locale) (s : Text) (n : ℕ)
    → read_availability l s ≡ some n
    → (n ≡ 30) ⊎ ((n ≡ 50) ⊎ (n ≡ 100))
unfolding read_availability
read_availability-available l s n e = ground (arith, e)

tariff_of-IsTariff : (l : Locale) (v : Values) → AllSome IsTariff (tariff_of l v)
unfolding tariff_of
tariff_of-IsTariff l v = bind-AllSome IsTariff (given (trim v.distributor)) _ λ a ea.
    bind-AllSome IsTariff (given v.effective_from) _ λ b eb.
      bind-AllSome IsTariff (given v.effective_to) _ λ c ec.
        bind-AllSome IsTariff (micros v.consumption_te) _ λ d ed.
          bind-AllSome IsTariff (micros v.consumption_tusd) _ λ e ee.
            bind-AllSome IsTariff (micros v.compensation_te) _ λ f ef.
              bind-AllSome IsTariff (micros v.compensation_tusd) _ λ g eg.
                bind-AllSome IsTariff (micros v.flag) _ λ i ei.
                  bind-AllSome IsTariff (minor v.cip) _ λ j ej.
                    bind-AllSome IsTariff (read_availability l v.availability) _ λ k ek. record {
                      named = given-nonempty (trim v.distributor) a ea;
                      starts = given-nonempty v.effective_from b eb;
                      ends = given-nonempty v.effective_to c ec;
                      consumption = (
                        micros-bound v.consumption_te d ed,
                        micros-bound v.consumption_tusd e ee,
                      );
                      compensation = (
                        micros-bound v.compensation_te f ef,
                        micros-bound v.compensation_tusd g eg,
                      );
                      others = (micros-bound v.flag i ei, minor-bound v.cip j ej);
                      available = read_availability-available l v.availability k ek;
                    }

post-AllTariffs :
    (o : Option Tariff) (f : Form)
    → AllSome IsTariff o
    → All IsTariff f.sent
    → All IsTariff (post o f).sent
unfolding post
post-AllTariffs none f v w = w
post-AllTariffs (some t) f v w = All-append IsTariff f.sent (t ∷ []) w (v, tt)

-- Whatever is typed and however the saves end, every tariff that the form sends has a distributor and
-- dates, rates that are safe integers, and one of the three availabilities.
pub run-AllTariffs :
    (l : Locale) (events : List Event) (f : Form)
    → All IsTariff f.sent
    → All IsTariff (run l events f).sent
unfolding run handle
run-AllTariffs l [] f w = w
run-AllTariffs l (sets key t ∷ events) f w = run-AllTariffs l events (handle l (sets key t) f) w
run-AllTariffs l (submits ∷ events) f w =
    run-AllTariffs l events (handle l submits f)
      (post-AllTariffs (tariff_of l f.values) f (tariff_of-IsTariff l f.values) w)
run-AllTariffs l (creates ∷ events) f w = run-AllTariffs l events (handle l creates f) w
run-AllTariffs l (fails ∷ events) f w = run-AllTariffs l events (handle l fails f) w
