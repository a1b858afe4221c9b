-- ===== src/Web/Tariffs.antt =====
-- web/src/features/finance/ManualTariffForm.tsx: the figures of a tariff as they are typed, and the form as
-- a machine.
pub mod Laws
pub mod Figures
pub mod Tests
use helio.Prelude.{
  ℕ, zero, suc, ◌+◌, ◌-◌, ◌*◌, ◌^◌, Bool, true, false, not, ◌&&◌, ◌||◌, ◌==◌, Option, none, some,
  List, [], ◌∷◌, ◌++◌, if◌then◌else◌, leb, ◌>>=◌,
}
use helio.Js.Text.{Text, codes, trim, is_digit}
use helio.Js.Number.{equals}
use helio.Web.Fields.{Locale}

-- The digits behind the separator, of at most `places`, the number before them being `n`, and its value
-- in units of the last place: `padEnd(places, '0')` fills the places that are left.
unfoldable pub fraction : ℕ → ℕ → Text → Option ℕ
fraction places n [] = some (n * 10 ^ places)
fraction zero n (c ∷ s) = none
fraction (suc places) n (c ∷ s) =
    let rest = fraction places (n * 10 + (c - b'0')) s in if is_digit c then rest else none

-- One digit at least follows the separator.
unfoldable pub fraction_of : ℕ → ℕ → Text → Option ℕ
fraction_of places n [] = none
fraction_of places n (c ∷ s) = fraction places n (c ∷ s)

-- `/^(\d+)(?:[.,](\d{1,places}))?$/` with its value; `seen` tells whether there was a digit.
unfoldable pub scaled_from : ℕ → ℕ → Bool → Text → Option ℕ
scaled_from places n seen [] = if seen then some (n * 10 ^ places) else none
scaled_from places n seen (c ∷ s) =
    let rest = scaled_from places (n * 10 + (c - b'0')) true s in
    if is_digit c
    then rest
    else if seen && ((c == b'.') || (c == b','))
    then fraction_of places n s
    else none

-- `parsed <= BigInt(Number.MAX_SAFE_INTEGER)`
unfoldable pub when_safe : Option ℕ → Option ℕ
when_safe none = none
when_safe (some n) = if leb n (2 ^ 53 - 1) then some n else none

-- `micros(value)` and `minor(value)`
unfoldable pub micros : Text → Option ℕ
micros s = when_safe (scaled_from 6 0 false (trim s))

unfoldable pub minor : Text → Option ℕ
minor s = when_safe (scaled_from 2 0 false (trim s))

-- `Values`
pub record Values : Type 0 where
  pub distributor : Text
  pub effective_from : Text
  pub effective_to : Text
  pub consumption_te : Text
  pub consumption_tusd : Text
  pub compensation_te : Text
  pub compensation_tusd : Text
  pub flag : Text
  pub availability : Text
  pub cip : Text

pub data Key : Type 0 where
  of_distributor of_effective_from of_effective_to of_consumption_te of_consumption_tusd : Key
  of_compensation_te of_compensation_tusd of_flag of_availability of_cip : Key

unfoldable pub initial : Values
initial = record {
  distributor = codes "COPEL";
  effective_from = [];
  effective_to = [];
  consumption_te = [];
  consumption_tusd = [];
  compensation_te = [];
  compensation_tusd = [];
  flag = [];
  availability = codes "100";
  cip = [];
}

-- `{ ...values, [key]: value }`
unfoldable pub with_value : Key → Text → Values → Values
with_value of_distributor t v = record v { distributor = t }
with_value of_effective_from t v = record v { effective_from = t }
with_value of_effective_to t v = record v { effective_to = t }
with_value of_consumption_te t v = record v { consumption_te = t }
with_value of_consumption_tusd t v = record v { consumption_tusd = t }
with_value of_compensation_te t v = record v { compensation_te = t }
with_value of_compensation_tusd t v = record v { compensation_tusd = t }
with_value of_flag t v = record v { flag = t }
with_value of_availability t v = record v { availability = t }
with_value of_cip t v = record v { cip = t }

-- `ManualTariffInput`
pub record Tariff : Type 0 where
  pub distributor : Text
  pub effective_from : Text
  pub effective_to : Text
  pub consumption_te_micros : ℕ
  pub consumption_tusd_micros : ℕ
  pub compensation_te_micros : ℕ
  pub compensation_tusd_micros : ℕ
  pub flag_micros : ℕ
  pub availability_kwh : ℕ
  pub cip_minor : ℕ

-- `[30, 50, 100].includes(Number(availability))`, with the number.
unfoldable pub read_availability : Locale → Text → Option ℕ
read_availability l t =
    let n = l.number_of t in
    if equals n 30
    then some 30
    else if equals n 50
    then some 50
    else if equals n 100
    then some 100
    else none

-- A text that is not empty.
unfoldable pub given : Text → Option Text
given [] = none
given (c ∷ s) = some (c ∷ s)

-- The tariff that `submit` sends, where every value is good.
unfoldable pub tariff_of : Locale → Values → Option Tariff
tariff_of l v = do
  distributor ← given (trim v.distributor)
  effective_from ← given v.effective_from
  effective_to ← given v.effective_to
  consumption_te ← micros v.consumption_te
  consumption_tusd ← micros v.consumption_tusd
  compensation_te ← micros v.compensation_te
  compensation_tusd ← micros v.compensation_tusd
  flag ← micros v.flag
  cip ← minor v.cip
  availability ← read_availability l v.availability
  some record {
    distributor = distributor;
    effective_from = effective_from;
    effective_to = effective_to;
    consumption_te_micros = consumption_te;
    consumption_tusd_micros = consumption_tusd;
    compensation_te_micros = compensation_te;
    compensation_tusd_micros = compensation_tusd;
    flag_micros = flag;
    availability_kwh = availability;
    cip_minor = cip;
  }

-- What `error` says.
pub data Message : Type 0 where
  no_message bad_values not_created : Message

pub record Form : Type 0 where
  pub values : Values
  pub error : Message
  pub saving : Bool
  -- the tariffs that were given to `onSave`
  pub sent : List Tariff

unfoldable pub start : Form
start = record { values = initial; error = no_message; saving = false; sent = [] }

-- `submit` up to its `await`. It keeps the error that is shown.
unfoldable pub post : Option Tariff → Form → Form
post none f = record f { error = bad_values }
post (some tariff) f = record f { saving = true; sent = f.sent ++ tariff ∷ [] }

pub data Event : Type 0 where
  sets : Key → Text → Event
  submits : Event
  -- how `onSave` ends
  creates fails : Event

unfoldable pub handle : Locale → Event → Form → Form
handle l (sets key t) f = record f { values = with_value key t f.values; error = no_message }
handle l submits f = post (tariff_of l f.values) f
handle l creates f = record f { values = initial; saving = false }
handle l fails f = record f { error = not_created; saving = false }

unfoldable pub run : Locale → List Event → Form → Form
run l [] f = f
run l (event ∷ events) f = run l events (handle l event f)
