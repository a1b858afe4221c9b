-- ===== src/Web/Fields.antt =====
-- The texts of form fields and the values that they stand for: the parsers of
-- web/src/features/onboarding/schema.ts and web/src/features/settings/settings-model.ts.
pub mod Laws
pub mod Checks
pub mod Shown
pub mod Toy
use mathlib.Core.List.{reverse}
use helio.Prelude.{
  ℕ, zero, suc, ◌+◌, ◌*◌, ◌-◌, ◌/◌, ◌%◌, ◌^◌, Bool, true, false, not, ◌&&◌, ◌||◌, ◌==◌, Option,
  none, some, List, [], ◌∷◌, ◌++◌, if◌then◌else◌, leb, ltb, all, any, length, pos_part, neg_part,
  or_else,
}
use helio.Js.Text.{Text, codes, text_eq, is_digit, trim, in_range}
use helio.Js.Number.{Number, dyadic, infinity, neg_infinity, nan, is_finite}

-- `Settings`, less the figure that only the server computes.
pub record Settings : Type 0 where
  pub active_mppt : List ℕ
  pub currency : Text
  pub latitude : Number
  pub logger_host : Text
  pub logger_port : ℕ
  pub logger_serial : Text
  pub longitude : Number
  pub modbus_slave : ℕ
  pub panel_count : ℕ
  pub panel_wattage : ℕ
  pub retention_days : ℕ
  pub tariff_minor_per_kwh : ℕ
  pub timezone : Text

-- A key of the errors of a form: a field, or the form as a whole. The messages are text for the
-- visitor and left out.
pub data Field : Type 0 where
  at_username at_password at_confirm_password at_logger_host at_logger_serial at_logger_port : Field
  at_modbus_slave at_panel_count at_panel_wattage at_active_mppt at_latitude at_longitude : Field
  at_timezone at_currency at_tariff at_retention_days at_current_password at_general : Field

-- The place of the field, for comparisons.
abbrev pub number_of : Field → ℕ
number_of at_username = 0
number_of at_password = 1
number_of at_confirm_password = 2
number_of at_logger_host = 3
number_of at_logger_serial = 4
number_of at_logger_port = 5
number_of at_modbus_slave = 6
number_of at_panel_count = 7
number_of at_panel_wattage = 8
number_of at_active_mppt = 9
number_of at_latitude = 10
number_of at_longitude = 11
number_of at_timezone = 12
number_of at_currency = 13
number_of at_tariff = 14
number_of at_retention_days = 15
number_of at_current_password = 16
number_of at_general = 17

-- `{ ...errors, [field]: undefined }`
unfoldable pub clear_error : Field → List Field → List Field
clear_error field [] = []
clear_error field (f ∷ fs) =
    let rest = clear_error field fs in if number_of f == number_of field then rest else f ∷ rest

-- The statements `if (!test) errors.field = …` of a validation, each a test with its field: the fields
-- with an error, in the order in which they are set.
unfoldable pub checks : List (Bool × Field) → List Field
checks [] = []
checks ((true, field) ∷ tests) = checks tests
checks ((false, field) ∷ tests) = field ∷ checks tests

-- What the forms take from the browser.
pub record Locale : Type 0 where
  -- `[...text].length` and `new TextEncoder().encode(text).length`
  pub characters : Text → ℕ
  pub bytes : Text → ℕ
  -- `text.toUpperCase()` and `text.toLowerCase()`
  pub to_upper : Text → Text
  pub to_lower : Text → Text
  -- `Number(text)` of a decimal numeral, and `String(number)`
  pub number_of : Text → Number
  pub number_text : Number → Text
  -- whether `new Intl.DateTimeFormat('en-US', { timeZone })` does not throw
  pub is_time_zone : Text → Bool
  -- `Intl.DateTimeFormat().resolvedOptions().timeZone || 'UTC'`
  pub device_time_zone : Text

-- `/^\d+$/`
unfoldable pub is_numeral : Text → Bool
is_numeral s = leb 1 (length s) && all is_digit s

abbrev pub decimal_from : ℕ → Text → ℕ
decimal_from n [] = n
decimal_from n (c ∷ s) = decimal_from (n * 10 + (c - b'0')) s

-- `integer(value)`: a numeral whose value is a safe integer. A larger one is rounded by `Number`, and
-- what it is rounded to is no safe integer either.
unfoldable pub integer : Text → Option ℕ
unfolding is_numeral
integer s = let n = decimal_from 0 s in if is_numeral s && leb n (2 ^ 53 - 1) then some n else none

-- The integer lies between two bounds, with `undefined` refused.
unfoldable pub is_between : ℕ → ℕ → Option ℕ → Bool
is_between lo hi none = false
is_between lo hi (some n) = leb lo n && leb n hi

-- The texts between the separators: `text.split(separator)`.
unfoldable pub split_on : ℕ → Text → Text → List Text
split_on separator part [] = part ∷ []
split_on separator part (c ∷ s) =
    let next = split_on separator [] s in
    let more = split_on separator (part ++ c ∷ []) s in if c == separator then part ∷ next else more

-- `/^(?:0|[1-9]\d{0,2})$/.test(part) && Number(part) <= 255`
unfoldable pub is_octet : Text → Bool
is_octet [] = false
is_octet (c ∷ []) = is_digit c
is_octet (c ∷ d ∷ s) =
    (is_digit c && not (c == b'0'))
    && ((leb (length s) 1 && all is_digit (d ∷ s)) && leb (decimal_from 0 (c ∷ d ∷ s)) 255)

-- `validIPv4(value)`
unfoldable pub valid_ipv4 : Text → Bool
unfolding split_on is_octet
valid_ipv4 s = let parts = split_on b'.' [] s in (length parts == 4) && all is_octet parts

-- `validLoggerSerial(value)`
unfoldable pub valid_logger_serial : Text → Bool
unfolding is_numeral
valid_logger_serial s = is_numeral s && leb (decimal_from 0 s) 4294967295

-- The installed power is at most 12 kW, where both figures are positive.
unfoldable pub is_power_allowed : Option ℕ → Option ℕ → Bool
is_power_allowed (some count) (some watts) =
    not ((ltb 0 count && ltb 0 watts) && ltb 12000 (count * watts))
is_power_allowed (some count) none = true
is_power_allowed none watts = true

unfoldable pub is_positive : Option ℕ → Bool
is_positive none = false
is_positive (some n) = leb 1 n

-- `text.replace(',', '.')`
unfoldable pub replace_comma : Text → Text
replace_comma [] = []
replace_comma (c ∷ s) = let rest = replace_comma s in if c == b',' then b'.' ∷ s else c ∷ rest

-- `[+-]?`
abbrev pub drop_sign : Text → Text
drop_sign [] = []
drop_sign (c ∷ s) = if (c == b'+') || (c == b'-') then s else c ∷ s

-- The rest of `(?:\d+(?:\.\d*)?|\.\d+)$`, behind the point and before it; `seen` tells whether a digit
-- has been read.
unfoldable pub decimal_fraction : Bool → Text → Bool
decimal_fraction seen [] = seen
decimal_fraction seen (c ∷ s) = is_digit c && decimal_fraction true s

unfoldable pub decimal_whole : Bool → Text → Bool
unfolding decimal_fraction
decimal_whole seen [] = seen
decimal_whole seen (c ∷ s) =
    (is_digit c && decimal_whole true s) || ((c == b'.') && decimal_fraction seen s)

-- `decimal(value)`
unfoldable pub decimal : Locale → Text → Option Number
unfolding replace_comma decimal_whole
decimal l s =
    let normalized = replace_comma (trim s) in
    let parsed = l.number_of normalized in
    if decimal_whole false (drop_sign normalized) && is_finite parsed then some parsed else none

-- `!(x < -n || x > n)` of a number that `decimal` returned.
unfoldable pub is_within : ℕ → Option Number → Bool
is_within n none = false
is_within n (some (dyadic m k)) = leb (pos_part m) (n * 2 ^ k) && leb (neg_part m) (n * 2 ^ k)
is_within n (some infinity) = false
is_within n (some neg_infinity) = false
is_within n (some nan) = true

-- `(?:[.,](\d{1,2}))?$` behind the whole part, with `padEnd(2, '0')`.
unfoldable pub tariff_fraction : ℕ → Text → Option ℕ
tariff_fraction whole [] = none
tariff_fraction whole (c ∷ []) = if is_digit c then some (whole * 100 + (c - b'0') * 10) else none
tariff_fraction whole (c ∷ d ∷ []) =
    if is_digit c && is_digit d then some (whole * 100 + ((c - b'0') * 10 + (d - b'0'))) else none
tariff_fraction whole (c ∷ d ∷ e ∷ s) = none

-- `/^(\d+)(?:[.,](\d{1,2}))?$/` with its value in hundredths; `seen` as above.
unfoldable pub tariff_from : ℕ → Bool → Text → Option ℕ
unfolding tariff_fraction
tariff_from whole seen [] = if seen then some (whole * 100) else none
tariff_from whole seen (c ∷ s) =
    let rest = tariff_from (whole * 10 + (c - b'0')) true s in
    if is_digit c
    then rest
    else if seen && ((c == b'.') || (c == b','))
    then tariff_fraction whole s
    else none

-- `minor <= 1_000_000_000n`
unfoldable pub tariff_limit : Option ℕ → Option ℕ
tariff_limit none = none
tariff_limit (some minor) = if leb minor 1000000000 then some minor else none

-- `tariffMinor(value)` of schema.ts
unfoldable pub tariff_minor : Text → Option ℕ
unfolding tariff_from tariff_limit
tariff_minor s = tariff_limit (tariff_from 0 false s)

-- `String(n)` of a whole number: its last digits first, with one round of fuel for each digit; the
-- number itself is more than enough of it.
unfoldable pub digits_from : ℕ → ℕ → Text → Text
digits_from zero n out = out
digits_from (suc fuel) n out = elim (ltb n 10) [
  | true ↦ (b'0' + n) ∷ out
  | false ↦ digits_from fuel (n / 10) ((b'0' + n % 10) ∷ out)
]

unfoldable pub numeral : ℕ → Text
unfolding digits_from
numeral n = digits_from (suc n) n []

-- `text.padStart(2, '0')`
unfoldable pub pad_two : Text → Text
pad_two [] = b'0' ∷ b'0' ∷ []
pad_two (c ∷ []) = b'0' ∷ c ∷ []
pad_two (c ∷ d ∷ s) = c ∷ d ∷ s

-- The default order of `sort`: by the code units of `String(x)`.
unfoldable pub text_leb : Text → Text → Bool
text_leb [] t = true
text_leb (c ∷ s) [] = false
text_leb (c ∷ s) (d ∷ t) = ltb c d || ((c == d) && text_leb s t)

unfoldable pub insert_input : ℕ → List ℕ → List ℕ
insert_input x [] = x ∷ []
insert_input x (y ∷ ys) =
    let rest = insert_input x ys in
    if text_leb (numeral x) (numeral y) then x ∷ y ∷ ys else y ∷ rest

-- `[...inputs].sort()`
unfoldable pub sort_inputs : List ℕ → List ℕ
unfolding insert_input
sort_inputs [] = []
sort_inputs (x ∷ xs) = insert_input x (sort_inputs xs)

-- `inputs.includes(input)`, `inputs.filter((item) => item !== input)`
unfoldable pub includes_input : ℕ → List ℕ → Bool
includes_input input [] = false
includes_input input (x ∷ xs) = (x == input) || includes_input input xs

unfoldable pub without_input : ℕ → List ℕ → List ℕ
without_input input [] = []
without_input input (x ∷ xs) =
    let rest = without_input input xs in if x == input then rest else x ∷ rest

-- `validTimezone(value)`
unfoldable pub valid_timezone : Locale → Text → Bool
valid_timezone l [] = false
valid_timezone l (c ∷ s) = not (text_eq (c ∷ s) (codes "Local")) && l.is_time_zone (c ∷ s)

-- `value.trim().toUpperCase()`
abbrev pub normal_currency : Locale → Text → Text
normal_currency l s = l.to_upper (trim s)

-- `HELIO_ISO_4217`
unfoldable pub currencies : List Text
unfolding split_on
currencies = split_on 32 [] (
    codes
      "AED AFN ALL AMD ANG AOA ARS AUD AWG AZN BAM BBD BDT BGN BHD BIF BMD BND BOB BOV BRL BSD BTN BWP BYN BZD CAD CDF CHE CHF CHW CLF CLP CNY COP COU CRC CUC CUP CVE CZK DJF DKK DOP DZD EGP ERN ETB EUR FJD FKP GBP GEL GHS GIP GMD GNF GTQ GYD HKD HNL HRK HTG HUF IDR ILS INR IQD IRR ISK JMD JOD JPY KES KGS KHR KMF KPW KRW KWD KYD KZT LAK LBP LKR LRD LSL LYD MAD MDL MGA MKD MMK MNT MOP MRU MUR MVR MWK MXN MXV MYR MZN NAD NGN NIO NOK NPR NZD OMR PAB PEN PGK PHP PKR PLN PYG QAR RON RSD RUB RWF SAR SBD SCR SDG SEK SGD SHP SLE SLL SOS SRD SSP STN SVC SYP SZL THB TJS TMT TND TOP TRY TTD TWD TZS UAH UGX USD USN UYI UYU UYW UZS VED VES VND VUV WST XAF XAG XAU XBA XBB XBC XBD XCD XDR XOF XPD XPF XPT XSU XTS XUA XXX YER ZAR ZMW ZWL")

-- `HELIO_ISO_4217_SET.has(code)`
unfoldable pub is_currency : Text → Bool
is_currency code = any (text_eq code) currencies
