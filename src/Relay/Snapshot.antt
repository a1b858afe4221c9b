-- ===== src/Relay/Snapshot.antt =====
-- integrations/alexa-relay/src/app.js: `parseSnapshot`, with `finiteBetween` and `validDate`.
pub mod Laws
pub mod Tests
use helio.Prelude.{
  ℕ, zero, suc, ◌*◌, ◌^◌, Bool, true, false, ◌&&◌, ◌||◌, not, Option, none, some, List, [], ◌∷◌,
  leb, ltbℤ, ltb, if◌then◌else◌, length, all, any, ◌==◌, ℤ, pos, ◌+ℤ◌, ◌+◌,
}
use helio.Js.Text.{Text, codes, text_eq, is_digit, in_range}
use helio.Js.Number.{Number, whole, is_finite, at_least, at_most, equals}
use helio.Js.Json.{
  Json, bool, number, string, array, object, null, Fields, end, field, keys, get_field, find_field,
  as_number, as_bool, as_string,
}
use helio.Js.Host.{Host, Bytes}
use helio.Relay.Errors.{Result, ok, throw, request_error}

-- What `parseSnapshot` returns, less its constant version.
pub record Snapshot : Type 0 where
  pub observed_at : Text
  pub ac_power_w : Number
  pub energy_today_wh : Number
  pub status : Text
  pub stale : Bool

-- The returned object, with its keys in the order of the source.
abbrev pub snapshot_json : Snapshot → Json
snapshot_json s = object (
    field (codes "version") (number (whole 1)) (
      field (codes "observedAt") (string s.observed_at) (
        field (codes "acPowerW") (number s.ac_power_w) (
          field (codes "energyTodayWh") (number s.energy_today_wh) (
            field (codes "status") (string s.status) (field (codes "stale") (bool s.stale) end))))))

-- `finiteBetween(value, minimum, maximum)`
abbrev pub finite_between : Number → ℕ → ℕ → Bool
finite_between x lo hi = is_finite x && (at_least x lo && at_most x hi)

-- `[a-zA-Z0-9 _-]`
abbrev pub is_status_char : ℕ → Bool
is_status_char c =
    in_range b'a' b'z' c
    || (in_range b'A' b'Z' c || (is_digit c || (c == 32 || (c == b'_' || c == b'-'))))

-- `/^[a-zA-Z0-9 _-]{1,64}$/`
unfoldable pub status_shape : Text → Bool
status_shape s = leb 1 (length s) && (leb (length s) 64 && all is_status_char s)

-- Consumes one code unit of a pattern.
unfoldable pub eat : (ℕ → Bool) → Option Text → Option Text
eat p none = none
eat p (some []) = none
eat p (some (c ∷ s)) = if p c then some s else none

unfoldable pub digits : ℕ → Option Text → Option Text
unfolding eat
digits zero s = s
digits (suc n) s = digits n (eat is_digit s)

abbrev is_char : ℕ → ℕ → Bool
is_char c d = d == c

-- `(?:\.\d{1,9})?Z$`, the digits counted down from nine.
unfoldable pub fraction : ℕ → Text → Bool
fraction n [] = false
fraction zero (c ∷ s) = (c == b'Z') && (length s == 0)
fraction (suc n) (c ∷ s) = ((c == b'Z') && (length s == 0)) || (is_digit c && fraction n s)

unfoldable pub date_end : Option Text → Bool
unfolding fraction
date_end none = false
date_end (some []) = false
date_end (some (c ∷ [])) = c == b'Z'
date_end (some (c ∷ d ∷ s)) = (c == b'.') && (is_digit d && fraction 8 s)

-- `/^\d{4}-\d{2}-\d{2}T\d{2}:\d{2}:\d{2}(?:\.\d{1,9})?Z$/`
unfoldable pub date_shape : Text → Bool
unfolding digits date_end
date_shape s =
    let day = digits 2 (eat (is_char b'-') (digits 2 (eat (is_char b'-') (digits 4 (some s))))) in
    let time = digits 2 (eat (is_char b':') (digits 2 (eat (is_char b'T') day))) in
    date_end (digits 2 (eat (is_char b':') time))

-- `validDate(value)`, with the time that `Date.parse` gives.
unfoldable pub valid_date : Host → Text → Option ℤ
unfolding date_shape
valid_date h s = if date_shape s then h.date_parse s else none

abbrev pub allowed_keys : List Text
allowed_keys =
    codes "acPowerW"
    ∷ codes "energyTodayWh"
    ∷ codes "observedAt"
    ∷ codes "stale"
    ∷ codes "status"
    ∷ codes "version"
    ∷ []

-- `allowed.includes(key)`
unfoldable pub is_allowed : Text → Bool
is_allowed key = any (text_eq key) allowed_keys

infixl 5 ◌>>=◌ ◌>>◌
abbrev ◌>>=◌ {ℓ κ} : {A : Type ℓ} {B : Type κ} → Option A → (A → Option B) → Option B
none >>= f = none
some a >>= f = f a

abbrev ◌>>◌ {ℓ} : {B : Type ℓ} → Option (Unit {0}) → Option B → Option B
m >> k = m >>= λ _. k

abbrev require : Bool → Option (Unit {0})
require true = some tt
require false = none

-- The object's fields, if all the tests of the source pass; they have one error in common.
unfoldable pub read_fields : Host → ℕ → Fields → Option Snapshot
unfolding is_allowed status_shape valid_date
read_fields h now fs = do
  require (all is_allowed (keys fs))
  version ← as_number (find_field (codes "version") fs)
  require (equals version 1)
  power ← as_number (find_field (codes "acPowerW") fs)
  require (finite_between power 0 1000000)
  energy ← as_number (find_field (codes "energyTodayWh") fs)
  require (finite_between energy 0 100000000)
  stale ← as_bool (find_field (codes "stale") fs)
  status ← as_string (find_field (codes "status") fs)
  require (status_shape status)
  observed ← as_string (find_field (codes "observedAt") fs)
  time ← valid_date h observed
  require (not (ltbℤ (pos (now + 300000)) time))
  some (record {
    observed_at = h.to_iso time;
    ac_power_w = power;
    energy_today_wh = energy;
    status = status;
    stale = stale;
  })

-- Anything but an object is refused.
unfoldable pub read_snapshot : Host → ℕ → Json → Option Snapshot
unfolding read_fields
read_snapshot h now (object fs) = read_fields h now fs
read_snapshot h now null = none
read_snapshot h now (bool b) = none
read_snapshot h now (number x) = none
read_snapshot h now (string s) = none
read_snapshot h now (array vs) = none

or_invalid : Option Snapshot → Result Snapshot
or_invalid none = throw (request_error 422 (codes "invalid_snapshot"))
or_invalid (some s) = ok s

parse_value : Host → ℕ → Option Json → Result Snapshot
unfolding or_invalid
parse_value h now none = throw (request_error 400 (codes "invalid_json"))
parse_value h now (some v) = or_invalid (read_snapshot h now v)

-- `parseSnapshot(raw, currentTime)`
unfoldable pub parse_snapshot : Host → Bytes → ℕ → Result Snapshot
unfolding parse_value
parse_snapshot h raw now = parse_value h now (h.json_parse (h.utf8_decode raw))
