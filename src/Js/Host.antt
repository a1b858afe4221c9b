-- ===== src/Js/Host.antt =====
-- What the program takes from Node.js and the browser and does not implement: JSON text, dates,
-- hashes and the formats of `Intl`. Each is a field, and a theorem that relies on a documented
-- behaviour of one names that behaviour as a hypothesis.
use helio.Prelude.{ℕ, Option, List, ℤ}
use helio.Js.Text.{Text}
use helio.Js.Number.{Number}
use helio.Js.Json.{Json}

abbrev pub Bytes : Type 0
Bytes = List ℕ

pub record Host : Type 0 where
  -- `JSON.parse(text)`; `none` is a SyntaxError
  pub json_parse : Text → Option Json
  -- `JSON.stringify(value)`
  pub json_stringify : Json → Text
  -- `Date.parse(text)`; `none` is NaN
  pub date_parse : Text → Option ℤ
  -- `new Date(time).toISOString()` for a time that `Date.parse` returned
  pub to_iso : ℤ → Text
  -- `String(value)` of a value that is no string
  pub to_text : Json → Text
  -- `Number(value)` of a string, an array or an object
  pub to_number : Json → Number
  -- `buffer.toString('utf8')`
  pub utf8_decode : Bytes → Text
  -- `createHmac('sha256', secret).update(message).digest('hex')`
  pub hmac_hex : Bytes → Bytes → Text
  -- `String(number)`
  pub number_text : Number → Text
  -- `x / 1000` of a number, rounded to a double
  pub divide_1000 : Number → Number
  -- `new Intl.NumberFormat('pt-BR', { minimumFractionDigits, maximumFractionDigits }).format(x)`
  pub format_number : ℕ → ℕ → Number → Text
  -- the hour and minute of a time in a time zone, by `Intl.DateTimeFormat('pt-BR', …)`
  pub format_clock : Text → ℤ → Text
