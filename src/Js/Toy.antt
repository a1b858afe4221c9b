-- ===== src/Js/Toy.antt =====
-- A host for tests: a date is a decimal numeral, the JSON text of a value is that of its
-- `observedAt`, and the code of a message is the message behind the secret.
use helio.Prelude.{
  if◌then◌else◌, ℤ, ℕ, ◌+◌, ◌-◌, ◌*◌, Option, none, some, [], ◌∷◌, ◌++◌, or_else, pos, all,
}
use helio.Js.Text.{Text, codes, is_digit}
use helio.Js.Number.{nan}
use helio.Js.Json.{Json, get_field, as_string}
use helio.Js.Host.{Host}

abbrev pub decimal_from : ℕ → Text → ℕ
decimal_from n [] = n
decimal_from n (c ∷ s) = decimal_from (n * 10 + (c - b'0')) s

abbrev pub toy_date : Text → Option ℤ
toy_date s = if all is_digit s then some (pos (decimal_from 0 s)) else none

abbrev pub toy : Json → Host
toy parsed = record {
  json_parse = λ s. some parsed;
  json_stringify = λ v. or_else (as_string (get_field (codes "observedAt") v)) [];
  date_parse = toy_date;
  to_iso = λ t. codes "0";
  to_text = λ v. [];
  to_number = λ v. nan;
  utf8_decode = λ b. b;
  hmac_hex = λ secret message. secret ++ message;
  number_text = λ x. codes "n";
  divide_1000 = λ x. x;
  format_number = λ least most x. codes "f";
  format_clock = λ zone t. codes "12:00";
}
