-- ===== src/Web/Fields/Toy.antt =====
-- A locale for tests: of ASCII texts, where every decimal is 0.
use helio.Prelude.{true, length}
use helio.Js.Text.{codes}
use helio.Js.Number.{whole}
use helio.Web.Fields.{Locale}

abbrev pub ascii : Locale
ascii = record {
  characters = length;
  bytes = length;
  to_upper = λ t. t;
  to_lower = λ t. t;
  number_of = λ t. whole 0;
  number_text = λ x. codes "0";
  is_time_zone = λ t. true;
  device_time_zone = codes "UTC";
}
