-- ===== src/Web/Tariffs/Tests.antt =====
-- A run of the form, and examples of its theorems.
use helio.Prelude.{◌≡◌, ◌++◌, refl, List, [], ◌∷◌, some, All, map, arith}
use helio.Js.Text.{codes, text_eq, trim, drop_end, drop_while, is_space}
use helio.Js.Number.{whole}
use helio.Web.Fields.{Locale, numeral, digits_from}
use helio.Web.Fields.Toy.{ascii}
use helio.Web.Tariffs.{
  fraction, fraction_of, scaled_from, when_safe, micros, minor, initial, with_value,
  read_availability, given, tariff_of, post, start, Event, of_effective_from, of_effective_to,
  of_consumption_te, of_consumption_tusd, of_compensation_te, of_compensation_tusd, of_flag, of_cip,
  not_created, sets, submits, creates, fails, handle, run,
}
use helio.Web.Tariffs.Laws.{IsTariff, run-AllTariffs}
use helio.Web.Tariffs.Figures.{micros-numeral}

-- A locale that reads every text as 100.
abbrev hundred : Locale
hundred = record ascii { number_of = λ t. whole 100 }

tariffs_code : Unit {0}
unfolding text_eq trim drop_end drop_while is_space fraction fraction_of scaled_from when_safe
    micros minor initial with_value read_availability given tariff_of post start handle run numeral
    digits_from
tariffs_code = tt

abbrev typing : List Event
typing =
    sets of_effective_from (codes "2026-06-24")
    ∷ sets of_effective_to (codes "2027-06-23")
    ∷ sets of_consumption_te (codes "0,389503")
    ∷ sets of_consumption_tusd (codes "0,5")
    ∷ sets of_compensation_te (codes "1")
    ∷ sets of_compensation_tusd (codes "0.3")
    ∷ sets of_flag (codes "0")
    ∷ sets of_cip (codes "25,56")
    ∷ submits
    ∷ []

sent_test : map (λ t. t.consumption_te_micros) (run hundred typing start).sent ≡ 389503 ∷ []
unfolding tariffs_code
sent_test = refl

-- After a save that failed the tariff is sent again and created, and the error of the first save is
-- still shown.
kept_error_test : (run hundred (typing ++ fails ∷ submits ∷ creates ∷ []) start).error ≡ not_created
unfolding tariffs_code
kept_error_test = refl

micros-numeral_example : micros (numeral 12 ++ b',' ∷ codes "05") ≡ some 12050000
micros-numeral_example = micros-numeral 12 b'0' (b'5' ∷ []) refl (omega arith) (omega arith)

nothing_sent : All IsTariff start.sent
unfolding start
nothing_sent = tt

run-AllTariffs_example : All IsTariff (run hundred (typing ++ fails ∷ submits ∷ []) start).sent
run-AllTariffs_example = run-AllTariffs hundred (typing ++ fails ∷ submits ∷ []) start nothing_sent
