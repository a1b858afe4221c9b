-- ===== src/Web/Theme/Tests.antt =====
-- A visit, and examples of the theorems.
use helio.Prelude.{true, false, ◌≡◌, refl, none, List, [], ◌∷◌}
use helio.Js.Text.{text_eq}
use helio.Web.Theme.{
  system, light, Storage, choice_text, read_choice, stored_theme, mount, store, set_theme, prefer,
  Event, sets, prefers, run, shown_dark,
}

abbrev storage : Storage
storage = record { is_blocked = false; item = none }

abbrev events : List Event
events = sets light ∷ prefers true ∷ sets system ∷ prefers false ∷ prefers true ∷ []

theme_code : Unit {0}
unfolding text_eq choice_text read_choice stored_theme mount store set_theme prefer run
theme_code = tt

shown_test : (run events (mount storage false)).root_theme ≡ shown_dark
unfolding theme_code
shown_test = refl

usable : (run events (mount storage false)).storage.is_blocked ≡ false
unfolding theme_code
usable = refl
