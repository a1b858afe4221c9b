-- ===== src/Web/Theme/Laws.antt =====
-- theme.tsx: what is shown, and what the next visit shows.
use helio.Prelude.{arith, Bool, false, some, List, [], ◌∷◌, ◌≡◌, refl, ap, ◌∙◌, sym}
use helio.Js.Text.{text_eq}
use helio.Web.Theme.{
  ThemeChoice, system, light, dark, Storage, choice_text, read_choice, stored_theme, resolve,
  Themed, mount, store, set_theme, prefer, prefer_while, Event, sets, prefers, run,
}

-- What is shown is the choice, or the system's theme where that is the choice, and the storage, where
-- it can be used, gives the choice back.
pub record IsShown (p : Themed) : Type 0 where
  pub shown : p.resolved_theme ≡ resolve p.prefers_dark p.theme
  pub drawn : p.root_theme ≡ resolve p.prefers_dark p.theme
  pub kept : p.storage.is_blocked ≡ false → stored_theme p.storage ≡ p.theme

pub mount-IsShown : (storage : Storage) (prefers_dark : Bool) → IsShown (mount storage prefers_dark)
unfolding mount
mount-IsShown storage prefers_dark = record { shown = refl; drawn = refl; kept = λ e. refl }

read_choice-choice_text : (theme : ThemeChoice) → read_choice (some (choice_text theme)) ≡ theme
unfolding read_choice choice_text text_eq
read_choice-choice_text system = refl
read_choice-choice_text light = refl
read_choice-choice_text dark = refl

stored_theme-store :
    (theme : ThemeChoice) (s : Storage)
    → s.is_blocked ≡ false
    → stored_theme (store theme s) ≡ theme
unfolding stored_theme store
stored_theme-store theme s e = simp e (read_choice-choice_text theme)

store-is_blocked : (theme : ThemeChoice) (s : Storage) → (store theme s).is_blocked ≡ s.is_blocked
unfolding store
store-is_blocked theme s = ground arith

set_theme-IsShown : (theme : ThemeChoice) (p : Themed) → IsShown (set_theme theme p)
unfolding set_theme
set_theme-IsShown theme p = record {
  shown = refl;
  drawn = refl;
  kept = λ e. stored_theme-store theme p.storage (sym (store-is_blocked theme p.storage) ∙ e);
}

prefer_while-IsShown :
    (theme : ThemeChoice) (prefers_dark : Bool) (p : Themed)
    → p.theme ≡ theme
    → IsShown p
    → IsShown (prefer_while theme prefers_dark p)
prefer_while-IsShown system prefers_dark p e v = record {
  shown = simp e refl;
  drawn = simp e refl;
  kept = v.kept;
}
prefer_while-IsShown light prefers_dark p e v = record {
  shown = v.shown ∙ simp e refl;
  drawn = v.drawn ∙ simp e refl;
  kept = v.kept;
}
prefer_while-IsShown dark prefers_dark p e v = record {
  shown = v.shown ∙ simp e refl;
  drawn = v.drawn ∙ simp e refl;
  kept = v.kept;
}

-- After any choices of the visitor and changes of the system's preference, the theme that is shown is
-- the visitor's choice, or the system's preference where that is the choice.
pub run-IsShown : (events : List Event) (p : Themed) → IsShown p → IsShown (run events p)
unfolding run prefer
run-IsShown [] p v = v
run-IsShown (sets theme ∷ events) p v =
    run-IsShown events (set_theme theme p) (set_theme-IsShown theme p)
run-IsShown (prefers b ∷ events) p v =
    run-IsShown events (prefer b p) (prefer_while-IsShown p.theme b p refl v)

-- A visit after any events shows what the last one showed, where the storage can be used.
pub mount-run :
    (events : List Event) (p : Themed)
    → IsShown p
    → (run events p).storage.is_blocked ≡ false
    → (mount (run events p).storage (run events p).prefers_dark).root_theme
      ≡ (run events p).root_theme
unfolding mount
mount-run events p v e =
    let w = run-IsShown events p v in
    ap (resolve (run events p).prefers_dark) (w.kept e) ∙ sym w.drawn
