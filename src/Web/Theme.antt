-- ===== src/Web/Theme.antt =====
-- web/src/app/theme.tsx: the theme that was chosen, the one that is shown, and the browser's storage.
pub mod Laws
pub mod Tests
use helio.Prelude.{Bool, true, false, Option, none, some, List, [], ◌∷◌, if◌then◌else◌}
use helio.Js.Text.{Text, codes, text_eq}

-- `ThemeChoice` and `ResolvedTheme`
pub data ThemeChoice : Type 0 where
  system light dark : ThemeChoice

pub data ResolvedTheme : Type 0 where
  shown_light shown_dark : ResolvedTheme

-- The text of a choice in the storage.
unfoldable pub choice_text : ThemeChoice → Text
choice_text system = codes "system"
choice_text light = codes "light"
choice_text dark = codes "dark"

-- `localStorage`: one item, and whether its use throws.
pub record Storage : Type 0 where
  pub is_blocked : Bool
  pub item : Option Text

-- The test of `storedTheme` on the item that was read.
unfoldable pub read_choice : Option Text → ThemeChoice
unfolding choice_text
read_choice none = system
read_choice (some value) =
    if text_eq value (codes "light")
    then light
    else if text_eq value (codes "dark")
    then dark
    else system

-- `storedTheme()`
unfoldable pub stored_theme : Storage → ThemeChoice
stored_theme storage = if storage.is_blocked then system else read_choice storage.item

-- `systemTheme()`, of whether the dark query matches.
abbrev pub system_theme : Bool → ResolvedTheme
system_theme true = shown_dark
system_theme false = shown_light

-- `theme === 'system' ? systemTheme() : theme`
abbrev pub resolve : Bool → ThemeChoice → ResolvedTheme
resolve prefers_dark system = system_theme prefers_dark
resolve prefers_dark light = shown_light
resolve prefers_dark dark = shown_dark

-- A page: the state of `ThemeProvider`, the data set of the document's root element, and the browser's
-- storage and preference.
pub record Themed : Type 0 where
  pub theme : ThemeChoice
  pub resolved_theme : ResolvedTheme
  pub root_theme : ResolvedTheme
  pub storage : Storage
  pub prefers_dark : Bool

-- The first drawing of a page, with its effects.
unfoldable pub mount : Storage → Bool → Themed
mount storage prefers_dark =
    let theme = stored_theme storage in
    record {
      theme = theme;
      resolved_theme = resolve prefers_dark theme;
      root_theme = resolve prefers_dark theme;
      storage = storage;
      prefers_dark = prefers_dark;
    }

-- `localStorage.setItem(STORAGE_KEY, theme)`; what it throws is caught.
unfoldable pub store : ThemeChoice → Storage → Storage
store theme s = if s.is_blocked then s else record s { item = some (choice_text theme) }

-- `setTheme(theme)`, then the effect that depends on the theme, and the one on what is shown.
unfoldable pub set_theme : ThemeChoice → Themed → Themed
set_theme theme p =
    let shown = resolve p.prefers_dark theme in
    record p {
      theme = theme;
      storage = store theme p.storage;
      resolved_theme = shown;
      root_theme = shown;
    }

-- The preference of the system changes. Only while the choice, the first argument, is the system's
-- theme does the provider listen.
abbrev pub prefer_while : ThemeChoice → Bool → Themed → Themed
prefer_while system prefers_dark p = record p {
  prefers_dark = prefers_dark;
  resolved_theme = system_theme prefers_dark;
  root_theme = system_theme prefers_dark;
}
prefer_while light prefers_dark p = record p { prefers_dark = prefers_dark }
prefer_while dark prefers_dark p = record p { prefers_dark = prefers_dark }

unfoldable pub prefer : Bool → Themed → Themed
prefer prefers_dark p = prefer_while p.theme prefers_dark p

pub data Event : Type 0 where
  sets : ThemeChoice → Event
  prefers : Bool → Event

unfoldable pub run : List Event → Themed → Themed
run [] p = p
run (sets theme ∷ events) p = run events (set_theme theme p)
run (prefers dark_ ∷ events) p = run events (prefer dark_ p)
