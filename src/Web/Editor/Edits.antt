-- ===== src/Web/Editor/Edits.antt =====
-- SettingsPage.tsx: settings that change on the server do not overwrite the visitor's edits.
use helio.Prelude.{
  Bool, true, ◌||◌, some, ◌≡◌, ◌⊎◌, refl, ◌∙◌, List, [], ◌∷◌, map, Bool-cases, inl, inr,
}
use helio.Web.Fields.{Locale, Settings}
use helio.Web.Settings.{same_settings}
use helio.Web.Editor.{Editor, dirty, sync, refetched, act, handle, run}

-- The edits stand, against the same settings as before, and the save under way, if any, goes on; and
-- if the server's settings are others, they are kept for the visitor's choice.
pub record IsKept (l : Locale) (e e' : Editor) : Type 0 where
  pub values : e'.values ≡ e.values
  pub original : e'.original ≡ e.original
  pub saving : e'.saving ≡ e.saving
  pub told : (same_settings l e'.server e'.original ≡ true) ⊎ (e'.conflict ≡ some e'.server)

-- The form has edits, or a save is under way.
unfoldable pub is_edited : Locale → Editor → Bool
is_edited l e = dirty l e || e.saving

refetched-IsKept :
    (l : Locale) (e : Editor) (s : Settings)
    → is_edited l e ≡ true
    → IsKept l e (handle l (refetched s) e)
unfolding handle act sync is_edited dirty
refetched-IsKept l e s h = elim (Bool-cases (same_settings l s e.original)) [
  | inl k ↦ simp k (record { values = refl; original = refl; saving = refl; told = inl k })
  | inr k ↦ simp (k, h) (record { values = refl; original = refl; saving = refl; told = inr refl })
]

IsKept-is_edited : (l : Locale) (e e' : Editor) → IsKept l e e' → is_edited l e' ≡ is_edited l e
unfolding is_edited dirty
IsKept-is_edited l e e' k = simp (k.values, k.original, k.saving) refl

IsKept-trans : (l : Locale) (e f g : Editor) → IsKept l e f → IsKept l f g → IsKept l e g
IsKept-trans l e f g a b = record {
  values = b.values ∙ a.values;
  original = b.original ∙ a.original;
  saving = b.saving ∙ a.saving;
  told = b.told;
}

-- However often the settings change on the server while the form has edits or a save is under way:
-- the edits stand, against the settings that they were made to, and where the server's last settings
-- differ from these, they are the ones that the visitor is asked to choose from.
pub refetches-IsKept :
    (l : Locale) (s : Settings) (later : List Settings) (e : Editor)
    → is_edited l e ≡ true
    → IsKept l e (run l (map refetched (s ∷ later)) e)
unfolding run
refetches-IsKept l s [] e h = refetched-IsKept l e s h
refetches-IsKept l s (t ∷ later) e h =
    let first = refetched-IsKept l e s h in
    IsKept-trans l e (handle l (refetched s) e) _ first
      (refetches-IsKept l t later (handle l (refetched s) e) (IsKept-is_edited l e _ first ∙ h))
