-- ===== src/Web/Editor/Laws.antt =====
-- SettingsPage.tsx: what the editor sends, and when.
use helio.Prelude.{
  Bool, true, false, not, ◌&&◌, ◌||◌, Option, none, some, ◌≡◌, refl, List, [], ◌∷◌, ◌++◌, All,
  All-append, Bool-cases, inl, inr, if◌then◌else◌,
}
use helio.Web.Fields.{Locale, Settings, Field}
use helio.Web.Fields.Checks.{IsInRange, checks-none}
use helio.Web.Settings.{settings_to_values, values_to_settings, validate_settings, same_settings}
use helio.Web.Settings.Laws.{values_to_settings-IsInRange}
use helio.Web.Editor.{
  Phase, idle, updating, refreshing, confirming, Request, confirm_request, update_request, Editor,
  start, dirty, changed_identity, sync, set_field, toggle_mppt, is_empty, next_errors, begin,
  submit_with, submit, Failure, fail_in, confirm_in, save_in, finish_in, load_from, keep_from,
  Event, sets, toggles, types_password, submits, loads_theirs, keeps_edits, confirmed, refreshed,
  saved, fails, refetched, act, handle, run,
}

abbrev pub is_busy : Phase → Bool
is_busy idle = false
is_busy updating = true
is_busy refreshing = true
is_busy (confirming v) = true

-- An update is in range, and a confirmation has a password.
abbrev pub IsProper : Request → Type 0
IsProper (confirm_request password) = is_empty password ≡ false
IsProper (update_request s) = IsInRange s

-- The values that wait for a confirmation have been validated.
abbrev pub IsChecked : Locale → Phase → Type 0
IsChecked l idle = Unit
IsChecked l updating = Unit
IsChecked l refreshing = Unit
IsChecked l (confirming v) = validate_settings l v ≡ []

-- The flag `saving` is set just while a save is under way, and all requests are proper.
pub record IsSound (l : Locale) (e : Editor) : Type 0 where
  pub locked : e.saving ≡ is_busy e.phase
  pub proper : All IsProper e.requests
  pub checked : IsChecked l e.phase

-- A change of what is shown, no request and no phase.
shown-IsSound :
    (l : Locale) (e e' : Editor)
    → IsSound l e
    → (e'.saving ≡ e.saving) × ((e'.phase ≡ e.phase) × (e'.requests ≡ e.requests))
    → IsSound l e'
shown-IsSound l e e' v (a, (b, c)) = record {
  locked = rw (a, b) v.locked;
  proper = rw c v.proper;
  checked = rw b v.checked;
}

sync-IsSound : (l : Locale) (e : Editor) → IsSound l e → IsSound l (sync l e)
unfolding sync
sync-IsSound l e v = elim (Bool-cases (same_settings l e.server e.original)) [
  | inl h ↦ simp h v
  | inr h ↦ elim (Bool-cases (dirty l e || e.saving)) [
    | inl k ↦
        simp (h, k)
          (shown-IsSound l e (record e { conflict = some e.server }) v (refl, (refl, refl)))
    | inr k ↦
        simp (h, k)
          (shown-IsSound l e
            (record e {
              original = e.server;
              values = settings_to_values l e.server;
              conflict = none;
              errors = [];
            })
            v (refl, (refl, refl)))
  ]
]

-- A request goes out, and the editor is busy.
sent-IsSound :
    (l : Locale) (e e' : Editor) (r : Request)
    → IsSound l e
    → IsProper r
    → e'.requests ≡ e.requests ++ r ∷ []
    → (e'.saving ≡ true) × ((is_busy e'.phase ≡ true) × IsChecked l e'.phase)
    → IsSound l e'
sent-IsSound l e e' r v p q (a, (b, c)) = record {
  locked = rw (a, b) refl;
  proper = rw q (All-append IsProper e.requests (r ∷ []) v.proper (p, tt));
  checked = c;
}

append-empty {ℓ} : {A : Type ℓ} (xs ys : List A) → xs ++ ys ≡ [] → (xs ≡ []) × (ys ≡ [])
append-empty [] ys e = (refl, e)
append-empty (x ∷ xs) ys e = cc

-- What a submission without errors has tested.
pub next_errors-none :
    (l : Locale) (e : Editor)
    → next_errors l e ≡ []
    → (validate_settings l e.values ≡ [])
      × (not (changed_identity e && is_empty e.current_password) ≡ true)
unfolding next_errors
next_errors-none l e h =
    let (a, b) = append-empty (validate_settings l e.values) _ h in (a, (checks-none _ b).0)

pub password-given : (c d : Bool) → c ≡ true → not (c && d) ≡ true → d ≡ false
password-given true true e h = cc
password-given true false e h = refl
password-given false d e h = cc

begin-IsSound :
    (l : Locale) (e : Editor) → IsSound l e → next_errors l e ≡ [] → IsSound l (begin l e)
unfolding begin
begin-IsSound l e v h =
    let (a, b) = next_errors-none l e h in
    elim (Bool-cases (changed_identity e)) [
      | inl k ↦ simp k (
          sent-IsSound l e _ (confirm_request e.current_password) v
            (password-given (changed_identity e) (is_empty e.current_password) k b) refl
            (refl, (refl, a)))
      | inr k ↦ simp k (
          sent-IsSound l e _ (update_request (values_to_settings l e.values)) v
            (values_to_settings-IsInRange l e.values a).1 refl (refl, (refl, tt)))
    ]

either-IsSound :
    (l : Locale) (c : Bool) (e e' : Editor)
    → IsSound l e
    → IsSound l e'
    → IsSound l (if c then e else e')
either-IsSound l true e e' v w = v
either-IsSound l false e e' v w = w

submit_with-IsSound :
    (l : Locale) (e : Editor) (found : List Field)
    → IsSound l e
    → next_errors l e ≡ found
    → IsSound l (submit_with l e found)
submit_with-IsSound l e [] v h = begin-IsSound l e v h
submit_with-IsSound l e (f ∷ fs) v h = shown-IsSound l e _ v (refl, (refl, refl))

submit-IsSound : (l : Locale) (e : Editor) → IsSound l e → IsSound l (submit l e)
unfolding submit
submit-IsSound l e v =
    either-IsSound l e.saving e _ v (submit_with-IsSound l e (next_errors l e) v refl)

-- A save ends or goes on in another phase, without a request.
ended-IsSound :
    (l : Locale) (e e' : Editor)
    → IsSound l e
    → e'.requests ≡ e.requests
    → (e'.saving ≡ is_busy e'.phase) × IsChecked l e'.phase
    → IsSound l e'
ended-IsSound l e e' v q (a, b) = record { locked = a; proper = rw q v.proper; checked = b }

confirm_in-IsSound :
    (l : Locale) (e : Editor) (p : Phase) → IsSound l e → e.phase ≡ p → IsSound l (confirm_in l e p)
confirm_in-IsSound l e idle v h = v
confirm_in-IsSound l e updating v h = v
confirm_in-IsSound l e refreshing v h = v
confirm_in-IsSound l e (confirming w) v h =
    sent-IsSound l e _ (update_request (values_to_settings l w)) v
      (values_to_settings-IsInRange l w (rw h at v.checked)).1 refl
      (rw (v.locked, h) refl, (refl, tt))

save_in-IsSound :
    (l : Locale) (s : Settings) (e : Editor) (p : Phase)
    → IsSound l e
    → e.phase ≡ p
    → IsSound l (save_in l s e p)
save_in-IsSound l s e idle v h = v
save_in-IsSound l s e refreshing v h = v
save_in-IsSound l s e (confirming w) v h = v
save_in-IsSound l s e updating v h = ended-IsSound l e _ v refl (rw (v.locked, h) refl, tt)

fail_in-IsSound :
    (l : Locale) (f : Failure) (e : Editor) (p : Phase)
    → IsSound l e
    → e.phase ≡ p
    → IsSound l (fail_in l f e p)
fail_in-IsSound l f e idle v h = v
fail_in-IsSound l f e refreshing v h = v
fail_in-IsSound l f e updating v h = ended-IsSound l e _ v refl (refl, tt)
fail_in-IsSound l f e (confirming w) v h = ended-IsSound l e _ v refl (refl, tt)

finish_in-IsSound :
    (l : Locale) (e : Editor) (p : Phase) → IsSound l e → e.phase ≡ p → IsSound l (finish_in e p)
finish_in-IsSound l e idle v h = v
finish_in-IsSound l e updating v h = v
finish_in-IsSound l e (confirming w) v h = v
finish_in-IsSound l e refreshing v h = ended-IsSound l e _ v refl (refl, tt)

load_from-IsSound :
    (l : Locale) (e : Editor) (o : Option Settings) → IsSound l e → IsSound l (load_from l e o)
load_from-IsSound l e none v = v
load_from-IsSound l e (some s) v = shown-IsSound l e _ v (refl, (refl, refl))

keep_from-IsSound :
    (l : Locale) (e : Editor) (o : Option Settings) → IsSound l e → IsSound l (keep_from e o)
keep_from-IsSound l e none v = v
keep_from-IsSound l e (some s) v = shown-IsSound l e _ v (refl, (refl, refl))

act-IsSound : (l : Locale) (event : Event) (e : Editor) → IsSound l e → IsSound l (act l event e)
unfolding act set_field toggle_mppt
act-IsSound l (sets field t) e v = shown-IsSound l e _ v (refl, (refl, refl))
act-IsSound l (toggles input) e v = shown-IsSound l e _ v (refl, (refl, refl))
act-IsSound l (types_password t) e v = shown-IsSound l e _ v (refl, (refl, refl))
act-IsSound l submits e v = submit-IsSound l e v
act-IsSound l loads_theirs e v =
    either-IsSound l e.saving e _ v (load_from-IsSound l e e.conflict v)
act-IsSound l keeps_edits e v = either-IsSound l e.saving e _ v (keep_from-IsSound l e e.conflict v)
act-IsSound l confirmed e v = confirm_in-IsSound l e e.phase v refl
act-IsSound l refreshed e v = finish_in-IsSound l e e.phase v refl
act-IsSound l (saved settings) e v = save_in-IsSound l settings e e.phase v refl
act-IsSound l (fails failure) e v = fail_in-IsSound l failure e e.phase v refl
act-IsSound l (refetched settings) e v = shown-IsSound l e _ v (refl, (refl, refl))

-- Whatever the visitor does, the requests bring and the server changes meanwhile, in any order: the
-- editor sends only settings that its validation has passed, in the ranges that the logger, the
-- inverter and the server allow, also where fields change while the password is confirmed; it asks
-- for no confirmation without a password; and it counts as saving just while a save is under way, so
-- that its buttons come back after every failure.
pub run-IsSound :
    (l : Locale) (events : List Event) (e : Editor) → IsSound l e → IsSound l (run l events e)
unfolding run handle
run-IsSound l [] e v = v
run-IsSound l (event ∷ events) e v =
    run-IsSound l events (handle l event e)
      (sync-IsSound l (act l event e) (act-IsSound l event e v))

pub start-IsSound : (l : Locale) (s : Settings) → IsSound l (start l s)
start-IsSound l s = record { locked = refl; proper = tt; checked = tt }
