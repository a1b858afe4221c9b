-- ===== src/Web/Editor/Approvals.antt =====
-- SettingsPage.tsx: a change of the logger's identity is sent behind a confirmed password only.
use helio.Prelude.{
  Bool, true, false, ◌||◌, Option, none, some, ◌≡◌, ◌⊎◌, inl, inr, refl, List, [], ◌∷◌, ◌++◌,
  Bool-cases, if◌then◌else◌, last?, last?-append,
}
use helio.Js.Text.{Text}
use helio.Web.Fields.{Locale, Settings, Field}
use helio.Web.Settings.{
  SettingsValues, values_to_settings, validate_settings, same_settings, logger_identity_changed,
}
use helio.Web.Editor.{
  Phase, idle, updating, refreshing, confirming, Request, confirm_request, update_request, Editor,
  start, dirty, changed_identity, sync, set_field, toggle_mppt, is_empty, next_errors, begin,
  submit_with, submit, Failure, fail_in, confirm_in, save_in, finish_in, load_from, keep_from,
  Event, sets, toggles, types_password, submits, loads_theirs, keeps_edits, confirmed, refreshed,
  saved, fails, refetched, act, handle, run,
}
use helio.Web.Editor.Laws.{next_errors-none, password-given}

-- What lets settings be sent: the visitor's submit event, where they are the shown values and have the
-- identity of the logger that the original settings have; or the server's confirmation of the
-- password that the last request had, the values being those that this request was made for.
abbrev pub IsApproval : Event → Editor → SettingsValues → Type 0
IsApproval submits e v = (v ≡ e.values) × (logger_identity_changed v e.original ≡ false)
IsApproval confirmed e v =
    (e.phase ≡ confirming v)
    × ((password : Text) × (last? e.requests ≡ some (confirm_request password))
        × (is_empty password ≡ false))
IsApproval (sets field t) e v = ⊥
IsApproval (toggles input) e v = ⊥
IsApproval (types_password t) e v = ⊥
IsApproval loads_theirs e v = ⊥
IsApproval keeps_edits e v = ⊥
IsApproval refreshed e v = ⊥
IsApproval (saved settings) e v = ⊥
IsApproval (fails failure) e v = ⊥
IsApproval (refetched settings) e v = ⊥

-- What an event adds to the requests of an editor: nothing, a confirmation of a password that is not
-- empty, or an update with valid values that are approved.
abbrev pub AddsRequest : Locale → Event → Editor → List Request → Type 0
AddsRequest l event e requests =
    (requests ≡ e.requests)
    ⊎ (((password : Text) × (requests ≡ e.requests ++ confirm_request password ∷ [])
          × (is_empty password ≡ false))
        ⊎ ((v : SettingsValues) × (requests
              ≡ e.requests ++ update_request (values_to_settings l v) ∷ [])
            × (validate_settings l v ≡ [])
            × IsApproval event e v))

-- While the editor waits for a confirmation, its last request asks for it, and the values that wait
-- are valid.
abbrev pub IsAsked : Locale → Phase → List Request → Type 0
IsAsked l idle requests = Unit
IsAsked l updating requests = Unit
IsAsked l refreshing requests = Unit
IsAsked l (confirming v) requests =
    (validate_settings l v ≡ [])
    × ((password : Text) × (last? requests ≡ some (confirm_request password))
        × (is_empty password ≡ false))

abbrev Waits : Locale → Editor → Type 0
Waits l e = IsAsked l e.phase e.requests

-- Synchronisation with the server keeps the phase and the requests.
sync-phase :
    (l : Locale) (e : Editor) → ((sync l e).phase ≡ e.phase) × ((sync l e).requests ≡ e.requests)
unfolding sync
sync-phase l e = elim (Bool-cases (same_settings l e.server e.original)) [
  | inl h ↦ simp h (refl, refl)
  | inr h ↦ elim (Bool-cases (dirty l e || e.saving)) [
    | inl k ↦ simp (h, k) (refl, refl)
    | inr k ↦ simp (h, k) (refl, refl)
  ]
]

sync-Waits : (l : Locale) (e : Editor) → Waits l e → Waits l (sync l e)
sync-Waits l e w = let (a, b) = sync-phase l e in rw (a, b) w

-- Both: what an action adds, and that the editor waits only for what it has asked.
abbrev Acts : Locale → Event → Editor → Editor → Type 0
Acts l event e e' = AddsRequest l event e e'.requests × Waits l e'

begin-Acts : (l : Locale) (e : Editor) → next_errors l e ≡ [] → Acts l submits e (begin l e)
unfolding begin
begin-Acts l e h =
    let (a, b) = next_errors-none l e h in
    elim (Bool-cases (changed_identity e)) [
      | inl k ↦
          let given = password-given (changed_identity e) (is_empty e.current_password) k b in
          simp k (
            inr (inl (e.current_password, refl, given)),
            (
              a,
              (
                e.current_password,
                last?-append e.requests (confirm_request e.current_password),
                given,
              ),
            ),
          )
      | inr k ↦ simp k (inr (inr (e.values, refl, a, (refl, k))), tt)
    ]

submit_with-Acts :
    (l : Locale) (e : Editor) (found : List Field)
    → Waits l e
    → next_errors l e ≡ found
    → Acts l submits e (submit_with l e found)
submit_with-Acts l e [] w h = begin-Acts l e h
submit_with-Acts l e (f ∷ fs) w h = (inl refl, w)

either-Acts :
    (l : Locale) (event : Event) (c : Bool) (e a b : Editor)
    → Acts l event e a
    → Acts l event e b
    → Acts l event e (if c then a else b)
either-Acts l event true e a b x y = x
either-Acts l event false e a b x y = y

submit-Acts : (l : Locale) (e : Editor) → Waits l e → Acts l submits e (submit l e)
unfolding submit
submit-Acts l e w =
    either-Acts l submits e.saving e e _ (inl refl, w)
      (submit_with-Acts l e (next_errors l e) w refl)

confirm_in-Acts :
    (l : Locale) (e : Editor) (p : Phase)
    → e.phase ≡ p
    → IsAsked l p e.requests
    → Acts l confirmed e (confirm_in l e p)
confirm_in-Acts l e idle h w = (inl refl, rw h w)
confirm_in-Acts l e updating h w = (inl refl, rw h w)
confirm_in-Acts l e refreshing h w = (inl refl, rw h w)
confirm_in-Acts l e (confirming v) h (valid, asked) = (inr (inr (v, refl, valid, (h, asked))), tt)

save_in-Acts :
    (l : Locale) (s : Settings) (e : Editor) (p : Phase)
    → e.phase ≡ p
    → IsAsked l p e.requests
    → Acts l (saved s) e (save_in l s e p)
save_in-Acts l s e idle h w = (inl refl, rw h w)
save_in-Acts l s e refreshing h w = (inl refl, rw h w)
save_in-Acts l s e (confirming v) h w = (inl refl, rw h w)
save_in-Acts l s e updating h w = (inl refl, tt)

fail_in-Acts :
    (l : Locale) (f : Failure) (e : Editor) (p : Phase)
    → e.phase ≡ p
    → IsAsked l p e.requests
    → Acts l (fails f) e (fail_in l f e p)
fail_in-Acts l f e idle h w = (inl refl, rw h w)
fail_in-Acts l f e refreshing h w = (inl refl, rw h w)
fail_in-Acts l f e (confirming v) h w = (inl refl, tt)
fail_in-Acts l f e updating h w = (inl refl, tt)

finish_in-Acts :
    (l : Locale) (e : Editor) (p : Phase)
    → e.phase ≡ p
    → IsAsked l p e.requests
    → Acts l refreshed e (finish_in e p)
finish_in-Acts l e idle h w = (inl refl, rw h w)
finish_in-Acts l e updating h w = (inl refl, rw h w)
finish_in-Acts l e (confirming v) h w = (inl refl, rw h w)
finish_in-Acts l e refreshing h w = (inl refl, tt)

load_from-Acts :
    (l : Locale) (e : Editor) (o : Option Settings)
    → Waits l e
    → Acts l loads_theirs e (load_from l e o)
load_from-Acts l e none w = (inl refl, w)
load_from-Acts l e (some s) w = (inl refl, w)

keep_from-Acts :
    (l : Locale) (e : Editor) (o : Option Settings)
    → Waits l e
    → Acts l keeps_edits e (keep_from e o)
keep_from-Acts l e none w = (inl refl, w)
keep_from-Acts l e (some s) w = (inl refl, w)

act-Acts : (l : Locale) (event : Event) (e : Editor) → Waits l e → Acts l event e (act l event e)
unfolding act set_field toggle_mppt
act-Acts l (sets field t) e w = (inl refl, w)
act-Acts l (toggles input) e w = (inl refl, w)
act-Acts l (types_password t) e w = (inl refl, w)
act-Acts l submits e w = submit-Acts l e w
act-Acts l loads_theirs e w =
    either-Acts l loads_theirs e.saving e e _ (inl refl, w) (load_from-Acts l e e.conflict w)
act-Acts l keeps_edits e w =
    either-Acts l keeps_edits e.saving e e _ (inl refl, w) (keep_from-Acts l e e.conflict w)
act-Acts l confirmed e w = confirm_in-Acts l e e.phase refl w
act-Acts l refreshed e w = finish_in-Acts l e e.phase refl w
act-Acts l (saved s) e w = save_in-Acts l s e e.phase refl w
act-Acts l (fails f) e w = fail_in-Acts l f e e.phase refl w
act-Acts l (refetched s) e w = (inl refl, w)

handle-Waits : (l : Locale) (event : Event) (e : Editor) → Waits l e → Waits l (handle l event e)
unfolding handle
handle-Waits l event e w = sync-Waits l (act l event e) (act-Acts l event e w).1

run-Waits : (l : Locale) (events : List Event) (e : Editor) → Waits l e → Waits l (run l events e)
unfolding run
run-Waits l [] e w = w
run-Waits l (event ∷ events) e w = run-Waits l events (handle l event e) (handle-Waits l event e w)

handle-AddsRequest :
    (l : Locale) (event : Event) (e : Editor)
    → Waits l e
    → AddsRequest l event e (handle l event e).requests
unfolding handle
handle-AddsRequest l event e w = rw (sync-phase l (act l event e)).1 (act-Acts l event e w).0

-- After any events, the next one makes the editor send nothing, a confirmation with a password, or one
-- update with values that its validation has passed. An update is sent in two cases only: the
-- visitor submits and the logger's identity is that of the original settings, or the server has
-- just confirmed the password that the last request had for these values. So no change of the
-- identity is sent without a confirmation.
pub run-AddsRequest :
    (l : Locale) (initial : Settings) (events : List Event) (event : Event)
    → AddsRequest l event
        (run l events (start l initial))
        (handle l event (run l events (start l initial))).requests
run-AddsRequest l initial events event =
    handle-AddsRequest l event (run l events (start l initial))
      (run-Waits l events (start l initial) tt)
