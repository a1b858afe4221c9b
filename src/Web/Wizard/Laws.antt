-- ===== src/Web/Wizard/Laws.antt =====
-- OnboardingWizard.tsx: what the wizard posts, and its lock against a second submission.
use helio.Prelude.{
  ℕ, ◌+◌, ◌-◌, ◌≤◌, ◌<◌, Bool, true, false, Option, none, some, ◌≡◌, ◌⊎◌, inl, inr, refl, List, [],
  ◌∷◌, arith, All, All-append, Bool-cases, ◌==◌, min,
}
use helio.Web.Fields.{number_of, clear_error, Locale, Field, at_active_mppt, Settings, at_general}
use helio.Web.Fields.Checks.{IsInRange}
use helio.Web.Forms.{
  Payload, OnboardingValues, validate_step, validate_account, validate_logger, validate_panels,
  validate_location, to_bootstrap_payload, server_field_error,
}
use helio.Web.Forms.Laws.{to_bootstrap_payload_lem, payload_of}
use helio.Web.Wizard.{
  set_value, Wizard, start, last_step, step_for_field, update, toggle_mppt, advance_with, advance,
  found_at, first_invalid, post, submit_valid, submit_found, submit, Answer, created, refused,
  failed, show_refusal, settle, Event, updates, toggles, submits, goes_back, answers, is_possible,
  handle, run,
}

-- A payload is that of values which each of the four steps finds valid, and its settings are in range.
abbrev pub IsPosted : Locale → Payload → Type 0
IsPosted l p =
    (v : OnboardingValues) × ((validate_step l 0 v ≡ [])
      × (validate_step l 1 v ≡ [])
      × (validate_step l 2 v ≡ [])
      × (validate_step l 3 v ≡ []))
    × (to_bootstrap_payload l v ≡ some p)
    × IsInRange p.settings

-- The wizard is at one of its steps; what it has posted is valid; at most one request is open, and
-- only under the lock; the lock is held only for an open request or when the set-up is over.
pub record IsOrderly (l : Locale) (w : Wizard) : Type 0 where
  pub on_step : w.step ≤ last_step
  pub valid : All (IsPosted l) w.sent
  pub one_open : w.pending ≤ 1
  pub locked : (w.submission_started ≡ false) → w.pending ≡ 0
  pub released : (w.submission_started ≡ true) → (w.pending ≡ 1) ⊎ (w.closed ≡ true)

found_at-none :
    (n : ℕ) (fields : List Field) (later : Option (ℕ × (Field × List Field)))
    → found_at n fields later ≡ none
    → (fields ≡ []) × (later ≡ none)
found_at-none n [] later e = (refl, e)
found_at-none n (f ∷ fs) later e = cc

-- The step that was found, if any, is one of the wizard's.
abbrev IsStep : Option (ℕ × (Field × List Field)) → Type 0
IsStep none = Unit
IsStep (some x) = x.0 ≤ last_step

found_at-IsStep :
    (n : ℕ) (fields : List Field) (later : Option (ℕ × (Field × List Field)))
    → n ≤ last_step
    → IsStep later
    → IsStep (found_at n fields later)
found_at-IsStep n [] later h k = k
found_at-IsStep n (f ∷ fs) later h k = h

first_invalid-IsStep : (l : Locale) (v : OnboardingValues) → IsStep (first_invalid l v)
unfolding first_invalid
first_invalid-IsStep l v = found_at-IsStep 0 (validate_step l 0 v) _ (omega arith) (
    found_at-IsStep 1 (validate_step l 1 v) _ (omega arith) (
      found_at-IsStep 2 (validate_step l 2 v) _ (omega arith)
        (found_at-IsStep 3 (validate_step l 3 v) none (omega arith) tt)))

-- Where no step is invalid, the form is converted.
first_invalid-none :
    (l : Locale) (v : OnboardingValues)
    → first_invalid l v ≡ none
    → (s : Settings) × ((to_bootstrap_payload l v ≡ some (payload_of v s))
        × IsPosted l (payload_of v s))
unfolding first_invalid validate_step
first_invalid-none l v e =
    let (account, e1) = found_at-none 0 (validate_account l v) _ e in
    let (a, e2) = found_at-none 1 (validate_logger v) _ e1 in
    let (b, e3) = found_at-none 2 (validate_panels v) _ e2 in
    let (c, _) = found_at-none 3 (validate_location l v) none e3 in
    let (s, (p, r)) = to_bootstrap_payload_lem l v a b c in (s, (p, (v, (account, a, b, c), p, r)))

-- A step to another place, with other errors: nothing is posted and the lock stays.
moved-IsOrderly :
    {l : Locale} (w : Wizard) (step : ℕ) (values : OnboardingValues) (errors : List Field)
    (focus : Option Field)
    → IsOrderly l w
    → step ≤ last_step
    → IsOrderly l (record w { step = step; values = values; errors = errors; focus = focus })
moved-IsOrderly w step values errors focus v h = record {
  on_step = h;
  valid = v.valid;
  one_open = v.one_open;
  locked = v.locked;
  released = v.released;
}

advance_with-IsOrderly :
    {l : Locale} (w : Wizard) (found : List Field)
    → IsOrderly l w
    → IsOrderly l (advance_with w found)
advance_with-IsOrderly w [] v =
    moved-IsOrderly w (min (w.step + 1) last_step) w.values [] w.focus v (omega arith)
advance_with-IsOrderly w (f ∷ fs) v =
    moved-IsOrderly w w.step w.values (f ∷ fs) (some f) v v.on_step

-- The payload of a valid form is posted under the lock.
posted-IsOrderly :
    {l : Locale} (w : Wizard) (s : Settings)
    → IsOrderly l w
    → w.submission_started ≡ false
    → IsPosted l (payload_of w.values s)
    → IsOrderly l
        (post (record w { errors = []; submission_started = true }) (some (payload_of w.values s)))
posted-IsOrderly {l} w s v e r = record {
  on_step = v.on_step;
  valid = All-append (IsPosted l) w.sent (payload_of w.values s ∷ []) v.valid (r, tt);
  one_open = omega (arith, v.locked e);
  locked = λ h. cc;
  released = λ h. inl (omega (arith, v.locked e));
}

-- Under the lock the errors are cleared, and that is all.
held-IsOrderly :
    {l : Locale} (w : Wizard)
    → IsOrderly l w
    → w.submission_started ≡ true
    → IsOrderly l (record w { errors = []; submission_started = true })
held-IsOrderly w v h = record {
  on_step = v.on_step;
  valid = v.valid;
  one_open = v.one_open;
  locked = λ k. cc;
  released = λ k. v.released h;
}

submit_valid-IsOrderly :
    (l : Locale) (w : Wizard)
    → IsOrderly l w
    → first_invalid l w.values ≡ none
    → IsOrderly l (submit_valid l w)
submit_valid-IsOrderly l w v e =
    let (s, (p, r)) = first_invalid-none l w.values e in
    elim (Bool-cases w.submission_started) [
      | inl h ↦ simp h (held-IsOrderly w v h)
      | inr h ↦ simp (h, p) (posted-IsOrderly w s v h r)
    ]

submit_found-IsOrderly :
    (l : Locale) (w : Wizard) (o : Option (ℕ × (Field × List Field)))
    → IsOrderly l w
    → first_invalid l w.values ≡ o
    → IsStep o
    → IsOrderly l (submit_found l w o)
submit_found-IsOrderly l w none v e h = submit_valid-IsOrderly l w v e
submit_found-IsOrderly l w (some (n, (f, fs))) v e h = moved-IsOrderly w n w.values fs (some f) v h

submit-IsOrderly : (l : Locale) (w : Wizard) → IsOrderly l w → IsOrderly l (submit l w)
unfolding submit
submit-IsOrderly l w v =
    submit_found-IsOrderly l w (first_invalid l w.values) v refl (first_invalid-IsStep l w.values)

-- An answer that lets the visitor try again.
answered-IsOrderly :
    {l : Locale} (w : Wizard) (step : ℕ) (errors : List Field) (focus : Option Field)
    (closed : Bool)
    → IsOrderly l w
    → step ≤ last_step
    → IsOrderly l (record w {
      step = step;
      errors = errors;
      focus = focus;
      pending = w.pending - 1;
      submission_started = false;
      closed = closed;
    })
answered-IsOrderly w step errors focus closed v h = record {
  on_step = h;
  valid = v.valid;
  one_open = omega (arith, v.one_open);
  locked = λ k. omega (arith, v.one_open);
  released = λ k. cc;
}

step_for_field-bound : (f : Field) (n : ℕ) → n ≤ last_step → step_for_field f n ≤ last_step
step_for_field-bound f n h = ground arith

show_refusal-IsOrderly :
    {l : Locale} (w : Wizard) (f : Field)
    → IsOrderly l w
    → IsOrderly l
        (show_refusal (record w { pending = w.pending - 1; submission_started = false }) f)
show_refusal-IsOrderly w f v = elim (Bool-cases (number_of f == number_of at_general)) [
  | inl e ↦ simp e (answered-IsOrderly w w.step (f ∷ []) w.focus w.closed v v.on_step)
  | inr e ↦ simp e (
      answered-IsOrderly w (step_for_field f w.step) (f ∷ []) (some f) w.closed v
        (step_for_field-bound f w.step v.on_step))
]

settle-IsOrderly :
    (l : Locale) (answer : Answer) (w : Wizard)
    → IsOrderly l w
    → 0 < w.pending
    → IsOrderly l (settle l answer w)
unfolding settle
settle-IsOrderly l created w v o = record {
  on_step = v.on_step;
  valid = v.valid;
  one_open = omega (arith, v.one_open);
  locked = λ k. omega (arith, v.locked k);
  released = λ k. inr refl;
}
settle-IsOrderly l failed w v o =
    answered-IsOrderly w w.step (at_general ∷ []) w.focus w.closed v v.on_step
settle-IsOrderly l (refused status message code) w v o = elim (Bool-cases (status == 409)) [
  | inl e ↦ simp e (answered-IsOrderly w w.step w.errors w.focus true v v.on_step)
  | inr e ↦ elim (Bool-cases (status == 422)) [
    | inl h ↦ simp (e, h) (show_refusal-IsOrderly w (server_field_error l message code) v)
    | inr h ↦
        simp (e, h) (answered-IsOrderly w w.step (at_general ∷ []) w.focus w.closed v v.on_step)
  ]
]

handle-IsOrderly :
    (l : Locale) (e : Event) (w : Wizard)
    → IsOrderly l w
    → is_possible e w ≡ true
    → IsOrderly l (handle l e w)
unfolding handle is_possible update toggle_mppt advance
handle-IsOrderly l (updates field t) w v h =
    moved-IsOrderly w w.step (set_value field t w.values) (clear_error field w.errors) w.focus v
      v.on_step
handle-IsOrderly l (toggles input) w v h =
    moved-IsOrderly w w.step (toggle_mppt input w).values (clear_error at_active_mppt w.errors)
      w.focus v v.on_step
handle-IsOrderly l submits w v h = elim (Bool-cases (w.step == last_step)) [
  | inl e ↦ simp e (submit-IsOrderly l w v)
  | inr e ↦ simp e (advance_with-IsOrderly w (validate_step l w.step w.values) v)
]
handle-IsOrderly l goes_back w v h =
    moved-IsOrderly w (w.step - 1) w.values [] w.focus v (omega (arith, v.on_step))
handle-IsOrderly l (answers answer) w v h = settle-IsOrderly l answer w v (ground arith)

-- Whatever the visitor does and the server answers, in any order, a second submit event before the
-- page is drawn again included: the wizard stays on one of its steps, at most one request is open, and
-- everything that it has posted is the payload of values in which none of the four steps finds an
-- error, the account's included, with settings in the ranges that the logger, the inverter and the
-- server allow. The lock against a second submission is never left behind: it is held only while a request
-- is open or once the set-up is over.
pub run-IsOrderly :
    (l : Locale) (events : List Event) (w : Wizard) → IsOrderly l w → IsOrderly l (run l events w)
unfolding run
run-IsOrderly l [] w v = v
run-IsOrderly l (e ∷ events) w v = elim (Bool-cases (is_possible e w)) [
  | inl h ↦ simp h (run-IsOrderly l events (handle l e w) (handle-IsOrderly l e w v h))
  | inr h ↦ simp h (run-IsOrderly l events w v)
]

pub start-IsOrderly : (l : Locale) → IsOrderly l (start l)
start-IsOrderly l = record {
  on_step = omega arith;
  valid = tt;
  one_open = omega arith;
  locked = λ k. refl;
  released = λ k. cc;
}
