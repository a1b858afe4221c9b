-- ===== src/Relay/State/Durable.antt =====
-- state.js: what the state file holds, for every order of calls and writes.
use helio.Relay.State.{
  unchanged, Outcome, without, Store, Call, updates, adds, removes, writes, WriteResult, written,
  write_failed, rename_failed, content, save, update_snapshot, add_device, remove_device, perform,
  run_head, run_write, step, run, saving,
}
use mathlib.Core.Path.{subst}
use helio.Prelude.{
  sym, ◌≢◌, Bool-cases, ◌≡◌, refl, true, false, Option, none, some, List, [], ◌∷◌, ◌++◌, arith,
  last?, last?-append, ◌∙◌, ◌⊎◌, inl, inr,
}
use helio.Js.Text.{Text}
use helio.Js.Json.{Json}
use helio.Js.Host.{Host}

abbrev pub settle : Option Text → Option Text → Option Text
settle file none = file
settle file (some c) = some c

-- The text that the file holds once the queue has run: that of the last queued write, or the file's.
abbrev pub settled : Store → Option Text
settled s = settle s.file (last? s.queue)

-- The file holds the state in memory, or will once the queued writes have run.
abbrev pub IsSaved : Host → Store → Type 0
IsSaved h s = settled s ≡ some (content h s.memory)

-- Unless a write has failed.
abbrev pub IsDurable : Host → Store → Type 0
IsDurable h s = (s.rejected ≡ true) ⊎ IsSaved h s

-- A save makes the state durable, whatever stood in the queue.
pub save-IsSaved : (h : Host) (s : Store) → IsSaved h (save h s)
unfolding save
save-IsSaved h s = rw (last?-append s.queue (content h s.memory))

update-IsDurable :
    (h : Host) (new : Json) (s : Store) → IsDurable h s → IsDurable h (update_snapshot h new s).1
unfolding update_snapshot
update-IsDurable h new s d =
    ground (arith, save-IsSaved h (record s { memory = record s.memory { snapshot = new } }))

add-IsDurable :
    (h : Host) (id : Text) (s : Store) → IsDurable h s → IsDurable h (add_device h id s).1
unfolding add_device
add-IsDurable h id s d = ground (
  arith,
  save-IsSaved h (record s { memory = record s.memory { devices = s.memory.devices ++ id ∷ [] } }),
)

remove-IsDurable :
    (h : Host) (id : Text) (s : Store) → IsDurable h s → IsDurable h (remove_device h id s).1
unfolding remove_device
remove-IsDurable h id s d = ground (
  arith,
  save-IsSaved h (record s { memory = record s.memory { devices = without id s.memory.devices } }),
)

-- Behind a queued write the file does not matter.
settle-last? :
    (f g : Option Text) (x : Text) (q : List Text)
    → settle f (last? (x ∷ q)) ≡ settle g (last? (x ∷ q))
settle-last? f g x [] = refl
settle-last? f g x (y ∷ q) = settle-last? f g y q

written-IsSaved :
    (h : Host) (c x : Text) (q : List Text) (s : Store)
    → s.queue ≡ c ∷ x ∷ q
    → IsSaved h s
    → IsSaved h (perform written c (x ∷ q) s)
unfolding perform
written-IsSaved h c x q s e d = settle-last? (some c) s.file x q ∙ (rw e at d)

run_head-IsDurable :
    (h : Host) (r : WriteResult) (q : List Text) (s : Store)
    → s.queue ≡ q
    → IsDurable h s
    → IsDurable h (run_head r q s)
unfolding run_head
run_head-IsDurable h r [] s e d = d
run_head-IsDurable h written (c ∷ []) s e d = ground arith
run_head-IsDurable h written (c ∷ x ∷ q) s e d = elim (Bool-cases s.rejected) [
  | inl bad ↦ inl (rw (bad, run_head) refl)
  | inr good ↦ elim d [
    | inl bad ↦ cc
    | inr saved ↦ inr (rw (good, run_head) (written-IsSaved h c x q s e saved))
  ]
]
run_head-IsDurable h (write_failed left) (c ∷ q) s e d = ground arith
run_head-IsDurable h rename_failed (c ∷ q) s e d = ground arith

write-IsDurable :
    (h : Host) (r : WriteResult) (s : Store) → IsDurable h s → IsDurable h (run_write r s)
unfolding run_write
write-IsDurable h r s d = run_head-IsDurable h r s.queue s refl d

step-IsDurable : (h : Host) (c : Call) (s : Store) → IsDurable h s → IsDurable h (step h s c)
unfolding step
step-IsDurable h (updates new) s d = update-IsDurable h new s d
step-IsDurable h (adds id) s d = add-IsDurable h id s d
step-IsDurable h (removes id) s d = remove-IsDurable h id s d
step-IsDurable h (writes r) s d = write-IsDurable h r s d

pub run-IsDurable :
    (h : Host) (cs : List Call) (s : Store) → IsDurable h s → IsDurable h (run h s cs)
unfolding run
run-IsDurable h [] s d = d
run-IsDurable h (c ∷ cs) s d = run-IsDurable h cs (step h s c) (step-IsDurable h c s d)

-- What a call has done when it returns or first waits.
unfoldable pub outcome : Host → Store → Call → Outcome
outcome h s (updates new) = (update_snapshot h new s).0
outcome h s (adds id) = (add_device h id s).0
outcome h s (removes id) = (remove_device h id s).0
outcome h s (writes r) = unchanged

saving-IsSaved : (h : Host) (s : Store) (c : Call) → outcome h s c ≡ saving → IsSaved h (step h s c)
unfolding outcome step update_snapshot add_device remove_device
saving-IsSaved h s (updates new) e =
    ground (arith, save-IsSaved h (record s { memory = record s.memory { snapshot = new } }))
saving-IsSaved h s (adds id) e = ground (
  arith,
  save-IsSaved h (record s { memory = record s.memory { devices = s.memory.devices ++ id ∷ [] } }),
)
saving-IsSaved h s (removes id) e = ground (
  arith,
  save-IsSaved h (record s { memory = record s.memory { devices = without id s.memory.devices } }),
)
saving-IsSaved h s (writes r) e = cc

-- After a call that saves, and any calls behind it: when the queue has run and no write has failed,
-- the file holds exactly the state in memory, also where several saves overlapped.
pub file-after_save :
    (h : Host) (s : Store) (c : Call) (cs : List Call)
    → outcome h s c ≡ saving
    → (run h s (c ∷ cs)).rejected ≡ false
    → (run h s (c ∷ cs)).queue ≡ []
    → (run h s (c ∷ cs)).file ≡ some (content h (run h s (c ∷ cs)).memory)
unfolding run
file-after_save h s c cs e ok drained =
    elim (run-IsDurable h cs (step h s c) (inr (saving-IsSaved h s c e))) [
      | inl bad ↦ cc
      | inr saved ↦ rw drained at saved
    ]

run_head-rejected :
    (r : WriteResult) (q : List Text) (s : Store)
    → s.rejected ≡ true
    → ((run_head r q s).file ≡ s.file) × ((run_head r q s).rejected ≡ true)
unfolding run_head
run_head-rejected r [] s bad = ground arith
run_head-rejected r (c ∷ q) s bad = ground arith

step-rejected :
    (h : Host) (c : Call) (s : Store)
    → s.rejected ≡ true
    → ((step h s c).file ≡ s.file) × ((step h s c).rejected ≡ true)
unfolding step update_snapshot add_device remove_device save
step-rejected h (updates new) s bad = ground arith
step-rejected h (adds id) s bad = ground arith
step-rejected h (removes id) s bad = ground arith
step-rejected h (writes r) s bad = unfold run_write in run_head-rejected r s.queue s bad

-- Once the promise is rejected, nothing changes the file.
run-rejected :
    (h : Host) (cs : List Call) (s : Store)
    → s.rejected ≡ true
    → ((run h s cs).file ≡ s.file) × ((run h s cs).rejected ≡ true)
unfolding run
run-rejected h [] s bad = (refl, bad)
run-rejected h (c ∷ cs) s bad =
    let first = step-rejected h c s bad in
    let rest = run-rejected h cs (step h s c) first.1 in (rest.0 ∙ first.0, rest.1)

run_head-failed :
    (r : WriteResult) (c : Text) (q : List Text) (s : Store)
    → r ≢ written
    → ((run_head r (c ∷ q) s).file ≡ s.file) × ((run_head r (c ∷ q) s).rejected ≡ true)
unfolding run_head
run_head-failed written c q s n = absurd (n refl)
run_head-failed (write_failed left) c q s n = ground arith
run_head-failed rename_failed c q s n = ground arith

run_write-failed :
    (r : WriteResult) (c : Text) (q : List Text) (s : Store)
    → s.queue ≡ c ∷ q
    → r ≢ written
    → ((run_write r s).file ≡ s.file) × ((run_write r s).rejected ≡ true)
unfolding run_write
run_write-failed r c q s e n =
    subst (λ p. ((run_head r p s).file ≡ s.file) × ((run_head r p s).rejected ≡ true)) (sym e)
      (run_head-failed r c q s n)

-- Where a write is queued and its writing or its renaming fails, the file stays as it was, and never
-- changes again, whatever is called and however later writes would go: the queue's promise stays
-- rejected.
pub file-after_failure :
    (h : Host) (r : WriteResult) (c : Text) (q : List Text) (cs : List Call) (s : Store)
    → s.queue ≡ c ∷ q
    → r ≢ written
    → ((run h s (writes r ∷ cs)).file ≡ s.file) × ((run h s (writes r ∷ cs)).rejected ≡ true)
unfolding run step
file-after_failure h r c q cs s e n =
    let first = run_write-failed r c q s e n in
    let rest = run-rejected h cs (run_write r s) first.1 in (rest.0 ∙ first.0, rest.1)
