-- ===== src/Relay/State/Atomic.antt =====
-- state.js: the state file is never partial or of an invalid state.
use helio.Prelude.{
  ◌≡◌, refl, Option, some, List, [], ◌∷◌, arith, All, All-append, ◌⊎◌, inl, inr, Bool-cases,
}
use mathlib.Core.Path.{subst, sym}
use helio.Js.Json.{Json}
use helio.Js.Text.{Text}
use helio.Js.Host.{Host}
use helio.Relay.State.{
  Data, Store, Call, updates, adds, removes, writes, WriteResult, written, write_failed,
  rename_failed, content, save, update_snapshot, add_device, remove_device, perform, run_head,
  run_write, step, run,
}
use helio.Relay.State.Devices.{IsValid, step-IsValid}

-- The text that is written for some valid state.
abbrev pub IsContent : Host → Text → Type 0
IsContent h c = (d : Data) × IsValid d × (c ≡ content h d)

-- The file is what it was at first, or the text of a valid state; so is every queued write.
pub record IsWhole (h : Host) (first : Option Text) (s : Store) : Type 0 where
  pub file_whole : (s.file ≡ first) ⊎ ((c : Text) × IsContent h c × (s.file ≡ some c))
  pub queue_whole : All (IsContent h) s.queue
  pub memory_valid : IsValid s.memory

save-IsWhole :
    (h : Host) (first : Option Text) (s : Store) (d : Data)
    → IsWhole h first s
    → IsValid d
    → IsWhole h first (save h (record s { memory = d }))
unfolding save
save-IsWhole h first s d w v = record {
  file_whole = w.file_whole;
  queue_whole =
      All-append (IsContent h) s.queue (content h d ∷ []) w.queue_whole ((d, v, refl), tt);
  memory_valid = v;
}

-- What a method leaves is the store, or a save of it with another memory.
abbrev Changes : Host → Store → Store → Type 0
Changes h s t = (t ≡ s) ⊎ (t ≡ save h (record s { memory = t.memory }))

update-Changes : (h : Host) (new : Json) (s : Store) → Changes h s (update_snapshot h new s).1
unfolding update_snapshot save
update-Changes h new s = ground arith

add-Changes : (h : Host) (id : Text) (s : Store) → Changes h s (add_device h id s).1
unfolding add_device save
add-Changes h id s = ground arith

remove-Changes : (h : Host) (id : Text) (s : Store) → Changes h s (remove_device h id s).1
unfolding remove_device save
remove-Changes h id s = ground arith

Changes-IsWhole :
    (h : Host) (first : Option Text) (s t : Store)
    → Changes h s t
    → IsWhole h first s
    → IsValid t.memory
    → IsWhole h first t
Changes-IsWhole h first s t (inl e) w v = subst (IsWhole h first) (sym e) w
Changes-IsWhole h first s t (inr e) w v =
    subst (IsWhole h first) (sym e) (save-IsWhole h first s t.memory w v)

run_head-IsWhole :
    (h : Host) (first : Option Text) (r : WriteResult) (q : List Text) (s : Store)
    → All (IsContent h) q
    → IsWhole h first s
    → IsWhole h first (run_head r q s)
unfolding run_head
run_head-IsWhole h first r [] s a w = w
run_head-IsWhole h first r (c ∷ q) s (whole, a) w = elim (Bool-cases s.rejected) [
  | inl bad ↦
      rw (bad, run_head)
        (record { file_whole = w.file_whole; queue_whole = a; memory_valid = w.memory_valid })
  | inr good ↦ simp (good, run_head) (perform-IsWhole r)
]
  where
    perform-IsWhole : (r : WriteResult) → IsWhole h first (perform r c q s)
    perform-IsWhole written = record {
      file_whole = inr (c, whole, refl);
      queue_whole = a;
      memory_valid = w.memory_valid;
    }
    perform-IsWhole (write_failed left) = record {
      file_whole = w.file_whole;
      queue_whole = a;
      memory_valid = w.memory_valid;
    }
    perform-IsWhole rename_failed = record {
      file_whole = w.file_whole;
      queue_whole = a;
      memory_valid = w.memory_valid;
    }

step-IsWhole :
    (h : Host) (first : Option Text) (c : Call) (s : Store)
    → IsWhole h first s
    → IsWhole h first (step h s c)
unfolding step run_write
step-IsWhole h first (updates new) s w =
    Changes-IsWhole h first s _ (update-Changes h new s) w
      (step-IsValid h (updates new) s w.memory_valid)
step-IsWhole h first (adds id) s w =
    Changes-IsWhole h first s _ (add-Changes h id s) w (step-IsValid h (adds id) s w.memory_valid)
step-IsWhole h first (removes id) s w =
    Changes-IsWhole h first s _ (remove-Changes h id s) w
      (step-IsValid h (removes id) s w.memory_valid)
step-IsWhole h first (writes r) s w = run_head-IsWhole h first r s.queue s w.queue_whole w

run-IsWhole :
    (h : Host) (first : Option Text) (cs : List Call) (s : Store)
    → IsWhole h first s
    → IsWhole h first (run h s cs)
unfolding run
run-IsWhole h first [] s w = w
run-IsWhole h first (c ∷ cs) s w = run-IsWhole h first cs (step h s c) (step-IsWhole h first c s w)

-- From a valid state with nothing queued, at every point of every history, with writes that fail at
-- any step: the file is the one that stood there first or the whole text of a valid state, never a
-- part of one.
pub file-IsContent :
    (h : Host) (cs : List Call) (s : Store)
    → IsValid s.memory
    → s.queue ≡ []
    → ((run h s cs).file ≡ s.file) ⊎ ((c : Text) × IsContent h c × ((run h s cs).file ≡ some c))
file-IsContent h cs s v e =
    (run-IsWhole h s.file cs s
      (record { file_whole = inl refl; queue_whole = rw e tt; memory_valid = v })).file_whole
