-- ===== src/Relay/State/Freshness.antt =====
-- state.js: which snapshot the state holds after a call, and after many.
use helio.Prelude.{
  inr, inl, Bool-cases, ap, ◌⊎◌, ◌↔◌, ◌≡◌, refl, true, false, Option, none, some, List, [], ◌∷◌,
  arith, ℤ, ◌≤ℤ◌, All,
}
use helio.Relay.State.{
  Data, Store, Call, updates, adds, removes, writes, save, observed_at, later, update_snapshot,
  add_device, remove_device, step, run, unchanged,
}
use helio.Js.Text.{Text, text_eq}
use helio.Js.Json.{Json, truthy}
use helio.Js.Host.{Host}
use helio.Relay.State.Devices.{run_write-memory}

-- The time of the stored snapshot; `none` when there is no dated snapshot.
abbrev pub stored_time : Host → Store → Option ℤ
stored_time h s = observed_at h s.memory.snapshot

-- `t` is no later than `u`, both known.
abbrev pub NotAfter : Option ℤ → Option ℤ → Type 0
NotAfter (some t) (some u) = t ≤ℤ u
NotAfter (some t) none = ⊥
NotAfter none u = ⊥

-- A JSON value with a time, as `parseSnapshot` returns it: an object whose date can be read.
pub record IsDated (h : Host) (v : Json) : Type 0 where
  pub present : truthy v ≡ true
  pub time : ℤ
  pub dated : observed_at h v ≡ some time

-- The update is refused exactly when the stored snapshot is later or has the same JSON text; else
-- the new one is stored and its save joins the queue.
pub update_snapshot-unchanged_iff :
    (h : Host) (new : Json) (s : Store)
    → ((update_snapshot h new s).0 ≡ unchanged) ↔ (
        (truthy s.memory.snapshot ≡ true)
        × ((later (stored_time h s) (observed_at h new) ≡ true)
            ⊎ (text_eq (h.json_stringify s.memory.snapshot) (h.json_stringify new) ≡ true)))
unfolding update_snapshot
update_snapshot-unchanged_iff h new s = (λ e. ground arith, λ e. ground arith)

NotAfter-trans : (a b c : Option ℤ) → NotAfter a b → NotAfter b c → NotAfter a c
NotAfter-trans (some a) (some b) (some c) h k = omega arith
NotAfter-trans (some a) (some b) none h k = absurd k
NotAfter-trans (some a) none c h k = absurd h
NotAfter-trans none b c h k = absurd h

NotAfter-of_time : (a : Option ℤ) (t : ℤ) → a ≡ some t → NotAfter a a
NotAfter-of_time (some a) t e = omega arith
NotAfter-of_time none t e = cc

-- An update that is not refused as late.
NotAfter-of_not_later :
    (a b : Option ℤ) (t u : ℤ) → a ≡ some t → b ≡ some u → later a b ≡ false → NotAfter a b
NotAfter-of_not_later (some a) (some b) t u e f h = ground arith
NotAfter-of_not_later (some a) none t u e f h = cc
NotAfter-of_not_later none b t u e f h = cc

abbrev pub CallIsDated : Host → Call → Type 0
CallIsDated h (updates new) = IsDated h new
CallIsDated h (adds id) = Unit
CallIsDated h (removes id) = Unit
CallIsDated h (writes r) = Unit

-- What `t` follows from `s`: a dated snapshot, no older.
record IsFollowed (h : Host) (s t : Store) : Type 0 where
  dated : IsDated h t.memory.snapshot
  not_after : NotAfter (stored_time h s) (stored_time h t)

same_snapshot-IsFollowed :
    (h : Host) (s t : Store)
    → t.memory.snapshot ≡ s.memory.snapshot
    → IsDated h s.memory.snapshot
    → IsFollowed h s t
same_snapshot-IsFollowed h s t e d =
    let r : NotAfter (stored_time h s) (stored_time h s) =
      NotAfter-of_time (stored_time h s) d.time d.dated in
    record { dated = rw e d; not_after = rw e r }

update-IsFollowed :
    (h : Host) (new : Json) (s : Store)
    → IsDated h s.memory.snapshot
    → IsDated h new
    → IsFollowed h s (update_snapshot h new s).1
unfolding update_snapshot save
update-IsFollowed h new s d n = elim (Bool-cases (later (stored_time h s) (observed_at h new))) [
  | inl late ↦ rw (d.present, late, update_snapshot) (same_snapshot-IsFollowed h s s refl d)
  | inr fresh ↦
      elim (Bool-cases (text_eq (h.json_stringify s.memory.snapshot) (h.json_stringify new))) [
        | inl same ↦
            rw (d.present, fresh, same, update_snapshot) (same_snapshot-IsFollowed h s s refl d)
        | inr other ↦
            rw (d.present, fresh, other, update_snapshot)
              (record {
                dated = n;
                not_after = NotAfter-of_not_later _ _ d.time n.time d.dated n.dated fresh;
              })
      ]
]

add_device-snapshot :
    (h : Host) (id : Text) (s : Store) → (add_device h id s).1.memory.snapshot ≡ s.memory.snapshot
unfolding add_device save
add_device-snapshot h id s = ground arith

remove_device-snapshot :
    (h : Host) (id : Text) (s : Store)
    → (remove_device h id s).1.memory.snapshot ≡ s.memory.snapshot
unfolding remove_device save
remove_device-snapshot h id s = ground arith

step-IsFollowed :
    (h : Host) (c : Call) (s : Store)
    → IsDated h s.memory.snapshot
    → CallIsDated h c
    → IsFollowed h s (step h s c)
unfolding step
step-IsFollowed h (updates new) s d n = update-IsFollowed h new s d n
step-IsFollowed h (adds id) s d n = same_snapshot-IsFollowed h s _ (add_device-snapshot h id s) d
step-IsFollowed h (removes id) s d n =
    same_snapshot-IsFollowed h s _ (remove_device-snapshot h id s) d
step-IsFollowed h (writes r) s d n =
    same_snapshot-IsFollowed h s _ (ap (λ (m : Data). m.snapshot) (run_write-memory r s)) d

run-IsFollowed :
    (h : Host) (cs : List Call) (s : Store)
    → IsDated h s.memory.snapshot
    → All (CallIsDated h) cs
    → IsFollowed h s (run h s cs)
unfolding run
run-IsFollowed h [] s d n = same_snapshot-IsFollowed h s s refl d
run-IsFollowed h (c ∷ cs) s d (n, ns) =
    let first = step-IsFollowed h c s d n in
    let rest = run-IsFollowed h cs (step h s c) first.dated ns in
    record { dated = rest.dated; not_after = NotAfter-trans _ _ _ first.not_after rest.not_after }

-- Once the state holds a dated snapshot, and every update brings a dated one, as `parseSnapshot`
-- ensures: whatever the calls, in any order and with writes that fail or succeed, the stored snapshot
-- is never replaced by an older one.
pub run-NotAfter :
    (h : Host) (cs : List Call) (s : Store)
    → IsDated h s.memory.snapshot
    → All (CallIsDated h) cs
    → NotAfter (stored_time h s) (stored_time h (run h s cs))
run-NotAfter h cs s d n = (run-IsFollowed h cs s d n).not_after
