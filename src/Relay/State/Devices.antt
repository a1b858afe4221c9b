-- ===== src/Relay/State/Devices.antt =====
-- state.js: the list of devices stays valid through every call.
use helio.Prelude.{
  Bool-cases, ◌⊎◌, length-take, All-take, Option, some, inr, inl, Option-cases, length-append,
  All-append, ℕ, zero, suc, ◌≤◌, ◌≡◌, refl, true, false, not, ◌&&◌, ◌||◌, List, [], ◌∷◌, ◌++◌,
  arith, length, take, length-keep-le, All, All-keep, or_else,
}
use helio.Js.Json.{as_array, get_field, Json, null, bool, number, string, array, object}
use mathlib.Core.Option.{none}
use helio.Relay.State.{
  writes, removes, adds, contents, updates, Call, Reading, loaded, load, load_parsed, remove_device,
  run, step, write_failed, rename_failed, written, not_found, unreadable, devices_of, load_devices,
  Host, Store, WriteResult, save, add_device, run_head, run_write, update_snapshot, Data,
  device_limit, valid_device_id, includes, without, distinct, valid_ids, Loaded, load_error,
  empty_state, has_version,
}
use helio.Js.Text.{codes, Text, text_eq, text_eq_iff, text_eq_refl}
use mathlib.Core.Path.{subst}

-- No element occurs twice.
abbrev pub NoRepeat : List Text → Type 0
NoRepeat [] = Unit
NoRepeat (x ∷ xs) = (includes x xs ≡ false) × NoRepeat xs

abbrev pub IsDeviceId : Text → Type 0
IsDeviceId id = valid_device_id id ≡ true

pub record IsValid (d : Data) : Type 0 where
  pub valid : All IsDeviceId d.devices
  pub no_repeat : NoRepeat d.devices
  pub bounded : length d.devices ≤ device_limit

pub includes-append :
    (id x : Text) (xs : List Text) → includes id (xs ++ x ∷ []) ≡ (includes id xs || text_eq x id)
unfolding includes
includes-append id x [] = ground arith
includes-append id x (y ∷ xs) = ground (arith, includes-append id x xs)

-- What remains after a removal.
pub includes-without :
    (id x : Text) (xs : List Text)
    → includes id (without x xs) ≡ (includes id xs && not (text_eq x id))
unfolding includes without
includes-without id x [] = refl
includes-without id x (y ∷ xs) =
    ground (arith, includes-without id x xs, text_eq_iff y x, text_eq_iff y id, text_eq_iff x id)

pub without-absent : (x : Text) (xs : List Text) → includes x xs ≡ false → without x xs ≡ xs
unfolding includes without
without-absent x [] h = refl
without-absent x (y ∷ xs) h = ground (arith, without-absent x xs)

pub without_of_length :
    (x : Text) (xs : List Text) → length (without x xs) ≡ length xs → without x xs ≡ xs
unfolding without
without_of_length x [] h = refl
without_of_length x (y ∷ xs) h =
    ground (arith, without_of_length x xs, length-keep-le (λ (i : Text). not (text_eq i x)) xs)

NoRepeat-without : (x : Text) (xs : List Text) → NoRepeat xs → NoRepeat (without x xs)
unfolding without
NoRepeat-without x [] h = tt
NoRepeat-without x (y ∷ xs) (h, k) =
    ground (arith, NoRepeat-without x xs k, includes-without y x xs)

NoRepeat-append :
    (x : Text) (xs : List Text) → NoRepeat xs → includes x xs ≡ false → NoRepeat (xs ++ x ∷ [])
unfolding includes
NoRepeat-append x [] h k = (refl, tt)
NoRepeat-append x (y ∷ xs) (h, hs) k = (
  ground (arith, includes-append y x xs, text_eq_iff x y, text_eq_iff y x),
  NoRepeat-append x xs hs (ground arith),
)

includes-take :
    (n : ℕ) (x : Text) (xs : List Text) → includes x xs ≡ false → includes x (take n xs) ≡ false
unfolding includes
includes-take zero x xs h = refl
includes-take (suc n) x [] h = refl
includes-take (suc n) x (y ∷ xs) h = ground (arith, includes-take n x xs)

NoRepeat-take : (n : ℕ) (xs : List Text) → NoRepeat xs → NoRepeat (take n xs)
NoRepeat-take zero xs h = tt
NoRepeat-take (suc n) [] h = tt
NoRepeat-take (suc n) (x ∷ xs) (h, hs) = (includes-take n x xs h, NoRepeat-take n xs hs)

distinct-NoRepeat : (xs : List Text) → NoRepeat (distinct xs)
unfolding distinct
distinct-NoRepeat [] = tt
distinct-NoRepeat (x ∷ xs) = (
  ground (arith, includes-without x x (distinct xs), text_eq_refl x),
  NoRepeat-without x (distinct xs) (distinct-NoRepeat xs),
)

All-distinct : (P : Text → Type 0) (xs : List Text) → All P xs → All P (distinct xs)
unfolding distinct
All-distinct P [] h = tt
All-distinct P (x ∷ xs) (h, hs) =
    (h, All-keep P (λ item. not (text_eq item x)) (distinct xs) (All-distinct P xs hs))

valid_ids-IsDeviceId : (vs : List Json) → All IsDeviceId (valid_ids vs)
unfolding valid_ids
valid_ids-IsDeviceId [] = tt
valid_ids-IsDeviceId (string s ∷ vs) = ground (arith, valid_ids-IsDeviceId vs)
valid_ids-IsDeviceId (null ∷ vs) = valid_ids-IsDeviceId vs
valid_ids-IsDeviceId (bool b ∷ vs) = valid_ids-IsDeviceId vs
valid_ids-IsDeviceId (number x ∷ vs) = valid_ids-IsDeviceId vs
valid_ids-IsDeviceId (array xs ∷ vs) = valid_ids-IsDeviceId vs
valid_ids-IsDeviceId (object fs ∷ vs) = valid_ids-IsDeviceId vs

update_snapshot-devices :
    (h : Host) (new : Json) (s : Store)
    → (update_snapshot h new s).1.memory.devices ≡ s.memory.devices
unfolding update_snapshot save
update_snapshot-devices h new s = ground arith

run_head-memory : (r : WriteResult) (q : List Text) (s : Store) → (run_head r q s).memory ≡ s.memory
unfolding run_head
run_head-memory r [] s = refl
run_head-memory written (c ∷ q) s = ground arith
run_head-memory (write_failed l) (c ∷ q) s = ground arith
run_head-memory rename_failed (c ∷ q) s = ground arith

-- A write leaves the memory alone.
pub run_write-memory : (r : WriteResult) (s : Store) → (run_write r s).memory ≡ s.memory
unfolding run_write
run_write-memory r s = run_head-memory r s.queue s

add_device-IsValid :
    (h : Host) (id : Text) (s : Store) → IsValid s.memory → IsValid (add_device h id s).1.memory
unfolding add_device save
add_device-IsValid h id s v = ground (
  arith,
  All-append IsDeviceId s.memory.devices (id ∷ []),
  NoRepeat-append id s.memory.devices,
  length-append s.memory.devices (id ∷ []),
)

remove_device-IsValid :
    (h : Host) (id : Text) (s : Store) → IsValid s.memory → IsValid (remove_device h id s).1.memory
unfolding remove_device save without
remove_device-IsValid h id s v = ground (
  arith,
  All-keep IsDeviceId (λ (item : Text). not (text_eq item id)) s.memory.devices v.valid,
  NoRepeat-without id s.memory.devices v.no_repeat,
  length-keep-le (λ (item : Text). not (text_eq item id)) s.memory.devices,
)

pub step-IsValid :
    (h : Host) (c : Call) (s : Store) → IsValid s.memory → IsValid (step h s c).memory
unfolding step
step-IsValid h (updates new) s v =
    let e = update_snapshot-devices h new s in
    record { valid = rw e v.valid; no_repeat = rw e v.no_repeat; bounded = rw e v.bounded }
step-IsValid h (adds id) s v = add_device-IsValid h id s v
step-IsValid h (removes id) s v = remove_device-IsValid h id s v
step-IsValid h (writes r) s v = rw (run_write-memory r s) v

-- Whatever the calls, snapshot updates, additions, removals and writes that succeed or fail: the
-- devices of the state stay valid device IDs, none twice, at most twenty.
pub run-IsValid :
    (h : Host) (cs : List Call) (s : Store) → IsValid s.memory → IsValid (run h s cs).memory
unfolding run
run-IsValid h [] s v = v
run-IsValid h (c ∷ cs) s v = run-IsValid h cs (step h s c) (step-IsValid h c s v)

-- The list of the file, filtered, without repetitions and cut.
kept-IsValid :
    (v : Json) (vs : List Json)
    → IsValid (record { snapshot = v; devices = take device_limit (distinct (valid_ids vs)) })
kept-IsValid v vs = record {
  valid =
      All-take IsDeviceId device_limit (distinct (valid_ids vs))
        (All-distinct IsDeviceId (valid_ids vs) (valid_ids-IsDeviceId vs));
  no_repeat =
      NoRepeat-take device_limit (distinct (valid_ids vs)) (distinct-NoRepeat (valid_ids vs));
  bounded = omega (arith, length-take device_limit (distinct (valid_ids vs)));
}

devices_of-IsValid :
    (v w : Json) (ids : List Text)
    → devices_of v ≡ some ids
    → IsValid (record { snapshot = w; devices = ids })
unfolding devices_of
devices_of-IsValid v w ids e = elim (Option-cases (get_field (codes "devices") v)) [
  | inl missing ↦ cc (rw (missing, devices_of) at e)
  | inr (ids', found) ↦ elim (Option-cases (as_array ids')) [
    | inl other ↦ cc (rw (found, other, devices_of) at e)
    | inr (vs, arr) ↦
        let same : take device_limit (distinct (valid_ids vs)) ≡ ids =
          cc (rw (found, arr, devices_of) at e) in
        subst (λ l. IsValid (record { snapshot = w; devices = l })) same (kept-IsValid w vs)
  ]
]

-- How loading ends: a missing file gives the empty state, and one that cannot be read an error. A text
-- that is not JSON, or whose value has no list of devices or another version, is an error; any other
-- gives the value's snapshot, and devices that are valid, distinct and at most twenty.
abbrev pub IsLoaded : Host → Reading → Loaded → Type 0
IsLoaded h not_found r = r ≡ loaded empty_state
IsLoaded h unreadable r = r ≡ load_error
IsLoaded h (contents text) load_error =
    (h.json_parse text ≡ none)
    ⊎ ((v : Json) × (h.json_parse text ≡ some v)
        × ((devices_of v ≡ none) ⊎ (has_version v ≡ false)))
IsLoaded h (contents text) (loaded d) =
    (v : Json) × (h.json_parse text ≡ some v)
    × ((has_version v ≡ true)
        × (d.snapshot ≡ or_else (get_field (codes "snapshot") v) null)
        × (devices_of v ≡ some d.devices)
        × IsValid d)

load_devices-IsLoaded :
    (h : Host) (text : Text) (v : Json) (o : Option (List Text))
    → h.json_parse text ≡ some v
    → devices_of v ≡ o
    → IsLoaded h (contents text) (load_devices v o)
unfolding load_devices
load_devices-IsLoaded h text v none p e = inr (v, p, inl e)
load_devices-IsLoaded h text v (some ids) p e = elim (Bool-cases (has_version v)) [
  | inl good ↦ simp good (
    v,
    p,
    (good, refl, e, devices_of-IsValid v (or_else (get_field (codes "snapshot") v) null) ids e),
  )
  | inr bad ↦ simp bad (inr (v, p, inr bad))
]

parsed-IsLoaded :
    (h : Host) (text : Text) (o : Option Json)
    → h.json_parse text ≡ o
    → IsLoaded h (contents text) (elim o [ none ↦ load_error | some v ↦ load_parsed v ])
unfolding load_parsed
parsed-IsLoaded h text none e = inl e
parsed-IsLoaded h text (some v) e = load_devices-IsLoaded h text v (devices_of v) e refl

-- A missing file is loaded as the empty state, and a file that cannot be read gives an error. A file's
-- text gives an error exactly where it is no JSON, has no list of devices or has another version;
-- else its snapshot is kept, and its devices are those that the filter leaves of the
-- list: valid, distinct and at most twenty.
pub load-IsLoaded : (h : Host) (r : Reading) → IsLoaded h r (load h r)
unfolding load
load-IsLoaded h (contents text) = parsed-IsLoaded h text (h.json_parse text) refl
load-IsLoaded h not_found = refl
load-IsLoaded h unreadable = refl
