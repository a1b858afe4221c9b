-- ===== src/Relay/State.antt =====
-- integrations/alexa-relay/src/state.js: the state of the relay in memory, the queue of writes and
-- the state file.
pub mod Devices
pub mod Freshness
pub mod Durable
pub mod Atomic
pub mod Reload
pub mod Tests
use helio.Prelude.{
  ℕ, zero, suc, ◌≡◌, Bool, true, false, ◌&&◌, ◌||◌, not, Option, none, some, List, [], ◌∷◌, ◌++◌,
  ltb, leb, if◌then◌else◌, or_else, length, take, keep, any, map, ℤ, ltbℤ, ◌==◌,
}
use helio.Js.Text.{Text, codes, text_eq, starts_with}
use helio.Js.Number.{whole, equals}
use helio.Js.Json.{
  Json, null, string, array, object, number, Fields, end, field, elements, of_list, get_field,
  truthy, as_array, as_number, as_string,
}
use helio.Js.Host.{Host}

abbrev pub device_prefix : Text
device_prefix = codes "amzn1.ask.device."

abbrev pub device_limit : ℕ
device_limit = 20

-- `validDeviceId` of a string; anything else is invalid.
unfoldable pub valid_device_id : Text → Bool
unfolding starts_with
valid_device_id value = starts_with device_prefix value && leb (length value) 512

-- `#data`, less its constant version.
pub record Data : Type 0 where
  pub snapshot : Json
  pub devices : List Text

abbrev pub empty_state : Data
empty_state = record { snapshot = null; devices = [] }

-- The object that is written to the file.
unfoldable pub state_json : Data → Json
state_json d = object (
    field (codes "version") (number (whole 1)) (
      field (codes "snapshot") d.snapshot
        (field (codes "devices") (array (of_list (map string d.devices))) end)))

-- `devices.includes(id)`
unfoldable pub includes : Text → List Text → Bool
includes id [] = false
includes id (x ∷ xs) = text_eq x id || includes id xs

-- `devices.filter((item) => item !== id)`
unfoldable pub without : Text → List Text → List Text
unfolding keep
without id = keep (λ item. not (text_eq item id))

-- `[...new Set(ids)]`
unfoldable pub distinct : List Text → List Text
unfolding without
distinct [] = []
distinct (x ∷ xs) = x ∷ without x (distinct xs)

-- `values.filter(validDeviceId)`
unfoldable pub valid_ids : List Json → List Text
unfolding valid_device_id
valid_ids [] = []
valid_ids (v ∷ vs) =
    let rest = valid_ids vs in
    elim (as_string (some v)) [
      | none ↦ rest
      | some id ↦ if valid_device_id id then id ∷ rest else rest
    ]

-- What reading the file gives: its text, the error ENOENT, or another error.
pub data Reading : Type 0 where
  contents : Text → Reading
  not_found : Reading
  unreadable : Reading

pub data Loaded : Type 0 where
  loaded : Data → Loaded
  load_error : Loaded

-- The devices that a state read from the file keeps, if it has an array of them.
pub devices_of : Json → Option (List Text)
unfolding valid_ids distinct
devices_of parsed = elim (get_field (codes "devices") parsed) [
  | none ↦ none
  | some ids ↦ elim (as_array ids) [
    | none ↦ none
    | some vs ↦ some (take device_limit (distinct (valid_ids vs)))
  ]
]

pub has_version : Json → Bool
has_version parsed = elim (as_number (get_field (codes "version") parsed)) [
  | none ↦ false
  | some v ↦ equals v 1
]

load_devices : Json → Option (List Text) → Loaded
unfolding has_version
load_devices parsed none = load_error
load_devices parsed (some ids) =
    if has_version parsed
    then loaded
        (record { snapshot = or_else (get_field (codes "snapshot") parsed) null; devices = ids })
    else load_error

load_parsed : Json → Loaded
unfolding devices_of load_devices
load_parsed parsed = load_devices parsed (devices_of parsed)

-- `load()`; a missing file leaves the empty state.
unfoldable pub load : Host → Reading → Loaded
unfolding load_parsed
load h (contents text) = elim (h.json_parse text) [ none ↦ load_error | some v ↦ load_parsed v ]
load h not_found = loaded empty_state
load h unreadable = load_error

-- The store: `memory` is `#data`, `queue` holds the contents whose write is not yet done, in order,
-- and `rejected` says that the promise `#writeQueue` is, or will be, rejected by a failed write.
pub record Store : Type 0 where
  pub memory : Data
  pub queue : List Text
  pub rejected : Bool
  pub file : Option Text
  pub temporary : Option Text

-- `snapshot()`
unfoldable pub snapshot : Store → Json
snapshot s = if truthy s.memory.snapshot then s.memory.snapshot else null

-- `${JSON.stringify(this.#data)}\n`
unfoldable pub content : Host → Data → Text
content h d = h.json_stringify (state_json d) ++ 10 ∷ []

-- `#save()` up to its `await`: the content is taken now and its write joins the queue.
unfoldable pub save : Host → Store → Store
save h s = record s { queue = s.queue ++ content h s.memory ∷ [] }

-- What a method has done when it returns or first waits: nothing, or a change whose save is awaited.
pub data Outcome : Type 0 where
  unchanged saving limit_reached : Outcome

-- `Date.parse(value)`
unfoldable pub date_of : Host → Option Json → Option ℤ
date_of h none = none
date_of h (some v) = elim (as_string (some v)) [
  | none ↦ h.date_parse (h.to_text v)
  | some s ↦ h.date_parse s
]

-- `a > b` where NaN compares false.
abbrev pub later : Option ℤ → Option ℤ → Bool
later (some a) (some b) = ltbℤ b a
later (some a) none = false
later none b = false

unfoldable pub observed_at : Host → Json → Option ℤ
unfolding date_of
observed_at h v = date_of h (get_field (codes "observedAt") v)

-- `updateSnapshot(snapshot)`
unfoldable pub update_snapshot : Host → Json → Store → Outcome × Store
update_snapshot h new s =
    let current = s.memory.snapshot in
    if truthy current && later (observed_at h current) (observed_at h new)
    then (unchanged, s)
    else if truthy current && text_eq (h.json_stringify current) (h.json_stringify new)
    then (unchanged, s)
    else (saving, save h (record s { memory = record s.memory { snapshot = new } }))

-- `addDevice(deviceId)`
unfoldable pub add_device : Host → Text → Store → Outcome × Store
add_device h id s =
    if not (valid_device_id id) || includes id s.memory.devices
    then (unchanged, s)
    else if leb device_limit (length s.memory.devices)
    then (limit_reached, s)
    else (
      saving,
      save h (record s { memory = record s.memory { devices = s.memory.devices ++ id ∷ [] } }),
    )

-- `removeDevice(deviceId)`
unfoldable pub remove_device : Host → Text → Store → Outcome × Store
remove_device h id s =
    let devices = without id s.memory.devices in
    if length devices == length s.memory.devices
    then (unchanged, s)
    else (saving, save h (record s { memory = record s.memory { devices = devices } }))

-- How one queued write goes: `writeFile` may fail and leave anything in the temporary file, then
-- `rename` may fail.
pub data WriteResult : Type 0 where
  written : WriteResult
  write_failed : Option Text → WriteResult
  rename_failed : WriteResult

perform : WriteResult → Text → List Text → Store → Store
perform written c rest s = record s { queue = rest; file = some c; temporary = none }
perform (write_failed left) c rest s = record s { queue = rest; rejected = true; temporary = left }
perform rename_failed c rest s = record s { queue = rest; rejected = true; temporary = some c }

run_head : WriteResult → List Text → Store → Store
unfolding perform
run_head r [] s = s
run_head r (c ∷ rest) s = if s.rejected then record s { queue = rest } else perform r c rest s

-- The next queued write runs. After a failed one `then` skips its callback: nothing is written.
unfoldable pub run_write : WriteResult → Store → Store
unfolding run_head
run_write r s = run_head r s.queue s

-- The calls that change a store, in any order.
pub data Call : Type 0 where
  updates : Json → Call
  adds removes : Text → Call
  writes : WriteResult → Call

unfoldable pub step : Host → Store → Call → Store
step h s (updates new) = (update_snapshot h new s).1
step h s (adds id) = (add_device h id s).1
step h s (removes id) = (remove_device h id s).1
step h s (writes r) = run_write r s

unfoldable pub run : Host → Store → List Call → Store
unfolding step
run h s [] = s
run h s (c ∷ cs) = run h (step h s c) cs
