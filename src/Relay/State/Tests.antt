-- ===== src/Relay/State/Tests.antt =====
-- state.js: runs of the store, and the theorems at concrete inputs.
use helio.Prelude.{◌≡◌, ◌⊎◌, refl, true, false, none, some, List, [], ◌∷◌, pos, arith}
use helio.Js.Text.{Text, codes, text_eq}
use helio.Js.Json.{Json, string, object, field, end, find_field}
use helio.Js.Toy.{toy}
use helio.Js.Host.{Host}
use helio.Relay.State.{
  Data, Store, empty_state, load, contents, loaded, snapshot, update_snapshot, add_device,
  remove_device, save, run_write, run, step, updates, adds, removes, writes, written, write_failed,
  rename_failed, content, state_json, Call, observed_at, includes,
}
use helio.Relay.State.Devices.{IsValid, IsLoaded, load-IsLoaded, run-IsValid}
use helio.Relay.State.Freshness.{IsDated, NotAfter, stored_time, run-NotAfter}
use helio.Relay.State.Durable.{outcome, file-after_save, file-after_failure}
use helio.Relay.State.Atomic.{IsContent, file-IsContent}
use helio.Relay.State.Reload.{load-content}

store_code : Unit {0}
unfolding load snapshot update_snapshot add_device remove_device save run_write run step content
    state_json outcome text_eq find_field observed_at includes
store_code = tt

abbrev dated : Text → Json
dated t = object (field (codes "observedAt") (string t) end)

abbrev start : Store
start = record { memory = empty_state; queue = []; rejected = false; file = none; temporary = none }

abbrev device : Text
device = codes "amzn1.ask.device.a"

abbrev holding : Data
holding = record { snapshot = dated (codes "20"); devices = device ∷ [] }

abbrev host : Host
host = toy (state_json holding)

abbrev calls : List Call
calls =
    updates (dated (codes "20"))
    ∷ updates (dated (codes "10"))
    ∷ adds device
    ∷ adds device
    ∷ adds (codes "other")
    ∷ writes written
    ∷ writes written
    ∷ []

-- The later snapshot stays, the device is added once, and the last content is in the file.
run_test :
    ((run host start calls).memory ≡ holding)
    × ((run host start calls).queue ≡ [])
    × ((run host start calls).file ≡ some (content host holding))
unfolding store_code
run_test = (refl, refl, refl)

-- A failed write leaves the file as it was, for good.
failure_test :
    (run host start
      (adds device ∷ writes (write_failed none) ∷ removes device ∷ writes written ∷ [])).file
    ≡ none
unfolding store_code
failure_test = refl

start-IsValid : IsValid start.memory
start-IsValid = record { valid = tt; no_repeat = tt; bounded = omega arith }

holding-IsValid : IsValid holding
unfolding store_code
holding-IsValid = record { valid = (refl, tt); no_repeat = (refl, tt); bounded = omega arith }

dated_20 : IsDated host (dated (codes "20"))
unfolding store_code
dated_20 = record { present = refl; time = pos 20; dated = refl }

dated_10 : IsDated host (dated (codes "10"))
unfolding store_code
dated_10 = record { present = refl; time = pos 10; dated = refl }

run-IsValid_example : IsValid (run host start calls).memory
run-IsValid_example = run-IsValid host calls start start-IsValid

load-holding : load host (contents []) ≡ loaded holding
unfolding store_code
load-holding = refl

load-IsLoaded_example : IsLoaded host (contents []) (load host (contents []))
load-IsLoaded_example = load-IsLoaded host (contents [])

run-NotAfter_example :
    NotAfter
      (stored_time host (record start { memory = holding }))
      (stored_time host (run host (record start { memory = holding }) calls))
run-NotAfter_example =
    run-NotAfter host calls (record start { memory = holding }) dated_20
      (dated_20, (dated_10, (tt, (tt, (tt, (tt, (tt, tt)))))))

file-after_save_example :
    (run host start (adds device ∷ writes written ∷ [])).file
    ≡ some (content host (run host start (adds device ∷ writes written ∷ [])).memory)
unfolding store_code
file-after_save_example =
    file-after_save host start (adds device) (writes written ∷ []) refl refl refl

-- A store whose only write is that of the empty state.
abbrev waiting : Store
waiting = record start { queue = codes "{}" ∷ [] }

file-after_failure_example :
    ((run host waiting (writes rename_failed ∷ calls)).file ≡ none)
    × ((run host waiting (writes rename_failed ∷ calls)).rejected ≡ true)
file-after_failure_example =
    file-after_failure host rename_failed (codes "{}") [] calls waiting refl (λ e. cc)

file-IsContent_example :
    ((run host start calls).file ≡ none)
    ⊎ ((c : Text) × IsContent host c × ((run host start calls).file ≡ some c))
file-IsContent_example = file-IsContent host calls start start-IsValid refl

load-content_example : load host (contents (content host holding)) ≡ loaded holding
load-content_example = load-content host holding holding-IsValid refl
