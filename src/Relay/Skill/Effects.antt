-- ===== src/Relay/Skill/Effects.antt =====
-- app.js: what the handlers do to the devices of the store.
use helio.Relay.State.{
  saving, unchanged, Outcome, limit_reached, Store, remove_device, includes, save,
}
use helio.Relay.Skill.{
  Outcome, Envelope, package_removed, route, device_id, handle, run_handler, with_device,
  remove_result,
}
use helio.Prelude.{◌≡◌, refl, not, ◌&&◌, some, arith}
use helio.Js.Text.{Text, text_eq}
use helio.Js.Host.{Host}
use helio.Relay.State.Devices.{includes-without, without_of_length}

remove_result-store : (r : Outcome × Store) → (remove_result r).1 ≡ r.1
unfolding remove_result
remove_result-store (unchanged, s) = refl
remove_result-store (saving, s) = refl
remove_result-store (limit_reached, s) = refl

remove_device-includes :
    (h : Host) (id other : Text) (s : Store)
    → includes other (remove_device h id s).1.memory.devices
      ≡ (includes other s.memory.devices && not (text_eq id other))
unfolding remove_device save
remove_device-includes h id other s =
    ground
      (arith, includes-without other id s.memory.devices, without_of_length id s.memory.devices)

-- A removal takes the request's device, and no other, off the list.
pub handle-removed :
    (h : Host) (e : Envelope) (s : Store) (id other : Text)
    → route e ≡ some package_removed
    → device_id e ≡ some id
    → includes other (handle h e s).1.memory.devices
      ≡ (includes other s.memory.devices && not (text_eq id other))
unfolding handle with_device
handle-removed h e s id other r d =
    rw (r, d, handle, run_handler, with_device, remove_result-store (remove_device h id s))
      (remove_device-includes h id other s)
