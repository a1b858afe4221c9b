-- ===== src/Relay/State/Reload.antt =====
-- state.js: reading back what a save wrote.
use helio.Prelude.{
  All, ℕ, ◌≡◌, ◌≤◌, refl, some, List, [], ◌∷◌, arith, length, take, map, zero, suc, ap,
}
use helio.Js.Text.{Text, text_eq}
use helio.Js.Json.{string, elements, of_list, find_field}
use helio.Js.Host.{Host}
use helio.Relay.State.{
  Data, state_json, content, load, load_parsed, devices_of, load_devices, loaded, contents,
  distinct, valid_ids,
}
use helio.Relay.State.Devices.{IsValid, NoRepeat, IsDeviceId, without-absent}

take_all {ℓ} :
    {A : Type ℓ} (xs : List A) (bound : ℕ) (fits : length xs ≤ bound) → take bound xs ≡ xs
take_all [] zero fits = refl
take_all [] (suc bound) fits = refl
take_all (x ∷ xs) zero fits = absurd (omega arith)
take_all (x ∷ xs) (suc bound) fits = ap (◌∷◌ x) (take_all xs bound (omega arith))

distinct_of_NoRepeat : (xs : List Text) → NoRepeat xs → distinct xs ≡ xs
unfolding distinct
distinct_of_NoRepeat [] h = refl
distinct_of_NoRepeat (x ∷ xs) (h, hs) =
    rw (distinct_of_NoRepeat xs hs) (ap (◌∷◌ x) (without-absent x xs h))

valid_ids-strings :
    (xs : List Text) → All IsDeviceId xs → valid_ids (elements (of_list (map string xs))) ≡ xs
unfolding valid_ids
valid_ids-strings [] h = refl
valid_ids-strings (x ∷ xs) (h, hs) = ground (arith, valid_ids-strings xs hs)

load_parsed-state_json : (d : Data) → IsValid d → load_parsed (state_json d) ≡ loaded d
unfolding load_parsed state_json devices_of load_devices find_field text_eq
load_parsed-state_json d v =
    rw
      (
        valid_ids-strings d.devices v.valid,
        distinct_of_NoRepeat d.devices v.no_repeat,
        take_all d.devices 20 v.bounded,
      )
      refl

-- A valid state survives a restart unchanged, where parsing the text that was written for it gives its
-- object back.
pub load-content :
    (h : Host) (d : Data)
    → IsValid d
    → h.json_parse (content h d) ≡ some (state_json d)
    → load h (contents (content h d)) ≡ loaded d
unfolding load
load-content h d v back = rw (back, load) (load_parsed-state_json d v)
