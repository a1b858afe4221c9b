-- ===== src/Relay/Client/Widget.antt =====
-- integrations/alexa-relay/src/alexa-client.js: `displaySnapshot` and `formatEnergy`.
use helio.Prelude.{Bool, false, Option, none, some, ◌++◌, ◌∷◌, if◌then◌else◌}
use helio.Js.Text.{Text, codes, text_eq}
use helio.Js.Number.{Number, less_than}
use helio.Js.Json.{Json, get_field, as_string, as_bool}
use helio.Js.Host.{Host}
use helio.Relay.State.{observed_at}
use helio.Relay.Skill.{number_of}

-- The object that the widget shows.
pub record Display : Type 0 where
  pub power : Text
  pub energy_today : Text
  pub status : Text
  pub status_color : Text
  pub updated : Text
  pub observed_at : Option Json
  pub stale : Bool

-- `formatEnergy(value, baseUnit, kiloUnit)`
unfoldable pub format_energy : Host → Number → Text → Text → Text
format_energy h value base_unit kilo_unit =
    if less_than value 1000
    then h.format_number 0 0 value ++ (32 ∷ base_unit)
    else h.format_number 2 2 (h.divide_1000 value) ++ (32 ∷ kilo_unit)

-- `snapshot.stale === true` and `snapshot.status === 'normal'`
unfoldable pub is_true : Option Bool → Bool
is_true none = false
is_true (some b) = b

unfoldable pub is_normal : Option Text → Bool
is_normal none = false
is_normal (some s) = text_eq s (codes "normal")

-- `displaySnapshot(snapshot, timezone)`, where `observedAt` is a text; a date that cannot be read makes the formatter throw.
unfoldable pub display_snapshot : Host → Text → Json → Option Display
unfolding format_energy is_true is_normal
display_snapshot h timezone v = elim (observed_at h v) [
  | none ↦ none
  | some time ↦
      let stale = is_true (as_bool (get_field (codes "stale") v)) in
      let normal = is_normal (as_string (get_field (codes "status") v)) in
      some (record {
        power =
            format_energy h (number_of h (get_field (codes "acPowerW") v)) (codes "W") (codes "kW");
        energy_today =
            format_energy h (number_of h (get_field (codes "energyTodayWh") v)) (codes "Wh")
              (codes "kWh");
        status =
            if stale
            then codes "Dados desatualizados"
            else if normal
            then codes "Sistema normal"
            else codes "Verificar sistema";
        status_color =
            if stale then codes "#D6A84B" else if normal then codes "#56C596" else codes "#F07A6A";
        updated = codes "Atualizado " ++ h.format_clock timezone time;
        observed_at = get_field (codes "observedAt") v;
        stale = stale;
      })
]
