-- ===== src/Relay/Skill/Tests.antt =====
-- app.js, server.js: requests of the skill, and a start of the relay.
use helio.Prelude.{◌&&◌, not, ◌≡◌, refl, true, false, none, some, [], arith, replicate}
use helio.Js.Text.{codes, text_eq, starts_with, trim}
use helio.Js.Json.{null, string, find_field}
use helio.Js.Host.{Host}
use helio.Js.Toy.{toy}
use helio.Relay.State.{
  Store, empty_state, includes, add_device, remove_device, save, snapshot, valid_device_id, without,
}
use helio.Relay.State.Devices.{IsValid}
use helio.Relay.Skill.{
  Envelope, data_store_error, package_installed, package_removed, launch, help, stop, session_ended,
  route, can_handle, device_id, handle, error_response, responded, awaits, says, installed_type,
  removed_type,
}
use helio.Relay.Skill.Effects.{handle-removed}
use helio.Relay.Server.{Base64, Environment, Config, start}
use helio.Relay.Server.Laws.{IsReady, start-IsReady}

skill_code : Unit {0}
unfolding route can_handle device_id handle text_eq starts_with includes add_device remove_device
    save snapshot find_field valid_device_id without
skill_code = tt

abbrev host : Host
host = toy null

abbrev empty_store : Store
empty_store = record {
  memory = empty_state;
  queue = [];
  rejected = false;
  file = none;
  temporary = none;
}

abbrev envelope : Envelope
envelope = record {
  type = installed_type;
  intent = [];
  device = some (string (codes "amzn1.ask.device.a"));
}

abbrev intent : Envelope
intent = record { type = codes "IntentRequest"; intent = codes "GetSolarIntent"; device = none }

routes :
    (route envelope ≡ some package_installed)
    × (route (record envelope { type = removed_type }) ≡ some package_removed)
    × (route (record envelope { type = codes "Alexa.DataStore.Error" }) ≡ some data_store_error)
    × (route intent ≡ some launch)
    × (route (record intent { intent = codes "AMAZON.FallbackIntent" }) ≡ some help)
    × (route (record intent { intent = codes "AMAZON.StopIntent" }) ≡ some stop)
    × (route (record intent { intent = codes "Other" }) ≡ none)
    × (route (record intent { type = codes "SessionEndedRequest" }) ≡ some session_ended)
unfolding skill_code
routes = (refl, refl, refl, refl, refl, refl, refl, refl)

no_data :
    (handle host intent empty_store).0
    ≡ responded (says (codes "Helio ainda não recebeu dados da geração solar.") true) false
unfolding skill_code
no_data = refl

installs : (handle host envelope empty_store).0 ≡ awaits true
unfolding skill_code
installs = refl

no_device :
    (handle host (record envelope { device = none }) empty_store).0 ≡ responded error_response false
unfolding skill_code
no_device = refl

empty-IsValid : IsValid empty_store.memory
empty-IsValid = record { valid = tt; no_repeat = tt; bounded = omega arith }

handle-removed_example :
    includes
      (codes "b")
      (handle host (record envelope { type = removed_type }) empty_store).1.memory.devices
    ≡ (includes (codes "b") empty_store.memory.devices
        && not (text_eq (codes "amzn1.ask.device.a") (codes "b")))
unfolding skill_code
handle-removed_example =
    handle-removed host (record envelope { type = removed_type }) empty_store
      (codes "amzn1.ask.device.a") (codes "b") refl refl

-- A codec that keeps every text.
abbrev plain : Base64
plain = record { decode = λ t. t; encode = λ b. b }

abbrev environment : Environment
environment = record {
  shared_secret = replicate 32 b'k';
  skill_id = some (codes " amzn1.ask.skill.0 ");
  client_id = some (codes "c");
  client_secret = some (codes "s");
}

abbrev config : Config
config = record {
  secret = replicate 32 b'k';
  skill = codes "amzn1.ask.skill.0";
  client = codes "c";
  client_key = codes "s";
}

starts : start plain environment ≡ some config
unfolding start text_eq starts_with trim
starts = refl

start-IsReady_example : IsReady plain environment config
start-IsReady_example = start-IsReady plain environment config starts
