-- ===== src/Relay/Skill.antt =====
-- integrations/alexa-relay/src/app.js: the request handlers of the skill. The SDK passes a request to
-- the first handler whose `canHandle` holds, and an error, or a request that none handles, to the error
-- handler.
pub mod Routing
pub mod Effects
pub mod Tests
use helio.Prelude.{
  ℕ, ◌+◌, Bool, true, false, ◌&&◌, ◌||◌, Option, none, some, List, [], ◌∷◌, ◌++◌, if◌then◌else◌,
  or_else,
}
use helio.Js.Text.{Text, codes, text_eq, starts_with}
use helio.Js.Number.{Number, whole, nan, less_than, round}
use helio.Js.Json.{
  Json, null, bool, number, string, array, object, get_field, as_string, as_bool, truthy,
}
use helio.Js.Host.{Host}
use helio.Relay.State.{
  Store, Outcome, unchanged, saving, limit_reached, device_prefix, add_device, remove_device,
  snapshot,
}

-- What the handlers read of `input.requestEnvelope`.
pub record Envelope : Type 0 where
  pub type : Text
  pub intent : Text
  pub device : Option Json

pub record Response : Type 0 where
  pub speech : Option Text
  pub ends_session : Bool

pub data Handler : Type 0 where
  package_installed package_removed data_store_error launch help stop session_ended : Handler

-- In the order of `addRequestHandlers`.
abbrev pub handlers : List Handler
handlers =
    package_installed ∷ package_removed ∷ data_store_error ∷ launch ∷ help ∷ stop ∷ session_ended
    ∷ []

abbrev pub installed_type : Text
installed_type = codes "Alexa.DataStore.PackageManager.UsagesInstalled"

abbrev pub removed_type : Text
removed_type = codes "Alexa.DataStore.PackageManager.UsagesRemoved"

is_intent : Envelope → Bool
is_intent e = text_eq e.type (codes "IntentRequest")

-- `canHandle`
unfoldable pub can_handle : Handler → Envelope → Bool
unfolding is_intent
can_handle package_installed e = text_eq e.type installed_type
can_handle package_removed e = text_eq e.type removed_type
can_handle data_store_error e = starts_with (codes "Alexa.DataStore.") e.type
can_handle launch e =
    text_eq e.type (codes "LaunchRequest")
    || (is_intent e && text_eq e.intent (codes "GetSolarIntent"))
can_handle help e =
    is_intent e
    && (text_eq e.intent (codes "AMAZON.HelpIntent")
        || text_eq e.intent (codes "AMAZON.FallbackIntent"))
can_handle stop e =
    is_intent e
    && (text_eq e.intent (codes "AMAZON.CancelIntent")
        || text_eq e.intent (codes "AMAZON.StopIntent"))
can_handle session_ended e = text_eq e.type (codes "SessionEndedRequest")

unfoldable pub first_handler : List Handler → Envelope → Option Handler
first_handler [] e = none
first_handler (x ∷ xs) e = if can_handle x e then some x else first_handler xs e

-- The handler of a request.
unfoldable pub route : Envelope → Option Handler
unfolding first_handler
route e = first_handler handlers e

-- `deviceId(input)`; `none` is the error that it throws.
unfoldable pub device_id : Envelope → Option Text
device_id e = elim (as_string e.device) [
  | none ↦ none
  | some id ↦ if starts_with device_prefix id then some id else none
]

-- `Number(value)`, as arithmetic and comparison apply it to a property.
unfoldable pub number_of : Host → Option Json → Number
number_of h none = nan
number_of h (some null) = whole 0
number_of h (some (bool b)) = if b then whole 1 else whole 0
number_of h (some (number x)) = x
number_of h (some (string s)) = h.to_number (string s)
number_of h (some (array vs)) = h.to_number (array vs)
number_of h (some (object fs)) = h.to_number (object fs)

-- The power as `launchHandler` speaks it.
unfoldable pub spoken_power : Host → Json → Text
unfolding number_of round
spoken_power h v =
    let power = number_of h (get_field (codes "acPowerW") v) in
    if less_than power 1000
    then h.number_text (round power) ++ codes " watts"
    else h.format_number 0 2 (h.divide_1000 power) ++ codes " quilowatts"

-- `snapshot.stale ? … : …`
abbrev pub is_stale : Json → Bool
is_stale v = truthy (or_else (get_field (codes "stale") v) null)

abbrev pub silent : Response
silent = record { speech = none; ends_session = false }

abbrev pub says : Text → Bool → Response
says text ends = record { speech = some text; ends_session = ends }

abbrev pub error_response : Response
error_response = says (codes "Não consegui consultar o Helio agora.") true

unfoldable pub launch_response : Host → Json → Response
unfolding spoken_power
launch_response h v =
    if truthy v
    then says
        (if is_stale v
          then codes "Dados desatualizados. Última potência registrada: "
            ++ (spoken_power h v ++ codes ".")
          else codes "Geração solar atual: " ++ (spoken_power h v ++ codes "."))
        true
    else says (codes "Helio ainda não recebeu dados da geração solar.") true

-- What a request has done when it responds or first waits: `then_push` says whether `schedulePush` is
-- called before the response.
pub data Handling : Type 0 where
  responded : Response → (then_push : Bool) → Handling
  -- the save is awaited
  awaits : (then_push : Bool) → Handling

install_result : Outcome × Store → Handling × Store
install_result (unchanged, s) = (responded silent true, s)
install_result (saving, s) = (awaits true, s)
install_result (limit_reached, s) = (responded error_response false, s)

remove_result : Outcome × Store → Handling × Store
remove_result (unchanged, s) = (responded silent false, s)
remove_result (saving, s) = (awaits false, s)
remove_result (limit_reached, s) = (responded error_response false, s)

with_device : (Text → Handling × Store) → Option Text → Store → Handling × Store
with_device f none s = (responded error_response false, s)
with_device f (some id) s = f id

run_handler : Host → Option Handler → Envelope → Store → Handling × Store
unfolding install_result remove_result with_device launch_response
run_handler h none e s = (responded error_response false, s)
run_handler h (some package_installed) e s =
    with_device (λ id. install_result (add_device h id s)) (device_id e) s
run_handler h (some package_removed) e s =
    with_device (λ id. remove_result (remove_device h id s)) (device_id e) s
run_handler h (some data_store_error) e s = (responded silent false, s)
run_handler h (some launch) e s = (responded (launch_response h (snapshot s)) false, s)
run_handler h (some help) e s = (
  responded (says (codes "Diga: Alexa, abrir Helio, para ouvir a geração solar atual.") false)
      false,
  s,
)
run_handler h (some stop) e s = (responded (says (codes "Até logo.") false) false, s)
run_handler h (some session_ended) e s = (responded silent false, s)

-- A request of Alexa, up to its response or the save that it awaits.
unfoldable pub handle : Host → Envelope → Store → Handling × Store
unfolding run_handler
handle h e s = run_handler h (route e) e s

-- How an awaited save ends: the handler schedules a push, if it is the one for an installation, or the
-- error handler speaks.
unfoldable pub resume : (saved then_push : Bool) → Response × Bool
resume true then_push = (silent, then_push)
resume false then_push = (error_response, false)
