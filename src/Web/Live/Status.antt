-- ===== src/Web/Live/Status.antt =====
-- useLiveTelemetry.ts: the state of the connection, and its announcement to the listeners.
use helio.Prelude.{
  ℕ, ◌+◌, Bool, true, false, not, ◌&&◌, ◌||◌, ◌==◌, ◌++◌, Option, none, some, List, [], ◌∷◌,
  if◌then◌else◌, or_else, length, ℤ, pos, ltbℤ, ◌-ℤ◌,
}
use helio.Js.Text.{Text, codes, text_eq}
use helio.Js.Number.{nan}
use helio.Js.Json.{Json, get_field, as_array, as_number}
use helio.Js.Host.{Host}
use helio.Web.Live.{LiveState, StreamState, connecting, connected, reconnecting, is_text}

pub data ConnectionState : Type 0 where
  live loading offline retrying outdated unavailable : ConnectionState

-- What the hook reads of the query, the browser and its own state.
pub record Inputs : Type 0 where
  pub is_offline : Bool
  pub is_error : Bool
  pub is_pending : Bool
  pub shown : Option LiveState
  pub stream : StreamState
  pub clock : ℤ

-- `query.data?.lastSuccess ? Date.parse(query.data.lastSuccess) : NaN`
unfoldable pub last_success_at : Host → Option LiveState → Option ℤ
last_success_at h none = none
last_success_at h (some s) = elim s.last_success [
  | none ↦ none
  | some text ↦ if text_eq text [] then none else h.date_parse text
]

-- `Number.isFinite(lastSuccessAt) && clock - lastSuccessAt > 30_000`
unfoldable pub is_old : ℤ → Option ℤ → Bool
is_old clock none = false
is_old clock (some t) = ltbℤ (pos 30000) (clock -ℤ t)

abbrev pub has_snapshot : Option LiveState → Bool
has_snapshot none = false
has_snapshot (some s) = elim s.snapshot [ none ↦ false | some v ↦ true ]

abbrev pub is_stale : Option LiveState → Bool
is_stale none = false
is_stale (some s) = s.stale

abbrev pub is_connecting : StreamState → Bool
is_connecting connecting = true
is_connecting connected = false
is_connecting reconnecting = false

abbrev pub is_reconnecting : StreamState → Bool
is_reconnecting connecting = false
is_reconnecting connected = false
is_reconnecting reconnecting = true

-- The `connectionState` of the hook.
unfoldable pub connection_state : Host → Inputs → ConnectionState
connection_state h i =
    if i.is_offline
    then offline
    else if not (has_snapshot i.shown) && i.is_error
    then unavailable
    else if i.is_pending || is_connecting i.stream
    then loading
    else if is_reconnecting i.stream
    then retrying
    else if is_stale i.shown || is_old i.clock (last_success_at h i.shown)
    then outdated
    else live

-- `connectionLabels`
unfoldable pub label : ConnectionState → Text
label live = codes "Ao vivo"
label loading = codes "Verificando dados"
label offline = codes "Sem conexão"
label retrying = codes "Reconectando"
label outdated = codes "Dados desatualizados"
label unavailable = codes "Dados indisponíveis"

-- `codes.join(', ')`
unfoldable pub join : List Text → Text
join [] = []
join (t ∷ []) = t
join (t ∷ u ∷ rest) = t ++ codes ", " ++ join (u ∷ rest)

abbrev fault_codes : Json → List Json
fault_codes v = elim (get_field (codes "faultCodes") v) [
  | none ↦ []
  | some vs ↦ or_else (as_array vs) []
]

abbrev code_texts : Host → List Json → List Text
code_texts h [] = []
code_texts h (v ∷ vs) = h.number_text (or_else (as_number (some v)) nan) ∷ code_texts h vs

-- `faultAnnouncement(snapshot)`
unfoldable pub fault_announcement : Host → Option Json → Text
unfolding join
fault_announcement h none = codes "Sistema sem falhas ativas."
fault_announcement h (some v) =
    let found = length (fault_codes v) in
    if not (is_text (codes "fault") (get_field (codes "status") v)) && (found == 0)
    then codes "Sistema sem falhas ativas."
    else if found == 0
    then codes "Falha informada pelo inversor. Nenhum código foi informado."
    else codes "Falha informada pelo inversor. Códigos "
      ++ join (code_texts h (fault_codes v))
      ++ codes "."

unfoldable pub announcement : Host → ConnectionState → Option Json → Text
announcement h live snapshot = label live ++ codes ". " ++ fault_announcement h snapshot
announcement h loading snapshot = label loading
announcement h offline snapshot = label offline
announcement h retrying snapshot = label retrying
announcement h outdated snapshot = label outdated
announcement h unavailable snapshot = label unavailable

abbrev code_of : ConnectionState → ℕ
code_of live = 0
code_of loading = 1
code_of offline = 2
code_of retrying = 3
code_of outdated = 4
code_of unavailable = 5

-- `===` on connection states.
unfoldable pub same_state : ConnectionState → ConnectionState → Bool
same_state a b = code_of a == code_of b

-- `sharedStatus`, and how often its listeners were called.
pub record SharedStatus : Type 0 where
  pub text : Text
  pub connection : ConnectionState
  pub calls : ℕ

-- `publishStatus(connectionState, snapshot)`
unfoldable pub publish_status : Host → ConnectionState → Option Json → SharedStatus → SharedStatus
publish_status h c snapshot s =
    let text' = announcement h c snapshot in
    if same_state s.connection c && text_eq s.text text'
    then s
    else record { text = text'; connection = c; calls = s.calls + 1 }
