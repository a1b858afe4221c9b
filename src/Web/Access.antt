-- ===== src/Web/Access.antt =====
-- web/src/app/auth-gate.ts, and the decisions of web/src/app/query-client.ts.
pub mod Laws
pub mod Tests
use helio.Prelude.{
  ℕ, zero, suc, Bool, true, false, Option, none, some, ◌&&◌, ◌||◌, not, leb, ltb, ◌==◌, [], ◌∷◌,
  ◌++◌, if◌then◌else◌, List,
}
use helio.Js.Text.{Text, codes, text_eq, starts_with}
use helio.Web.Browser.{Browser, Url}

-- `AccessDecision`; `redirect` has one of its three paths.
pub data AccessDecision : Type 0 where
  loading render : AccessDecision
  redirect : Text → AccessDecision

pub data SessionAccess : Type 0 where
  checking authenticated anonymous unavailable : SessionAccess

-- What the program reads of an `error`: absent, an `ApiError` with its status, or any other.
pub data QueryError : Type 0 where
  no_error other_error : QueryError
  api_error : ℕ → QueryError

abbrev pub home_path : Text
home_path = codes "/"

abbrev pub login_path : Text
login_path = codes "/login"

abbrev pub bootstrap_path : Text
bootstrap_path = codes "/bootstrap"

-- `classifySessionResult(isSuccess, error)`
unfoldable pub classify_session_result : Bool → QueryError → SessionAccess
classify_session_result true error = authenticated
classify_session_result false no_error = checking
classify_session_result false other_error = unavailable
classify_session_result false (api_error status) = if status == 401 then anonymous else unavailable

-- `resolveAppAccess(path, bootstrapOpen, authenticated)`; `none` is null.
unfoldable pub resolve_app_access : Text → Bool → Option Bool → AccessDecision
resolve_app_access path bootstrap_open session =
    if bootstrap_open
    then (if text_eq path bootstrap_path then render else redirect bootstrap_path)
    else if text_eq path bootstrap_path
    then elim session [
      | none ↦ loading
      | some signed_in ↦ if signed_in then redirect home_path else redirect login_path
    ]
    else if text_eq path login_path
    then render
    else elim session [
      | none ↦ loading
      | some signed_in ↦ if signed_in then render else redirect login_path
    ]

-- The loop of `safeRedirectTarget`: so many passes, or fewer where the text cannot be decoded.
unfoldable pub decode_passes : Browser → ℕ → Text → Text
decode_passes b zero path = path
decode_passes b (suc n) path = elim (b.decode_component path) [
  | none ↦ path
  | some decoded ↦ decode_passes b n decoded
]

-- `decodedPath.startsWith('//') || decodedPath.startsWith('/\\')`
unfoldable pub leaves_origin : Text → Bool
leaves_origin path = starts_with (codes "//") path || starts_with (b'/' ∷ 92 ∷ []) path

-- `destination.pathname === '/login' || destination.pathname === '/bootstrap'`
unfoldable pub is_entry : Text → Bool
is_entry path = text_eq path login_path || text_eq path bootstrap_path

-- `${pathname}${search}${hash}`
abbrev pub relative : Url → Text
relative u = u.pathname ++ (u.search ++ u.hash)

-- `safeRedirectTarget(candidate)`: the part behind `new URL`.
unfoldable pub safe_destination : Browser → Url → Text
safe_destination b u =
    if not (text_eq u.url_origin b.origin)
    then home_path
    else if leaves_origin (decode_passes b 2 u.pathname)
    then home_path
    else if is_entry u.pathname
    then home_path
    else relative u

-- `safeRedirectTarget(candidate)`; `none` is null or undefined.
unfoldable pub safe_redirect_target : Browser → Option Text → Text
safe_redirect_target b none = home_path
safe_redirect_target b (some []) = home_path
safe_redirect_target b (some (c ∷ candidate)) = elim (b.parse_url (c ∷ candidate)) [
  | none ↦ home_path
  | some u ↦ safe_destination b u
]

-- `loginRedirect(destination)`
unfoldable pub login_redirect : Browser → Text → Text
login_redirect b destination =
    let safe = safe_redirect_target b (some destination) in
    if text_eq safe home_path
    then login_path
    else login_path ++ codes "?redirect=" ++ b.encode_component safe

-- `retry(failureCount, error)` of the query client.
unfoldable pub retry : ℕ → QueryError → Bool
retry failures no_error = ltb failures 2
retry failures other_error = ltb failures 2
retry failures (api_error status) =
    if leb 400 status && ltb status 500 then false else ltb failures 2

-- What the unauthorized handler acts on: the CSRF token in memory, whether the session's query is
-- cached, `window.location`, and the calls of `replaceLocation`.
pub record Page : Type 0 where
  pub csrf_token : Option Text
  pub session_cached : Bool
  pub location : Url
  pub replaced : List Text

-- The handler that the query client configures.
unfoldable pub handle_unauthorized : Browser → Page → Page
handle_unauthorized b p =
    let cleared = record p { csrf_token = none; session_cached = false } in
    if not (text_eq p.location.pathname login_path)
      && not (text_eq p.location.pathname bootstrap_path)
    then record cleared { replaced = p.replaced ++ login_redirect b (relative p.location) ∷ [] }
    else cleared
