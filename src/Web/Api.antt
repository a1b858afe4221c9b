-- ===== src/Web/Api.antt =====
-- web/src/api/client.ts: the headers of a request, and what its response becomes.
pub mod Laws
pub mod Tests
use helio.Prelude.{
  ℕ, Bool, true, false, not, ◌&&◌, ◌||◌, ◌==◌, Option, none, some, List, [], ◌∷◌, if◌then◌else◌,
  or_else, leb, any,
}
use helio.Js.Text.{Text, codes, text_eq, in_range}
use helio.Js.Number.{Number, is_finite, at_most}
use helio.Js.Json.{Json, get_field, string, null}
use helio.Web.Browser.{Browser, contains}
use helio.Web.Access.{Page, handle_unauthorized}

abbrev pub Headers : Type 0
Headers = List (Text × Text)

-- `headers[name]`
unfoldable pub header : Text → Headers → Option Text
header name [] = none
header name ((key, value) ∷ rest) = if text_eq key name then some value else header name rest

-- `headers[name] = value`
unfoldable pub set_header : Text → Text → Headers → Headers
set_header name value [] = (name, value) ∷ []
set_header name value ((key, old) ∷ rest) =
    let changed = set_header name value rest in
    if text_eq key name then (key, value) ∷ rest else (key, old) ∷ changed

-- `{ ...headers, ...entries }`
unfoldable pub set_headers : Headers → Headers → Headers
unfolding set_header
set_headers headers [] = headers
set_headers headers ((name, value) ∷ entries) = set_headers (set_header name value headers) entries

pub record RequestOptions : Type 0 where
  pub method : Option Text
  -- `new Headers(options.headers).entries()`
  pub entries : Headers
  pub body : Option Json
  pub suppress_unauthorized : Bool

abbrev pub csrf_header : Text
csrf_header = codes "X-CSRF-Token"

-- `MUTATION_METHODS.has(method)`
unfoldable pub is_mutation : Text → Bool
is_mutation method =
    any (text_eq method) (codes "DELETE" ∷ codes "PATCH" ∷ codes "POST" ∷ codes "PUT" ∷ [])

unfoldable pub method_of : Browser → RequestOptions → Text
method_of b options = b.to_upper (or_else options.method (codes "GET"))

-- The token, where the code's test `&& currentToken` passes.
abbrev pub usable_token : Option Text → Option Text
usable_token none = none
usable_token (some []) = none
usable_token (some (c ∷ token)) = some (c ∷ token)

-- `if (hasBody) headers['Content-Type'] = 'application/json'`
unfoldable pub set_content_type : Option Json → Headers → Headers
set_content_type none headers = headers
set_content_type (some body) headers =
    set_header (codes "Content-Type") (codes "application/json") headers

unfoldable pub set_token : Bool → Option Text → Headers → Headers
set_token true (some token) headers = set_header csrf_header token headers
set_token true none headers = headers
set_token false token headers = headers

-- The headers that `request` passes to `fetch`.
unfoldable pub request_headers : Browser → RequestOptions → Option Text → Headers
request_headers b options token =
    set_token (is_mutation (method_of b options)) (usable_token token) (
      set_content_type options.body
        (set_headers ((codes "Accept", codes "application/json") ∷ []) options.entries))

-- A response: `json` is what `response.json()` gives, `none` if it throws.
pub record Response : Type 0 where
  pub status : ℕ
  pub content_type : Option Text
  pub retry_after : Option Text
  pub json : Option Json

-- `response.ok`
abbrev pub is_ok : Response → Bool
is_ok r = in_range 200 299 r.status

-- How `request` ends: with a value, with undefined, with an `ApiError` (its code and status; its
-- message is text for the visitor), or with the TypeError of a property of null.
pub data Outcome : Type 0 where
  returned : Json → Outcome
  no_value type_error : Outcome
  failed : Json → ℕ → Option Number → Outcome

-- `parseRetryAfter(value)`
unfoldable pub parse_retry_after : Browser → Option Text → Option Number
parse_retry_after b none = none
parse_retry_after b (some []) = none
parse_retry_after b (some (c ∷ text)) =
    let seconds = b.parse_int (c ∷ text) in
    if is_finite seconds && not (at_most seconds 0) then some seconds else none

-- `value ?? default`
abbrev pub coalesce : Option Json → Json → Json
coalesce none other = other
coalesce (some v) other = elim v [ null ↦ other | v' ↦ v' ]

-- `envelope.error?.code`, where `envelope.error` is undefined, null or a value.
abbrev pub error_code : Option Json → Option Json
error_code none = none
error_code (some error) = get_field (codes "code") error

-- `response.ok ? 502 : response.status`
unfoldable pub invalid_response : Response → Outcome
invalid_response r =
    failed (string (codes "invalid_response")) (if is_ok r then 502 else r.status) none

-- The `ApiError` of an error response whose JSON was read; `null.error` throws.
unfoldable pub error_outcome : Browser → Response → Json → Outcome
error_outcome b r null = type_error
error_outcome b r data_ =
    failed
      (coalesce (error_code (get_field (codes "error") data_)) (string (codes "request_failed")))
      r.status (parse_retry_after b r.retry_after)

unfoldable pub read_json : Browser → Response → Option Json → Outcome
read_json b r none = invalid_response r
read_json b r (some data_) = if is_ok r then returned data_ else error_outcome b r data_

-- `contentType.toLowerCase().includes('application/json')`
abbrev pub is_json : Browser → Response → Bool
is_json b r = contains (codes "application/json") (b.to_lower (or_else r.content_type []))

-- The rest of `request`, after `fetch`.
unfoldable pub read_response : Browser → Response → Outcome
read_response b r =
    if r.status == 204
    then no_value
    else if not (is_json b r)
    then invalid_response r
    else read_json b r r.json

-- `request` from the response on: the handler of an expired session, then the outcome.
unfoldable pub respond : Browser → Bool → Response → Page → Outcome × Page
respond b suppress r p =
    (read_response b r, if (r.status == 401) && not suppress then handle_unauthorized b p else p)
