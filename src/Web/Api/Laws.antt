-- ===== src/Web/Api/Laws.antt =====
-- client.ts: which requests carry the session's token, and what every response becomes.
use helio.Prelude.{
  ◌&&◌, ◌||◌, not, ◌++◌, ◌==◌, ◌↔◌, All, sym, ap, ◌∙◌, if◌then◌else◌, Bool, true, false, Option,
  none, some, ◌≡◌, refl, [], ◌∷◌, arith, Bool-cases, inl, inr, ◌≢◌,
}
use helio.Js.Text.{Text, codes, text_eq, text_eq_refl, text_eq_sound}
use helio.Js.Json.{Json, null, bool, number, string, array, object}
use helio.Web.Browser.{Browser}
use helio.Web.Access.{
  login_path, bootstrap_path, is_entry, login_redirect, relative, Page, handle_unauthorized,
}
use helio.Web.Api.{
  Response, is_json, no_value, invalid_response, error_outcome, returned, read_response, read_json,
  is_ok, respond, Headers, header, set_header, set_headers, set_token, set_content_type,
  request_headers, is_mutation, method_of, usable_token, RequestOptions, csrf_header,
}

header-set_header :
    (name value : Text) (hs : Headers) → header name (set_header name value hs) ≡ some value
unfolding header set_header
header-set_header name value [] = simp (text_eq_refl name) refl
header-set_header name value ((k, old) ∷ hs) = ground (arith, header-set_header name value hs)

-- A header of another name stays as it was.
header-set_header_other :
    (name key value : Text) (hs : Headers)
    → text_eq key name ≡ false
    → header name (set_header key value hs) ≡ header name hs
unfolding header set_header
header-set_header_other name key value [] h = simp h refl
header-set_header_other name key value ((k, old) ∷ hs) h = elim (Bool-cases (text_eq k key)) [
  | inl e ↦ ground (arith, sym (ap (λ n. text_eq n name) (text_eq_sound k key e)))
  | inr e ↦ ground (arith, header-set_header_other name key value hs h)
]

-- The caller's entries do not name a header.
abbrev Absent : Text → Headers → Type 0
Absent name = All (λ e. text_eq (e.0) name ≡ false)

header-set_headers :
    (name : Text) (entries hs : Headers)
    → Absent name entries
    → header name (set_headers hs entries) ≡ header name hs
unfolding set_headers
header-set_headers name [] hs a = refl
header-set_headers name ((k, v) ∷ entries) hs (a, as_) =
    header-set_headers name entries (set_header k v hs) as_ ∙ header-set_header_other name k v hs a

header-set_content_type :
    (name : Text) (body : Option Json) (hs : Headers)
    → text_eq (codes "Content-Type") name ≡ false
    → header name (set_content_type body hs) ≡ header name hs
unfolding set_content_type
header-set_content_type name none hs h = refl
header-set_content_type name (some v) hs h =
    header-set_header_other name (codes "Content-Type") (codes "application/json") hs h

header-set_token :
    (mutation : Bool) (token : Option Text) (hs : Headers)
    → header csrf_header hs ≡ none
    → header csrf_header (set_token mutation token hs) ≡ (if mutation then token else none)
unfolding set_token
header-set_token true (some token) hs h = header-set_header csrf_header token hs
header-set_token true none hs h = h
header-set_token false token hs h = h

-- The session's CSRF token is sent with exactly the requests that may change data: it is the value
-- of the header X-CSRF-Token for DELETE, PATCH, POST and PUT (where it is not empty), whatever the
-- body, and no other request has that header. (The caller's own entries, which `Headers` gives in
-- lower case, do not name it.)
pub header-request_headers :
    (b : Browser) (options : RequestOptions) (token : Option Text)
    → Absent csrf_header options.entries
    → header csrf_header (request_headers b options token)
      ≡ (if is_mutation (method_of b options) then usable_token token else none)
unfolding request_headers header text_eq
header-request_headers b options token a =
    header-set_token (is_mutation (method_of b options)) (usable_token token)
      (set_content_type options.body
        (set_headers ((codes "Accept", codes "application/json") ∷ []) options.entries))
      (header-set_content_type csrf_header options.body
          (set_headers ((codes "Accept", codes "application/json") ∷ []) options.entries) refl
        ∙ header-set_headers csrf_header options.entries
            ((codes "Accept", codes "application/json") ∷ []) a)

error_outcome-returned :
    (b : Browser) (r : Response) (d v : Json) → error_outcome b r d ≢ returned v
unfolding error_outcome
error_outcome-returned b r null v e = cc
error_outcome-returned b r (bool x) v e = cc
error_outcome-returned b r (number x) v e = cc
error_outcome-returned b r (string s) v e = cc
error_outcome-returned b r (array vs) v e = cc
error_outcome-returned b r (object fs) v e = cc

read_json-returned :
    (b : Browser) (r : Response) (o : Option Json) (v : Json)
    → (read_json b r o ≡ returned v) ↔ ((o ≡ some v) × (is_ok r ≡ true))
unfolding read_json invalid_response
read_json-returned b r none v = (λ e. cc, λ h. cc)
read_json-returned b r (some d) v = decided (is_ok r)
  where
    decided :
        (o : Bool)
        → ((if o then returned d else error_outcome b r d) ≡ returned v)
          ↔ ((some d ≡ some v) × (o ≡ true))
    decided true = (λ e. (cc, refl), λ h. cc)
    decided false = (λ e. absurd (error_outcome-returned b r d v e), λ h. cc)

-- What the configured handler leaves of the page.
abbrev pub signed_out : Browser → Page → Page
signed_out b p = record {
  csrf_token = none;
  session_cached = false;
  location = p.location;
  replaced =
      if is_entry p.location.pathname
      then p.replaced
      else p.replaced ++ login_redirect b (relative p.location) ∷ [];
}

handle_unauthorized_lem : (b : Browser) (p : Page) → handle_unauthorized b p ≡ signed_out b p
unfolding handle_unauthorized is_entry
handle_unauthorized_lem b p =
    by_path (text_eq p.location.pathname login_path) (text_eq p.location.pathname bootstrap_path)
  where
    by_path :
        (l s : Bool)
        → (if not l && not s
            then record p {
              csrf_token = none;
              session_cached = false;
              replaced = p.replaced ++ login_redirect b (relative p.location) ∷ [];
            }
            else record p { csrf_token = none; session_cached = false })
          ≡ record {
            csrf_token = none;
            session_cached = false;
            location = p.location;
            replaced =
                if l || s
                then p.replaced
                else p.replaced ++ login_redirect b (relative p.location) ∷ [];
          }
    by_path true s = refl
    by_path false true = refl
    by_path false false = refl

-- `request` returns a value exactly for a response in the range of success other than 204 that
-- declares JSON and has it: that value. Every other response ends in an error or in undefined.
pub read_response-returned_iff :
    (b : Browser) (r : Response) (v : Json)
    → (read_response b r ≡ returned v) ↔ (
        ((r.status == 204) ≡ false)
        × ((is_json b r ≡ true) × ((r.json ≡ some v) × (is_ok r ≡ true))))
unfolding read_response invalid_response
read_response-returned_iff b r v =
    chosen (r.status == 204) (is_json b r) (read_json-returned b r r.json v)
  where
    chosen :
        (c d : Bool)
        → (read_json b r r.json ≡ returned v) ↔ ((r.json ≡ some v) × (is_ok r ≡ true))
        → ((if c then no_value else if not d then invalid_response r else read_json b r r.json)
            ≡ returned v)
          ↔ ((c ≡ false) × ((d ≡ true) × ((r.json ≡ some v) × (is_ok r ≡ true))))
    chosen true d h = (λ e. cc, λ k. cc)
    chosen false true h = (λ e. (refl, (refl, h.0 e)), λ k. h.1 (k.1.1))
    chosen false false h = (λ e. cc, λ k. cc)

-- A response with status 401 gives no value, and unless the caller suppresses it the session is
-- over: the token and the cached session are gone, and a page other than login and set-up is
-- replaced, once, by the login page that leads back to it. Suppressed, the page stays as it is.
pub respond-unauthorized :
    (b : Browser) (suppress : Bool) (r : Response) (p : Page)
    → r.status ≡ 401
    → ((v : Json) → (respond b suppress r p).0 ≢ returned v)
      × ((respond b suppress r p).1 ≡ (if suppress then p else signed_out b p))
unfolding respond
respond-unauthorized b suppress r p e = (
  λ v h. ground (arith, read_response-returned_iff b r v),
  handled (r.status == 401) (ap (λ n. n == 401) e) suppress,
)
  where
    handled :
        (c : Bool)
        → c ≡ true
        → (s : Bool)
        → (if c && not s then handle_unauthorized b p else p) ≡ (if s then p else signed_out b p)
    handled true e' true = refl
    handled true e' false = handle_unauthorized_lem b p
    handled false e' s = cc
