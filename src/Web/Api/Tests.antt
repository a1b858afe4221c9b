-- ===== src/Web/Api/Tests.antt =====
-- Runs of client.ts, and examples of its theorems.
use helio.Web.Api.{
  read_json, set_token, set_headers, set_content_type, RequestOptions, Response, request_headers,
  header, csrf_header, is_mutation, method_of, read_response, returned, is_json, is_ok, respond,
  set_header,
}
use helio.Prelude.{true, false, none, some, ◌≡◌, ◌≢◌, ◌↔◌, refl, [], ◌∷◌, ◌==◌, if◌then◌else◌}
use helio.Js.Text.{codes, text_eq, starts_with}
use helio.Js.Number.{nan}
use helio.Js.Json.{Json, null, bool}
use helio.Web.Browser.{Browser, Url, contains}
use helio.Web.Access.{Page}
use helio.Web.Api.Laws.{
  header-request_headers, read_response-returned_iff, respond-unauthorized, signed_out,
}

abbrev site : Url
site = record {
  url_origin = codes "http://h";
  pathname = codes "/settings";
  search = [];
  hash = [];
}

abbrev plain : Browser
plain = record {
  origin = codes "http://h";
  parse_url = λ t. none;
  decode_component = λ t. some t;
  encode_component = λ t. t;
  to_lower = λ t. t;
  to_upper = λ t. t;
  parse_int = λ t. nan;
}

abbrev posting : RequestOptions
posting = record {
  method = some (codes "POST");
  entries = (codes "x-test", codes "1") ∷ [];
  body = some null;
  suppress_unauthorized = false;
}

abbrev answer : Response
answer = record {
  status = 200;
  content_type = some (codes "application/json; charset=utf-8");
  retry_after = none;
  json = some (bool true);
}

abbrev refusal : Response
refusal = record answer { status = 401 }

abbrev page : Page
page = record {
  csrf_token = some (codes "t");
  session_cached = true;
  location = site;
  replaced = [];
}

api_code : Unit {0}
unfolding request_headers header is_mutation method_of set_content_type set_headers set_header
    set_token text_eq read_response read_json contains starts_with
api_code = tt

headers_test :
    request_headers plain posting (some (codes "t"))
    ≡ (codes "Accept", codes "application/json")
      ∷ (codes "x-test", codes "1")
      ∷ (codes "Content-Type", codes "application/json")
      ∷ (codes "X-CSRF-Token", codes "t")
      ∷ []
unfolding api_code
headers_test = refl

answer_test : read_response plain answer ≡ returned (bool true)
unfolding api_code
answer_test = refl

not_csrf : text_eq (codes "x-test") csrf_header ≡ false
unfolding text_eq
not_csrf = refl

header-request_headers_example :
    header csrf_header (request_headers plain posting (some (codes "t")))
    ≡ (if is_mutation (method_of plain posting) then some (codes "t") else none)
header-request_headers_example =
    header-request_headers plain posting (some (codes "t")) (not_csrf, tt)

read_response-returned_iff_example : (read_response plain answer ≡ returned (bool true)) ↔ (
    ((200 == 204) ≡ false)
    × ((is_json plain answer ≡ true)
        × ((some (bool true) ≡ some (bool true)) × (is_ok answer ≡ true))))
read_response-returned_iff_example = read_response-returned_iff plain answer (bool true)

respond-unauthorized_example :
    ((v : Json) → (respond plain false refusal page).0 ≢ returned v)
    × ((respond plain false refusal page).1 ≡ signed_out plain page)
respond-unauthorized_example = respond-unauthorized plain false refusal page refl
