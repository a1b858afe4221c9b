-- ===== src/Web/Access/Tests.antt =====
-- Runs of auth-gate.ts and of the unauthorized handler, and examples of their theorems.
use helio.Prelude.{
  if-some, sym, arith, true, false, none, some, ◌≡◌, refl, ◌⊎◌, [], ◌∷◌, if◌then◌else◌, ◌&&◌,
}
use helio.Js.Text.{Text, codes, text_eq, starts_with}
use helio.Js.Number.{nan}
use helio.Web.Browser.{Browser, Url}
use helio.Web.Access.{
  home_path, safe_redirect_target, safe_destination, decode_passes, leaves_origin, is_entry,
  relative, Page, handle_unauthorized, login_redirect,
}
use helio.Web.Access.Laws.{IsStandard, safe_redirect_target_lem}

abbrev origin_url : Text → Url
origin_url t = record { url_origin = codes "http://h"; pathname = t; search = []; hash = [] }

-- A browser that reads a text with a leading slash as a path of the origin, and nothing else.
abbrev plain : Browser
plain = record {
  origin = codes "http://h";
  parse_url = λ t. if starts_with (codes "/") t then some (origin_url t) else none;
  decode_component = λ t. some t;
  encode_component = λ t. t;
  to_lower = λ t. t;
  to_upper = λ t. t;
  parse_int = λ t. nan;
}

plain-url :
    (t : Text) (u : Url)
    → plain.parse_url t ≡ some u
    → (starts_with (codes "/") t ≡ true) × (origin_url t ≡ u)
plain-url t u e = if-some (starts_with (codes "/") t) (origin_url t) u e

plain-IsStandard : IsStandard plain
unfolding starts_with
plain-IsStandard = record {
  suffix = λ t u e. rw (sym ((plain-url t u e).1)) (refl, refl);
  keeps = λ t d e h. ground arith;
}

abbrev settings_page : Page
settings_page = record {
  csrf_token = some (codes "t");
  session_cached = true;
  location = origin_url (codes "/settings");
  replaced = [];
}

redirect_test :
    (text_eq (safe_redirect_target plain (some (codes "/history"))) (codes "/history")
      && (text_eq (safe_redirect_target plain (some (codes "//evil"))) (codes "/")
          && (text_eq (safe_redirect_target plain (some (codes "evil"))) (codes "/")
              && text_eq (safe_redirect_target plain (some (codes "/login"))) (codes "/"))))
    ≡ true
unfolding safe_redirect_target safe_destination decode_passes leaves_origin is_entry starts_with
    text_eq
redirect_test = refl

handle_unauthorized_test :
    (handle_unauthorized plain settings_page).replaced ≡ codes "/login?redirect=/settings" ∷ []
unfolding handle_unauthorized login_redirect safe_redirect_target safe_destination decode_passes
    leaves_origin is_entry starts_with text_eq
handle_unauthorized_test = refl

safe_redirect_target_lem_example :
    (safe_redirect_target plain (some (codes "/history")) ≡ home_path)
    ⊎ ((t : Text) × (some (codes "/history") ≡ some t)
        × ((u : Url) × ((plain.parse_url t ≡ some u)
              × (safe_redirect_target plain (some (codes "/history")) ≡ relative u)
              × ((u.url_origin ≡ plain.origin)
                  × ((is_entry u.pathname ≡ false)
                      × (leaves_origin (safe_redirect_target plain (some (codes "/history")))
                          ≡ false))))))
safe_redirect_target_lem_example =
    safe_redirect_target_lem plain (some (codes "/history")) plain-IsStandard
