-- ===== src/Web/Browser.antt =====
-- What the web application takes from the browser: URLs, their encoding, and the parts of
-- JavaScript's library that depend on Unicode tables.
use helio.Prelude.{Option, ◌∷◌, [], Bool, ◌||◌}
use helio.Js.Text.{Text, starts_with}
use helio.Js.Number.{Number}

pub record Url : Type 0 where
  pub url_origin : Text
  pub pathname : Text
  pub search : Text
  pub hash : Text

pub record Browser : Type 0 where
  -- `window.location.origin`
  pub origin : Text
  -- `new URL(text, origin)`; `none` is a TypeError
  pub parse_url : Text → Option Url
  -- `decodeURIComponent(text)`; `none` is a URIError
  pub decode_component : Text → Option Text
  pub encode_component : Text → Text
  -- `text.toLowerCase()` and `text.toUpperCase()`
  pub to_lower : Text → Text
  pub to_upper : Text → Text
  -- `Number.parseInt(text, 10)`
  pub parse_int : Text → Number

-- `text.includes(part)`
unfoldable pub contains : Text → Text → Bool
contains part [] = starts_with part []
contains part (c ∷ text) = starts_with part (c ∷ text) || contains part text
