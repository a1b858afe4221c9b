-- ===== src/Web/Downloads.antt =====
-- web/src/api/client.ts: `download`, and the name of the file.
pub mod Laws
use helio.Prelude.{
  ℕ, ◌+◌, Bool, true, false, ◌&&◌, ◌||◌, ◌==◌, not, Option, none, some, List, [], ◌∷◌,
  if◌then◌else◌, or_else,
}
use helio.Js.Text.{Text, codes, in_range}
use helio.Js.Json.{Json, get_field, string}
use helio.Web.Browser.{Browser}
use helio.Web.Access.{Page, handle_unauthorized}
use helio.Web.Api.{coalesce, error_code}

-- A code unit without the case of its letter, in ASCII.
unfoldable pub lower : ℕ → ℕ
lower c = if in_range b'A' b'Z' c then c + 32 else c

-- What follows a prefix, in any case.
unfoldable pub after_prefix : Text → Text → Option Text
after_prefix [] text = some text
after_prefix (p ∷ prefix) [] = none
after_prefix (p ∷ prefix) (c ∷ text) =
    let rest = after_prefix prefix text in if lower c == p then rest else none

-- `"?`
unfoldable pub skip_quote : Text → Text
skip_quote [] = []
skip_quote (c ∷ text) = if c == b'"' then text else c ∷ text

-- `[^";]`
unfoldable pub is_plain : ℕ → Bool
is_plain c = not ((c == b'"') || (c == b';'))

-- `[^";]*`
unfoldable pub plain_run : Text → Text
unfolding is_plain
plain_run [] = []
plain_run (c ∷ text) = let rest = plain_run text in if is_plain c then c ∷ rest else []

unfoldable pub some_text : Text → Option Text
some_text [] = none
some_text (c ∷ text) = some (c ∷ text)

-- The group of `/filename="?([^";]+)"?/i` where the expression matches at the start of the text.
unfoldable pub name_here : Text → Option Text
name_here text = elim (after_prefix (codes "filename=") text) [
  | none ↦ none
  | some rest ↦ some_text (plain_run (skip_quote rest))
]

-- `exec`: the first match.
unfoldable pub file_name : Text → Option Text
file_name [] = name_here []
file_name (c ∷ text) =
    let later = file_name text in
    elim (name_here (c ∷ text)) [ none ↦ later | some name ↦ some name ]

-- A response: `json` is what `response.json()` gives, `none` if it throws.
pub record FileResponse : Type 0 where
  pub status : ℕ
  pub content_disposition : Option Text
  pub json : Option Json
  pub blob : List ℕ

-- `download` returns a file with its name, or throws an `ApiError` with its code and status.
pub data Download : Type 0 where
  downloaded : List ℕ → Text → Download
  refused : Json → ℕ → Download

-- The code of an error. What `response.json()` or a property of null throws is caught.
unfoldable pub code_of : Option Json → Json
code_of none = string (codes "request_failed")
code_of (some envelope) =
    coalesce (error_code (get_field (codes "error") envelope)) (string (codes "request_failed"))

-- `download(path)` from the response on.
unfoldable pub download : Browser → FileResponse → Page → Download × Page
download b r p =
    let name = or_else (file_name (or_else r.content_disposition [])) (codes "helio-backup.db") in
    let page = if r.status == 401 then handle_unauthorized b p else p in
    if in_range 200 299 r.status
    then (downloaded r.blob name, page)
    else (refused (code_of r.json) r.status, page)
