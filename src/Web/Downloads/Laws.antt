-- ===== src/Web/Downloads/Laws.antt =====
-- client.ts: the names that a download can have, and its failures.
use helio.Prelude.{
  true, false, Option, none, some, [], ◌∷◌, ◌≡◌, refl, ◌≢◌, arith, all, Bool-cases, inl, inr,
  or_else,
}
use helio.Js.Text.{Text, codes, in_range}
use helio.Web.Browser.{Browser}
use helio.Web.Access.{Page}
use helio.Web.Downloads.{
  is_plain, plain_run, some_text, skip_quote, after_prefix, name_here, file_name, FileResponse,
  Download, downloaded, refused, download,
}

-- A name is not empty, and no character of it ends it in a header.
pub record IsName (name : Text) : Type 0 where
  pub not_empty : name ≢ []
  pub plain : all is_plain name ≡ true

plain_run-plain : (text : Text) → all is_plain (plain_run text) ≡ true
unfolding plain_run
plain_run-plain [] = refl
plain_run-plain (c ∷ text) = ground (arith, plain_run-plain text)

abbrev AreNames : Option Text → Type 0
AreNames none = Unit
AreNames (some name) = IsName name

some_text-AreNames : (text : Text) → all is_plain text ≡ true → AreNames (some_text text)
unfolding some_text
some_text-AreNames [] h = tt
some_text-AreNames (c ∷ text) h = record { not_empty = λ e. ground (arith, e); plain = h }

after-AreNames :
    (o : Option Text)
    → AreNames (elim o [ none ↦ none | some rest ↦ some_text (plain_run (skip_quote rest)) ])
after-AreNames none = tt
after-AreNames (some rest) =
    some_text-AreNames (plain_run (skip_quote rest)) (plain_run-plain (skip_quote rest))

name_here-AreNames : (text : Text) → AreNames (name_here text)
unfolding name_here
name_here-AreNames text = after-AreNames (after_prefix (codes "filename=") text)

first-AreNames :
    (here later : Option Text)
    → AreNames here
    → AreNames later
    → AreNames (elim here [ none ↦ later | some name ↦ some name ])
first-AreNames none later v w = w
first-AreNames (some name) later v w = v

file_name-AreNames : (text : Text) → AreNames (file_name text)
unfolding file_name
file_name-AreNames [] = name_here-AreNames []
file_name-AreNames (c ∷ text) =
    first-AreNames (name_here (c ∷ text)) (file_name text) (name_here-AreNames (c ∷ text))
      (file_name-AreNames text)

or_else-IsName : (o : Option Text) → AreNames o → IsName (or_else o (codes "helio-backup.db"))
unfolding is_plain
or_else-IsName none v = record { not_empty = λ e. ground (arith, e); plain = refl }
or_else-IsName (some name) v = v

-- How a download ends: with the response's blob under a name, exactly where the status is a success,
-- else with an error of that status.
abbrev pub IsOutcome : FileResponse → Download → Type 0
IsOutcome r (downloaded blob name) =
    (in_range 200 299 r.status ≡ true) × (blob ≡ r.blob) × IsName name
IsOutcome r (refused code status) = (in_range 200 299 r.status ≡ false) × (status ≡ r.status)

-- A download gives a file exactly where the response is a success, with the response's blob and a name
-- that is not empty and has no quote or semicolon; any other response is an error of its status.
pub download-IsOutcome :
    (b : Browser) (r : FileResponse) (p : Page) → IsOutcome r (download b r p).0
unfolding download
download-IsOutcome b r p =
    let name =
      or_else-IsName (file_name (or_else r.content_disposition []))
        (file_name-AreNames (or_else r.content_disposition [])) in
    elim (Bool-cases (in_range 200 299 r.status)) [
      | inl e ↦ simp e (refl, refl, name)
      | inr e ↦ simp e (refl, refl)
    ]
