-- ===== src/Web/Fields/Shown.antt =====
-- Texts that the forms show of valid settings, which the parsers of the fields leave as they are.
use helio.Prelude.{
  ℕ, Bool, true, false, ◌||◌, ◌==◌, some, ◌≡◌, refl, ap, ◌∙◌, List, [], ◌∷◌, ◌++◌, append_assoc,
  append-nil, arith, all, any, length, leb, Bool-cases, inl, inr, All-append,
}
use mathlib.Core.Path.{subst}
use helio.Js.Text.{Text, is_digit, is_space, in_range, text_eq, text_eq_sound}
use helio.Js.Number.{Number, is_finite}
use helio.Web.Fields.{
  Locale, is_numeral, split_on, is_octet, valid_ipv4, replace_comma, drop_sign, decimal_fraction,
  decimal_whole, decimal, numeral, text_leb, insert_input, sort_inputs, currencies, is_currency,
  normal_currency,
}
use helio.Web.Fields.Laws.{IsSolid, all-IsSolid, trim-IsSolid}
use helio.Web.Fields.Checks.{and-left, and-right}

is_octet-IsSolid : (s : Text) → is_octet s ≡ true → IsSolid s
unfolding is_octet
is_octet-IsSolid [] e = cc
is_octet-IsSolid (c ∷ []) e = all-IsSolid (c ∷ []) (ground (arith, e))
is_octet-IsSolid (c ∷ d ∷ s) e = all-IsSolid (c ∷ d ∷ s) (ground (arith, e))

split_on-IsSolid :
    (part s : Text) → all is_octet (split_on b'.' part s) ≡ true → IsSolid (part ++ s)
unfolding split_on is_space
split_on-IsSolid part [] e =
    rw (append-nil part) (is_octet-IsSolid part (and-left (is_octet part) true e))
split_on-IsSolid part (c ∷ s) e = elim (Bool-cases (c == b'.')) [
  | inl dot ↦
      let parts = rw dot at e in
      All-append (λ c. is_space c ≡ false) part (c ∷ s)
        (is_octet-IsSolid part (and-left (is_octet part) _ parts))
        (ground (arith, dot), split_on-IsSolid [] s (and-right (is_octet part) _ parts))
  | inr other ↦
      subst IsSolid (append_assoc part (c ∷ []) s)
        (split_on-IsSolid (part ++ c ∷ []) s (rw other at e))
]

-- An address has no white space.
pub valid_ipv4-IsSolid : (s : Text) → valid_ipv4 s ≡ true → IsSolid s
unfolding valid_ipv4
valid_ipv4-IsSolid s e = split_on-IsSolid [] s (and-right (length (split_on b'.' [] s) == 4) _ e)

-- `[A-Z]`
abbrev pub is_capital : ℕ → Bool
is_capital = in_range b'A' b'Z'

capitals-IsSolid : (s : Text) → all is_capital s ≡ true → IsSolid s
unfolding is_space
capitals-IsSolid [] e = tt
capitals-IsSolid (c ∷ s) e = (ground (arith, e), capitals-IsSolid s (ground (arith, e)))

any-all :
    (p : Text → Bool) (code : Text) (known : List Text)
    → all p known ≡ true
    → any (text_eq code) known ≡ true
    → p code ≡ true
any-all p code [] h e = cc
any-all p code (x ∷ known) h e = elim (Bool-cases (text_eq code x)) [
  | inl same ↦ rw (text_eq_sound code x same) (and-left (p x) _ h)
  | inr other ↦ any-all p code known (and-right (p x) _ h) (rw other at e)
]

-- A known currency has capital letters only.
pub is_currency-capital : (code : Text) → is_currency code ≡ true → all is_capital code ≡ true
unfolding is_currency currencies split_on
is_currency-capital code e = any-all (all is_capital) code currencies refl e

-- `toUpperCase` leaves capital letters as they are.
abbrev pub KeepsCapitals : Locale → Type 0
KeepsCapitals l = (t : Text) → all is_capital t ≡ true → l.to_upper t ≡ t

pub normal_currency-same :
    (l : Locale) (code : Text)
    → KeepsCapitals l
    → is_currency code ≡ true
    → normal_currency l code ≡ code
normal_currency-same l code k e =
    let capital = is_currency-capital code e in
    ap l.to_upper (trim-IsSolid code (capitals-IsSolid code capital)) ∙ k code capital

-- The inputs are in the order of `sort`.
abbrev pub IsSorted : List ℕ → Type 0
IsSorted [] = Unit
IsSorted (x ∷ []) = Unit
IsSorted (x ∷ y ∷ ys) = (text_leb (numeral x) (numeral y) ≡ true) × IsSorted (y ∷ ys)

insert_input-first : (x : ℕ) (ys : List ℕ) → IsSorted (x ∷ ys) → insert_input x ys ≡ x ∷ ys
unfolding insert_input
insert_input-first x [] h = refl
insert_input-first x (y ∷ ys) (e, h) = rw e refl

pub sort_inputs-IsSorted : (xs : List ℕ) → IsSorted xs → sort_inputs xs ≡ xs
unfolding sort_inputs
sort_inputs-IsSorted [] h = refl
sort_inputs-IsSorted (x ∷ []) h = insert_input-first x [] h
sort_inputs-IsSorted (x ∷ y ∷ ys) (e, h) =
    ap (insert_input x) (sort_inputs-IsSorted (y ∷ ys) h) ∙ insert_input-first x (y ∷ ys) (e, h)

-- The characters of a plain decimal: digits, a point and a minus.
abbrev is_plain : ℕ → Bool
is_plain c = is_digit c || (c == b'.' || c == b'-')

plain-IsSolid : (s : Text) → all is_plain s ≡ true → IsSolid s
unfolding is_space
plain-IsSolid [] e = tt
plain-IsSolid (c ∷ s) e =
    (ground (arith, and-left (is_plain c) _ e), plain-IsSolid s (and-right (is_plain c) _ e))

replace_comma-plain : (s : Text) → all is_plain s ≡ true → replace_comma s ≡ s
unfolding replace_comma
replace_comma-plain [] e = refl
replace_comma-plain (c ∷ s) e =
    let no_comma : (c == b',') ≡ false = ground (arith, and-left (is_plain c) _ e) in
    rw no_comma (ap (◌∷◌ c) (replace_comma-plain s (and-right (is_plain c) _ e)))

all-append : (p : ℕ → Bool) (s t : Text) → all p s ≡ true → all p t ≡ true → all p (s ++ t) ≡ true
all-append p [] t e f = f
all-append p (c ∷ s) t e f = ground (arith, all-append p s t)

digits-plain : (s : Text) → all is_digit s ≡ true → all is_plain s ≡ true
digits-plain [] e = refl
digits-plain (c ∷ s) e = ground (arith, digits-plain s)

-- The text of a number in the plain form: perhaps a minus, digits, and perhaps a point and more
-- digits.
pub data Plain : Type 0 where
  plain : (negative : Bool) → (whole : Text) → Plain
  pointed : (negative : Bool) → (whole fraction : Text) → Plain

abbrev signed : Bool → Text → Text
signed false s = s
signed true s = b'-' ∷ s

abbrev pub plain_text : Plain → Text
plain_text (plain negative whole) = signed negative whole
plain_text (pointed negative whole fraction) = signed negative (whole ++ b'.' ∷ fraction)

abbrev pub IsDigits : Plain → Type 0
IsDigits (plain negative whole) = is_numeral whole ≡ true
IsDigits (pointed negative whole fraction) =
    (is_numeral whole ≡ true) × (all is_digit fraction ≡ true)

decimal_whole-digits :
    (s t : Text)
    → all is_digit s ≡ true
    → decimal_whole true t ≡ true
    → decimal_whole true (s ++ t) ≡ true
unfolding decimal_whole
decimal_whole-digits [] t e f = f
decimal_whole-digits (c ∷ s) t e f =
    let rest = decimal_whole-digits s t (and-right (is_digit c) _ e) f in
    let digit = and-left (is_digit c) _ e in simp (rest, digit) refl

decimal_whole-numeral :
    (s t : Text)
    → is_numeral s ≡ true
    → decimal_whole true t ≡ true
    → (drop_sign (s ++ t) ≡ s ++ t) × (decimal_whole false (s ++ t) ≡ true)
unfolding decimal_whole is_numeral
decimal_whole-numeral [] t e f = cc
decimal_whole-numeral (c ∷ s) t e f =
    let digits : all is_digit (c ∷ s) ≡ true = and-right (leb 1 (length (c ∷ s))) _ e in
    let digit : is_digit c ≡ true = and-left (is_digit c) _ digits in
    let no_sign : (c == b'+') || (c == b'-') ≡ false = ground (arith, digit) in
    let rest = decimal_whole-digits s t (and-right (is_digit c) _ digits) f in
    (rw no_sign refl, simp (rest, digit) refl)

signed-decimal :
    (negative : Bool) (s t : Text)
    → is_numeral s ≡ true
    → decimal_whole true t ≡ true
    → decimal_whole false (drop_sign (signed negative (s ++ t))) ≡ true
signed-decimal false s t e f = let (same, shaped) = decimal_whole-numeral s t e f in rw same shaped
signed-decimal true s t e f = (decimal_whole-numeral s t e f).1

decimal_fraction-digits : (s : Text) → all is_digit s ≡ true → decimal_fraction true s ≡ true
unfolding decimal_fraction
decimal_fraction-digits [] e = refl
decimal_fraction-digits (c ∷ s) e = ground (arith, decimal_fraction-digits s)

point-decimal : (s : Text) → all is_digit s ≡ true → decimal_whole true (b'.' ∷ s) ≡ true
unfolding decimal_whole
point-decimal s e = decimal_fraction-digits s e

plain_text-decimal :
    (p : Plain) → IsDigits p → decimal_whole false (drop_sign (plain_text p)) ≡ true
unfolding decimal_whole
plain_text-decimal (plain negative whole) e =
    subst (λ s. decimal_whole false (drop_sign (signed negative s)) ≡ true) (append-nil whole)
      (signed-decimal negative whole [] e refl)
plain_text-decimal (pointed negative whole fraction) (e, f) =
    signed-decimal negative whole (b'.' ∷ fraction) e (point-decimal fraction f)

signed-plain :
    (negative : Bool) (s : Text) → all is_plain s ≡ true → all is_plain (signed negative s) ≡ true
signed-plain false s e = e
signed-plain true s e = e

numeral-plain : (s : Text) → is_numeral s ≡ true → all is_plain s ≡ true
unfolding is_numeral
numeral-plain s e = digits-plain s (and-right (leb 1 (length s)) _ e)

plain_text-plain : (p : Plain) → IsDigits p → all is_plain (plain_text p) ≡ true
plain_text-plain (plain negative whole) e = signed-plain negative whole (numeral-plain whole e)
plain_text-plain (pointed negative whole fraction) (e, f) =
    signed-plain negative (whole ++ b'.' ∷ fraction) (
      all-append is_plain whole (b'.' ∷ fraction) (numeral-plain whole e) (digits-plain fraction f))

-- `decimal` reads a plain text as the number that it stands for.
pub decimal-plain_text :
    (l : Locale) (p : Plain) (x : Number)
    → IsDigits p
    → l.number_of (plain_text p) ≡ x
    → is_finite x ≡ true
    → decimal l (plain_text p) ≡ some x
unfolding decimal
decimal-plain_text l p x d e f =
    let shown = plain_text-plain p d in
    rw
      (
        trim-IsSolid (plain_text p) (plain-IsSolid (plain_text p) shown),
        replace_comma-plain (plain_text p) shown,
        plain_text-decimal p d,
        e,
        f,
      )
      refl
