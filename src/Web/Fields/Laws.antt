-- ===== src/Web/Fields/Laws.antt =====
-- Numerals are read back: `String(n)` by the parsers of the forms.
use mathlib.Core.List.{reverse, reverse-reverse, reverse-cons}
use helio.Prelude.{
  ℕ, zero, suc, ◌+◌, ◌*◌, ◌-◌, ◌/◌, ◌%◌, ◌^◌, ◌≤◌, ◌<◌, Bool, true, false, some, [], ◌∷◌, ◌++◌, ◌≡◌,
  refl, ap, ◌∙◌, arith, all, length, leb, ltb, Bool-cases, inl, inr, All, All-append,
}
use helio.Js.Text.{Text, is_digit, is_space, drop_while, drop_end, trim}
use helio.Web.Fields.{
  is_numeral, decimal_from, integer, digits_from, numeral, tariff_from, tariff_fraction, pad_two,
}

-- A reader of numerals that takes each digit into its number, `start` being its state before the
-- first one, reads `String(n)` as n.
module _ {A : Type 0} (start : Text → A) (read : ℕ → Text → A)
    (first : (n : ℕ) (out : Text) → n < 10 → start ((b'0' + n) ∷ out) ≡ read n out)
    (next : (n : ℕ) (out : Text) → read (n / 10) ((b'0' + n % 10) ∷ out) ≡ read n out) where
  start-digits_from :
      (fuel n : ℕ) (out : Text) → n < fuel → start (digits_from fuel n out) ≡ read n out
  unfolding digits_from
  start-digits_from zero n out h = absurd (omega arith)
  start-digits_from (suc fuel) n out h =
      ground
        (arith, first n out, next n out, start-digits_from fuel (n / 10) ((b'0' + n % 10) ∷ out))

  pub start-numeral : (n : ℕ) (out : Text) → start (digits_from (suc n) n out) ≡ read n out
  start-numeral n out = start-digits_from (suc n) n out (omega arith)

decimal_from_first :
    (n : ℕ) (out : Text) → n < 10 → decimal_from 0 ((b'0' + n) ∷ out) ≡ decimal_from n out
decimal_from_first n out h = ap (λ m. decimal_from m out) (omega arith)

decimal_from_next :
    (n : ℕ) (out : Text) → decimal_from (n / 10) ((b'0' + n % 10) ∷ out) ≡ decimal_from n out
decimal_from_next n out = ap (λ m. decimal_from m out) (omega arith)

pub decimal_from-numeral : (n : ℕ) → decimal_from 0 (numeral n) ≡ n
unfolding numeral
decimal_from-numeral n =
    start-numeral (decimal_from 0) decimal_from decimal_from_first decimal_from_next n []

all-numeral : (n : ℕ) (out : Text) → all is_digit (digits_from (suc n) n out) ≡ all is_digit out
all-numeral n out =
    start-numeral (all is_digit) (λ n. all is_digit) (λ n out h. ground arith)
      (λ n out. ground arith) n out

not_empty : Text → Bool
not_empty s = leb 1 (length s)

not_empty-numeral : (n : ℕ) → not_empty (numeral n) ≡ true
unfolding not_empty numeral
not_empty-numeral n =
    start-numeral not_empty (λ n out. true) (λ n out h. ground arith) (λ n out. refl) n []

pub is_numeral-numeral : (n : ℕ) → is_numeral (numeral n) ≡ true
unfolding is_numeral not_empty numeral
is_numeral-numeral n = ground (arith, not_empty-numeral n, all-numeral n [])

-- `integer` reads what `String` writes of a safe integer.
pub integer-numeral : (n : ℕ) → n < 2 ^ 53 → integer (numeral n) ≡ some n
unfolding integer
integer-numeral n h = simp (is_numeral-numeral n, decimal_from-numeral n) (ground arith)

pub digits_from-append :
    (fuel n : ℕ) (out rest : Text)
    → digits_from fuel n out ++ rest ≡ digits_from fuel n (out ++ rest)
unfolding digits_from
digits_from-append zero n out rest = refl
digits_from-append (suc fuel) n out rest =
    ground (arith, digits_from-append fuel (n / 10) ((b'0' + n % 10) ∷ out) rest)

pub tariff_from-numeral :
    (n : ℕ) (rest : Text) → tariff_from 0 false (numeral n ++ rest) ≡ tariff_from n true rest
unfolding numeral tariff_from
tariff_from-numeral n rest =
    digits_start
    ∙ start-numeral (tariff_from 0 false) (λ n. tariff_from n true)
        (λ n out h. ground (arith, decimal_first n out h))
        (λ n out. ground (arith, decimal_next n out)) n rest
  where
    digits_start :
        tariff_from 0 false (digits_from (suc n) n [] ++ rest)
        ≡ tariff_from 0 false (digits_from (suc n) n rest)
    digits_start = ap (tariff_from 0 false) (digits_from-append (suc n) n [] rest)

    decimal_first :
        (n : ℕ) (out : Text)
        → n < 10
        → tariff_from (b'0' + n - b'0') true out ≡ tariff_from n true out
    decimal_first n out h = ap (λ m. tariff_from m true out) (omega arith)

    decimal_next :
        (n : ℕ) (out : Text)
        → tariff_from (n / 10 * 10 + (b'0' + n % 10 - b'0')) true out ≡ tariff_from n true out
    decimal_next n out = ap (λ m. tariff_from m true out) (omega arith)

numeral_two : (k : ℕ) → 10 ≤ k → k < 100 → numeral k ≡ (b'0' + k / 10) ∷ (b'0' + k % 10) ∷ []
unfolding numeral digits_from
numeral_two zero h l = absurd (omega arith)
numeral_two (suc k) h l = ground arith

numeral_one : (k : ℕ) → k < 10 → numeral k ≡ (b'0' + k) ∷ []
unfolding numeral digits_from
numeral_one k h = ground arith

-- `tariffMinor` reads a whole part and two digits of hundredths.
pub tariff_fraction-pad_two :
    (whole k : ℕ) → k < 100 → tariff_fraction whole (pad_two (numeral k)) ≡ some (whole * 100 + k)
unfolding tariff_fraction pad_two
tariff_fraction-pad_two whole k h = elim (Bool-cases (ltb k 10)) [
  | inl e ↦ rw (numeral_one k (ground arith)) (ground arith)
  | inr e ↦ rw (numeral_two k (ground arith) h) (ground arith)
]

-- No character of the text is white space.
abbrev pub IsSolid : Text → Type 0
IsSolid = All (λ c. is_space c ≡ false)

drop_while_none : (p : ℕ → Bool) (s : Text) → All (λ c. p c ≡ false) s → drop_while p s ≡ s
unfolding drop_while
drop_while_none p [] h = refl
drop_while_none p (c ∷ s) (e, h) = simp e refl

IsSolid-reverse : (s : Text) → IsSolid s → IsSolid (reverse s)
IsSolid-reverse [] h = tt
IsSolid-reverse (c ∷ s) (e, h) =
    rw (reverse-cons c s)
      (All-append (λ c. is_space c ≡ false) (reverse s) (c ∷ []) (IsSolid-reverse s h) (e, tt))

-- `trim` leaves a text without white space as it is.
pub trim-IsSolid : (s : Text) → IsSolid s → trim s ≡ s
unfolding trim drop_end
trim-IsSolid s h =
    rw (drop_while_none is_space s h, drop_while_none is_space (reverse s) (IsSolid-reverse s h))
      (reverse-reverse s)

is_digit-solid : (c : ℕ) → is_digit c ≡ true → is_space c ≡ false
unfolding is_space
is_digit-solid c h = ground arith

pub all-IsSolid : (s : Text) → all is_digit s ≡ true → IsSolid s
all-IsSolid [] h = tt
all-IsSolid (c ∷ s) h = (ground (arith, is_digit-solid c), all-IsSolid s (ground (arith, h)))

pub numeral-IsSolid : (n : ℕ) → IsSolid (numeral n)
unfolding numeral
numeral-IsSolid n = all-IsSolid (digits_from (suc n) n []) (all-numeral n [])

pub pad_two-IsSolid : (s : Text) → IsSolid s → IsSolid (pad_two s)
unfolding pad_two is_space
pad_two-IsSolid [] h = (refl, (refl, tt))
pad_two-IsSolid (c ∷ []) h = (refl, h)
pad_two-IsSolid (c ∷ d ∷ s) h = h
