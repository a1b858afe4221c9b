-- ===== src/Web/Tariffs/Figures.antt =====
-- ManualTariffForm.tsx: a figure with a separator is read as it is written.
use helio.Prelude.{
  suc, ℕ, ◌+◌, ◌-◌, ◌*◌, ◌/◌, ◌%◌, ◌^◌, ◌≤◌, ◌<◌, true, false, some, [], ◌∷◌, ◌++◌, ◌≡◌, refl, ap,
  ◌∙◌, arith, all, length, All-append,
}
use helio.Js.Text.{Text, is_digit, is_space}
use helio.Web.Fields.{decimal_from, numeral}
use helio.Web.Fields.Laws.{
  start-numeral, digits_from-append, trim-IsSolid, numeral-IsSolid, all-IsSolid,
}
use helio.Web.Tariffs.{fraction_of, scaled_from, when_safe, micros}
use helio.Web.Tariffs.Laws.{fraction-digits}

-- The reader takes the digits of a number into the number.
scaled_from-numeral :
    (places n : ℕ) (rest : Text)
    → scaled_from places 0 false (numeral n ++ rest) ≡ scaled_from places n true rest
unfolding numeral scaled_from
scaled_from-numeral places n rest =
    ap (scaled_from places 0 false) (digits_from-append (suc n) n [] rest)
    ∙ start-numeral (scaled_from places 0 false) (λ n. scaled_from places n true)
        (λ n out h. ground (arith, scaled_same places (b'0' + n - b'0') n out (omega arith)))
        (λ n out.
          ground
            (arith, scaled_same places (n / 10 * 10 + (b'0' + n % 10 - b'0')) n out (omega arith)))
        n rest
  where
    scaled_same :
        (places m n : ℕ) (out : Text)
        → m ≡ n
        → scaled_from places m true out ≡ scaled_from places n true out
    scaled_same places m n out h = ap (λ k. scaled_from places k true out) h

separated :
    (places n d : ℕ) (s : Text)
    → all is_digit (d ∷ s) ≡ true
    → length (d ∷ s) ≤ places
    → scaled_from places n true (b',' ∷ d ∷ s)
      ≡ some (decimal_from n (d ∷ s) * 10 ^ (places - length (d ∷ s)))
unfolding scaled_from fraction_of
separated places n d s h k = fraction-digits places n (d ∷ s) h k

when_safe-some : (m : ℕ) → m < 2 ^ 53 → when_safe (some m) ≡ some m
unfolding when_safe
when_safe-some m h = ground (arith, h)

comma : is_space b',' ≡ false
unfolding is_space
comma = refl

-- A whole part, a comma and one to six digits are read as the figure in millionths, if that is a safe
-- integer.
pub micros-numeral :
    (n d : ℕ) (s : Text)
    → all is_digit (d ∷ s) ≡ true
    → length (d ∷ s) ≤ 6
    → decimal_from n (d ∷ s) * 10 ^ (6 - length (d ∷ s)) < 2 ^ 53
    → micros (numeral n ++ b',' ∷ d ∷ s) ≡ some (decimal_from n (d ∷ s) * 10 ^ (6 - length (d ∷ s)))
unfolding micros when_safe
micros-numeral n d s h k b =
    let solid =
      All-append (λ c. is_space c ≡ false) (numeral n) (b',' ∷ d ∷ s) (numeral-IsSolid n)
        (comma, all-IsSolid (d ∷ s) h) in
    rw (trim-IsSolid (numeral n ++ b',' ∷ d ∷ s) solid) (
      rw (scaled_from-numeral 6 n (b',' ∷ d ∷ s)) (
        rw (separated 6 n d s h k)
          (when_safe-some (decimal_from n (d ∷ s) * 10 ^ (6 - length (d ∷ s))) b)))
