-- ===== src/Js/Text.antt =====
-- JavaScript strings: sequences of UTF-16 code units. A literal of the source is written
-- `codes "..."`, which is the same sequence for the characters that the source uses.
use mathlib.Core.List.{reverse}
use helio.Prelude.{
  if◌then◌else◌, ◌||◌, ℕ, String, ◌≡◌, refl, ◌↔◌, Bool, true, false, ◌&&◌, List, [], ◌∷◌, arith,
  leb, ◌==◌,
}
use Prim.Native.Char.{code}

abbrev pub Text : Type 0
Text = List ℕ

abbrev pub codes : String → Text
codes String.[] = []
codes (String.◌∷◌ c s) = code c ∷ codes s

-- `===` on strings.
unfoldable pub text_eq : Text → Text → Bool
text_eq [] [] = true
text_eq (x ∷ xs) (y ∷ ys) = (x == y) && text_eq xs ys
text_eq _ _ = false

pub text_eq_sound : (a b : Text) → text_eq a b ≡ true → a ≡ b
unfolding text_eq
text_eq_sound [] [] h = refl
text_eq_sound (x ∷ xs) (y ∷ ys) h = ground (arith, text_eq_sound xs ys)
text_eq_sound _ _ h = ground arith

pub text_eq_refl : (a : Text) → text_eq a a ≡ true
unfolding text_eq
text_eq_refl [] = refl
text_eq_refl (x ∷ xs) = ground (arith, text_eq_refl xs)

pub text_eq_iff : (a b : Text) → (text_eq a b ≡ true) ↔ (a ≡ b)
text_eq_iff a b = (text_eq_sound a b, λ e. rw e (text_eq_refl b))

-- `text.startsWith(prefix)`
unfoldable pub starts_with : Text → Text → Bool
starts_with [] text = true
starts_with (p ∷ ps) [] = false
starts_with (p ∷ ps) (c ∷ cs) = (p == c) && starts_with ps cs

-- `[a-z]`, `\d` and such: a code unit in a range.
abbrev pub in_range : ℕ → ℕ → ℕ → Bool
in_range lo hi c = leb lo c && leb c hi

abbrev pub is_digit : ℕ → Bool
is_digit c = in_range b'0' b'9' c

-- White space and line ends, which `trim` removes.
unfoldable pub is_space : ℕ → Bool
is_space c =
    in_range 9 13 c
    || (c == 32
        || (c == 160
            || (c == 0x1680
                || (in_range 0x2000 0x200A c
                    || (in_range 0x2028 0x2029 c
                        || (c == 0x202F || (c == 0x205F || (c == 0x3000 || c == 0xFEFF))))))))

-- The text without its longest prefix of characters that satisfy the test.
unfoldable pub drop_while : (ℕ → Bool) → Text → Text
drop_while p [] = []
drop_while p (c ∷ s) = let rest = drop_while p s in if p c then rest else c ∷ s

-- The same at the end: `text.replace(/x*$/, '')`.
unfoldable pub drop_end : (ℕ → Bool) → Text → Text
unfolding drop_while
drop_end p s = reverse (drop_while p (reverse s))

-- `text.trim()`
unfoldable pub trim : Text → Text
unfolding drop_end is_space
trim s = drop_end is_space (drop_while is_space s)
