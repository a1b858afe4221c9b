-- ===== src/Web/Live/Times.antt =====
-- useLiveTelemetry.ts: the order in which `mergeState` compares times.
use helio.Prelude.{
  true, false, Option, none, some, ◌≡◌, refl, arith, Bool-cases, inl, inr, ℤ, if◌then◌else◌,
}
use helio.Web.Live.{no_earlier}

-- `t` is no earlier than `u`.
abbrev pub IsNoEarlier : Option ℤ → Option ℤ → Type 0
IsNoEarlier t u = no_earlier t u ≡ true

pub IsNoEarlier-refl : (t : Option ℤ) → IsNoEarlier t t
IsNoEarlier-refl none = refl
IsNoEarlier-refl (some t) = ground arith

pub IsNoEarlier-trans : (t u v : Option ℤ) → IsNoEarlier t u → IsNoEarlier u v → IsNoEarlier t v
IsNoEarlier-trans t u none h k = refl
IsNoEarlier-trans none none (some v) h k = k
IsNoEarlier-trans none (some u) (some v) h k = cc
IsNoEarlier-trans (some t) none (some v) h k = cc
IsNoEarlier-trans (some t) (some u) (some v) h k = ground arith

pub IsNoEarlier-total : (t u : Option ℤ) → no_earlier t u ≡ false → IsNoEarlier u t
IsNoEarlier-total t none h = cc
IsNoEarlier-total none (some u) h = refl
IsNoEarlier-total (some t) (some u) h = ground arith

-- The later of two by a time, as the code takes it.
module _ {ℓ} {A : Type ℓ} (at : A → Option ℤ) where
  abbrev pub latest : A → A → A
  latest a b = if no_earlier (at a) (at b) then a else b

  pub latest-IsNoEarlier :
      (a b : A) → IsNoEarlier (at (latest a b)) (at a) × IsNoEarlier (at (latest a b)) (at b)
  latest-IsNoEarlier a b = elim (Bool-cases (no_earlier (at a) (at b))) [
    | inl e ↦ simp e (IsNoEarlier-refl (at a), refl)
    | inr e ↦ simp e (IsNoEarlier-total (at a) (at b) e, IsNoEarlier-refl (at b))
  ]
