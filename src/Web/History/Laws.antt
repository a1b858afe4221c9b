-- ===== src/Web/History/Laws.antt =====
-- history-model.ts: the segments of a chart keep every point, and break exactly at the gaps.
use helio.Prelude.{
  Bool, true, false, Option, none, some, ◌≡◌, refl, sym, ap, ◌∙◌, List, [], ◌∷◌, ◌++◌, append_assoc,
  append-nil, arith, Bool-cases, inl, inr, All, last?, last?-append, All-append,
}
use helio.Web.History.{split_from, split_points, first?}

module _ {ℓ} {P : Type ℓ} where
  abbrev pub concat : List (List P) → List P
  concat [] = []
  concat (s ∷ segments) = s ++ concat segments

  concat-append : (xs ys : List (List P)) → concat (xs ++ ys) ≡ concat xs ++ concat ys
  concat-append [] ys = refl
  concat-append (s ∷ xs) ys =
      rw (concat-append xs ys) (sym (append_assoc s (concat xs) (concat ys)))

  module _ (apart : P → P → Bool) where
    -- A segment has a point, and none of its steps is a gap.
    abbrev pub IsSegment : List P → Type 0
    IsSegment [] = ⊥
    IsSegment (p ∷ []) = Unit
    IsSegment (p ∷ q ∷ points) = (apart p q ≡ false) × IsSegment (q ∷ points)

    IsSegment-append :
        (xs : List P) (p q : P)
        → IsSegment xs
        → last? xs ≡ some p
        → apart p q ≡ false
        → IsSegment (xs ++ q ∷ [])
    IsSegment-append (x ∷ []) p q v e h = (ground (arith, h, e), tt)
    IsSegment-append (x ∷ y ∷ xs) p q (a, v) e h = (a, IsSegment-append (y ∷ xs) p q v e h)
    IsSegment-append [] p q v e h = absurd v

    -- There is a gap between two points.
    abbrev pub IsGap : Option P → Option P → Type 0
    IsGap (some p) (some q) = apart p q ≡ true
    IsGap (some p) none = ⊥
    IsGap none q = ⊥

    -- Between two neighbours among the segments there is a gap.
    abbrev pub AreSeparate : List (List P) → Type 0
    AreSeparate [] = Unit
    AreSeparate (s ∷ []) = Unit
    AreSeparate (s ∷ t ∷ segments) = IsGap (last? s) (first? t) × AreSeparate (t ∷ segments)

    AreSeparate-fresh :
        (segments : List (List P)) (s : List P) (p q : P)
        → AreSeparate (segments ++ s ∷ [])
        → last? s ≡ some p
        → apart p q ≡ true
        → AreSeparate ((segments ++ s ∷ []) ++ (q ∷ []) ∷ [])
    AreSeparate-fresh [] s p q v e h = (rw e h, tt)
    AreSeparate-fresh (t ∷ []) s p q (a, v) e h = (a, (rw e h, tt))
    AreSeparate-fresh (t ∷ u ∷ segments) s p q (a, v) e h =
        (a, AreSeparate-fresh (u ∷ segments) s p q v e h)

    AreSeparate-IsLonger :
        (segments : List (List P)) (s : List P) (q : P)
        → AreSeparate (segments ++ s ∷ [])
        → IsSegment s
        → AreSeparate (segments ++ (s ++ q ∷ []) ∷ [])
    AreSeparate-IsLonger [] s q v w = tt
    AreSeparate-IsLonger (t ∷ []) [] q v w = absurd w
    AreSeparate-IsLonger (t ∷ []) (c ∷ s) q v w = v
    AreSeparate-IsLonger (t ∷ u ∷ segments) s q (a, v) w =
        (a, AreSeparate-IsLonger (u ∷ segments) s q v w)

    -- The points, cut into segments exactly at the gaps.
    pub record IsSplit (points : List P) (segments : List (List P)) : Type ℓ where
      pub kept : concat segments ≡ points
      pub whole : All IsSegment segments
      pub separate : AreSeparate segments

    IsSplit-of_equal :
        (points points' : List P) (segments : List (List P))
        → points ≡ points'
        → IsSplit points segments
        → IsSplit points' segments
    IsSplit-of_equal points points' segments e v = record {
      kept = v.kept ∙ e;
      whole = v.whole;
      separate = v.separate;
    }

    split_from-IsSplit :
        (segments : List (List P)) (current : List P) (previous : P) (points : List P)
        → All IsSegment segments
        → IsSegment current
        → last? current ≡ some previous
        → AreSeparate (segments ++ current ∷ [])
        → IsSplit
            (concat segments ++ (current ++ points))
            (split_from apart segments current previous points)
    unfolding split_from
    split_from-IsSplit segments current previous [] a v e w = record {
      kept = concat-append segments (current ∷ []);
      whole = All-append IsSegment segments (current ∷ []) a (v, tt);
      separate = w;
    }
    split_from-IsSplit segments current previous (q ∷ points) a v e w =
        elim (Bool-cases (apart previous q)) [
          | inl h ↦ simp h (
              IsSplit-of_equal (concat (segments ++ current ∷ []) ++ (q ∷ points))
                (concat segments ++ (current ++ q ∷ points))
                (split_from apart (segments ++ current ∷ []) (q ∷ []) q points)
                (simp (concat-append segments (current ∷ []), append-nil current)
                  (append_assoc (concat segments) current (q ∷ points)))
                (split_from-IsSplit (segments ++ current ∷ []) (q ∷ []) q points
                  (All-append IsSegment segments (current ∷ []) a (v, tt)) tt refl
                  (AreSeparate-fresh segments current previous q w e h)))
          | inr h ↦ simp h (
              IsSplit-of_equal (concat segments ++ ((current ++ q ∷ []) ++ points))
                (concat segments ++ (current ++ q ∷ points))
                (split_from apart segments (current ++ q ∷ []) q points)
                (ap (λ r. concat segments ++ r) (append_assoc current (q ∷ []) points))
                (split_from-IsSplit segments (current ++ q ∷ []) q points a
                  (IsSegment-append current previous q v e h) (last?-append current q)
                  (AreSeparate-IsLonger segments current q w v)))
        ]

    pub split_points-IsSplit : (points : List P) → IsSplit points (split_points apart points)
    unfolding split_points
    split_points-IsSplit [] = record { kept = refl; whole = tt; separate = tt }
    split_points-IsSplit (p ∷ points) = split_from-IsSplit [] (p ∷ []) p points tt tt refl tt
