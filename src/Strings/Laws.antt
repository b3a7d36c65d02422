-- ===== src/Strings/Laws.antt =====
-- Laws of splitting, joining, cutting and trimming.
use corrupt_cv.Common.{ℕ, ◌≡◌, ◌≢◌, refl, ap, List, [], ◌∷◌, ◌++◌, some, arith, Text, All}
use corrupt_cv.Strings.{Lacks, prepend, split, join, cut}

module _ (sep : ℕ) where
  pub split-append_sep : (p s : Text) → Lacks sep p → split sep (p ++ sep ∷ s) ≡ p ∷ split sep s
  unfolding split
  split-append_sep [] s _ = ground arith
  split-append_sep (c ∷ p) s (other, h) = ground (arith, split-append_sep p s h)

  pub split_of_Lacks : (p : Text) → Lacks sep p → split sep p ≡ p ∷ []
  unfolding split
  split_of_Lacks [] _ = refl
  split_of_Lacks (c ∷ p) (other, h) = ground (arith, split_of_Lacks p h)

  join-prepend : (c : ℕ) (ps : List Text) → join sep (prepend c ps) ≡ c ∷ join sep ps
  unfolding join
  join-prepend c [] = refl
  join-prepend c (p ∷ []) = refl
  join-prepend c (p ∷ q ∷ ps) = refl

  pub split-ne-nil : (s : Text) → split sep s ≢ []
  unfolding split
  split-ne-nil [] = ground arith
  split-ne-nil (c ∷ s) = ground (arith, split-ne-nil s)

  join-nil_cons : (ps : List Text) → ps ≢ [] → join sep ([] ∷ ps) ≡ sep ∷ join sep ps
  unfolding join
  join-nil_cons [] h = absurd (h refl)
  join-nil_cons (p ∷ ps) h = refl

  pub join-split : (s : Text) → join sep (split sep s) ≡ s
  unfolding split
  join-split [] = unfold join in refl
  join-split (c ∷ s) = ground (
    arith,
    join-split s,
    join-prepend c (split sep s),
    join-nil_cons (split sep s) (split-ne-nil s),
  )

  All-prepend :
      (c : ℕ) (ps : List Text) → c ≢ sep → All (Lacks sep) ps → All (Lacks sep) (prepend c ps)
  All-prepend c [] h _ = ((h, tt), tt)
  All-prepend c (p ∷ ps) h (hp, hps) = ((h, hp), hps)

  pub split-Lacks : (s : Text) → All (Lacks sep) (split sep s)
  unfolding split
  split-Lacks [] = (tt, tt)
  split-Lacks (c ∷ s) =
      ground (arith, split-Lacks s, λ (h : c ≢ sep). All-prepend c (split sep s) h (split-Lacks s))

  pub cut-append_sep : (p s : Text) → Lacks sep p → cut sep (p ++ sep ∷ s) ≡ some (p, s)
  unfolding cut
  cut-append_sep [] s _ = ground arith
  cut-append_sep (c ∷ p) s (other, h) = ground (arith, cut-append_sep p s h)

  -- What was cut spells the text.
  pub cut_sound : (s a b : Text) → cut sep s ≡ some (a, b) → (s ≡ a ++ sep ∷ b) × Lacks sep a
  unfolding cut
  cut_sound [] a b e = cc
  cut_sound (c ∷ s) [] b e = ground arith
  cut_sound (c ∷ s) (d ∷ a) b e = ground (arith, cut_sound s a b)

  -- Two texts that are joined by a separator which the first parts lack have equal parts.
  pub append_sep_injective :
      (p q s t : Text) → Lacks sep p → Lacks sep q → p ++ sep ∷ s ≡ q ++ sep ∷ t → (p ≡ q) × (s ≡ t)
  append_sep_injective p q s t hp hq e =
      ground (arith, cut-append_sep p s hp, cut-append_sep q t hq, ap (cut sep) e)
