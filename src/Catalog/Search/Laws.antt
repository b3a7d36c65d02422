-- ===== src/Catalog/Search/Laws.antt =====
-- `Search` finds exactly what the query occurs in.
use mathlib.Core.List.{Memᴰ}
use mathlib.Core.List.Memᴰ
use mathlib.Core.Path.{subst}
use corrupt_cv.Common.{
  ℕ, ◌≡◌, ◌↔◌, ◌⊎◌, refl, sym, ap, ◌∙◌, Bool, true, false, List, [], ◌∷◌, map, arith, Text, ◌==◌,
  ==_iff, is_empty, select, inl, inr, Bool-cases,
}
use corrupt_cv.Strings.{trim_space}
use corrupt_cv.Catalog.Load.{ModelCatalogEntry, Catalog}
use corrupt_cv.Catalog.Search.{
  is_subsequence_from, is_subsequence, matches, search, Occurs, nothing, here, later,
}

Occurs-tail : {c : ℕ} {n t : Text} → Occurs (c ∷ n) t → Occurs n t
Occurs-tail (here c o) = later c o
Occurs-tail (later r o) = later r (Occurs-tail o)

Occurs-drop : {c r : ℕ} {n t : Text} → Occurs (c ∷ n) (r ∷ t) → Occurs n t
Occurs-drop (here c o) = o
Occurs-drop (later r o) = Occurs-tail o

not-Occurs-nil : {c : ℕ} {n : Text} → Occurs (c ∷ n) [] → ⊥
not-Occurs-nil o = elim o [ ]

is_subsequence_sound : (n t : Text) → is_subsequence_from n t ≡ true → Occurs n t
unfolding is_subsequence_from
is_subsequence_sound [] t h = nothing t
is_subsequence_sound (c ∷ n) [] h = cc
is_subsequence_sound (c ∷ n) (r ∷ rs) h = elim (Bool-cases (r == c)) [
  | inl e ↦ rw ((==_iff r c).0 e) (here c (is_subsequence_sound n rs (rw e at h)))
  | inr e ↦ later r (is_subsequence_sound (c ∷ n) rs (rw e at h))
]

Occurs-skip : {c r : ℕ} {n t : Text} → (r == c) ≡ false → Occurs (c ∷ n) (r ∷ t) → Occurs (c ∷ n) t
Occurs-skip e (here c o) = absurd (ground arith)
Occurs-skip e (later r o) = o

is_subsequence_complete : (n t : Text) → Occurs n t → is_subsequence_from n t ≡ true
unfolding is_subsequence_from
is_subsequence_complete [] t o = refl
is_subsequence_complete (c ∷ n) [] o = absurd (not-Occurs-nil o)
is_subsequence_complete (c ∷ n) (r ∷ rs) o = elim (Bool-cases (r == c)) [
  | inl e ↦ rw e (is_subsequence_complete n rs (Occurs-drop o))
  | inr e ↦ rw e (is_subsequence_complete (c ∷ n) rs (Occurs-skip e o))
]

-- The greedy scan finds a needle exactly when it occurs somewhere, in order.
pub is_subsequence_iff :
    (needle haystack : Text) → (is_subsequence needle haystack ≡ true) ↔ Occurs needle haystack
unfolding is_subsequence
is_subsequence_iff needle haystack =
    (is_subsequence_sound needle haystack, is_subsequence_complete needle haystack)

module _ {ℓ} {A : Type ℓ} (p : A → Bool) where
  mem-select_sound : (xs : List A) (a : A) → Memᴰ a (select p xs) → Memᴰ a xs × (p a ≡ true)
  mem-select_sound [] a m = absurd (Memᴰ.not-nil m)
  mem-select_sound (x ∷ xs) a m = elim (Bool-cases (p x)) [
    | inl e ↦ elim (Memᴰ.cases_cons (subst (Memᴰ a) (rw e refl) m)) [
      | inl same ↦ (Memᴰ.head same, rw same e)
      | inr rest ↦ let (there, passed) = mem-select_sound xs a rest in (Memᴰ.tail there, passed)
    ]
    | inr e ↦
        let (there, passed) = mem-select_sound xs a (subst (Memᴰ a) (rw e refl) m) in
        (Memᴰ.tail there, passed)
  ]

  mem-select_complete : (xs : List A) (a : A) → Memᴰ a xs → p a ≡ true → Memᴰ a (select p xs)
  mem-select_complete [] a m passed = absurd (Memᴰ.not-nil m)
  mem-select_complete (x ∷ xs) a m passed = elim (Memᴰ.cases_cons m) [
    | inl same ↦ let test : p x ≡ true = ap p (sym same) ∙ passed in rw test (Memᴰ.head same)
    | inr rest ↦ elim (Bool-cases (p x)) [
      | inl e ↦ rw e (Memᴰ.tail (mem-select_complete xs a rest passed))
      | inr e ↦ rw e (mem-select_complete xs a rest passed)
    ]
  ]

-- What the query asks for.
abbrev pub Wanted : (ℕ → ℕ) → Text → ModelCatalogEntry → Type 0
Wanted lower query e =
    let q = map lower (trim_space query) in
    Occurs q (map lower e.key) ⊎ Occurs q (map lower e.display_name)

matches_iff :
    (lower : ℕ → ℕ) (query : Text) (e : ModelCatalogEntry)
    → (matches lower (map lower (trim_space query)) e ≡ true) ↔ Wanted lower query e
unfolding matches
matches_iff lower query e =
    let q = map lower (trim_space query) in
    let k = is_subsequence_iff q (map lower e.key) in
    let n = is_subsequence_iff q (map lower e.display_name) in
    (
      (λ h. elim (Bool-cases (is_subsequence q (map lower e.key))) [
        | inl t ↦ inl (k.0 t)
        | inr f ↦ inr (n.0 (rw f at h))
      ]),
      (λ w. elim w [ inl o ↦ rw (k.1 o) refl | inr o ↦ rw (n.1 o) (ground arith) ]),
    )

Wanted-blank :
    (lower : ℕ → ℕ) (query : Text) (e : ModelCatalogEntry)
    → is_empty (map lower (trim_space query)) ≡ true
    → Wanted lower query e
Wanted-blank lower query e blank =
    let none_left : map lower (trim_space query) ≡ [] = ground arith in
    inl (rw none_left (nothing (map lower e.key)))

-- An entry is among the results exactly when it is in the catalog and the trimmed query occurs in
-- its key or its display name, in order and in any case. A blank query finds everything.
pub mem-search :
    (lower : ℕ → ℕ) (c : Catalog) (query : Text) (e : ModelCatalogEntry)
    → Memᴰ e (search lower c query) ↔ (Memᴰ e c.entries × Wanted lower query e)
unfolding search
mem-search lower c query e = elim (Bool-cases (is_empty (map lower (trim_space query)))) [
  | inl blank ↦ rw blank ((λ m. (m, Wanted-blank lower query e blank)), (λ h. h.0))
  | inr asked ↦
      let p = matches lower (map lower (trim_space query)) in
      rw asked (
        (λ m.
            let (there, passed) = mem-select_sound p c.entries e m in
            (there, (matches_iff lower query e).0 passed)),
        (λ h. mem-select_complete p c.entries e h.0 ((matches_iff lower query e).1 h.1)),
      )
]
