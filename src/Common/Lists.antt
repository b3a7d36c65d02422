-- ===== src/Common/Lists.antt =====
-- Lists over the native numbers, and texts. A Go string is the list of its runes: the texts of
-- the model are valid UTF-8.
use Prim.Native.Nat.{ℕ, zero, suc, ◌+◌, ◌≤◌}
use Prim.Native.Char.{code}
use Prim.Native.String.{String}
use mathlib.Core.Path.{◌≡◌, refl, ap, subst}
use mathlib.Core.Logic.{◌↔◌, ◌⊎◌, inl, inr}
use mathlib.Core.Bool.{Bool, true, false, ◌&&◌}
use mathlib.Core.Option.{Option, none, some}
use mathlib.Core.List.{List, [], ◌∷◌, ◌++◌}
use native.Mathlib.Omega.{arith}
use corrupt_cv.Common.Tests.{◌==◌, if◌then◌else◌, Bool-cases}

abbrev pub Text : Type 0
Text = List ℕ

abbrev pub Bytes : Type 0
Bytes = List ℕ

-- The runes of a literal.
abbrev pub codes : String → Text
codes String.[] = []
codes (String.◌∷◌ c s) = code c ∷ codes s

-- `==` of Go strings.
unfoldable pub text_eq : Text → Text → Bool
text_eq [] [] = true
text_eq [] (y ∷ ys) = false
text_eq (x ∷ xs) [] = false
text_eq (x ∷ xs) (y ∷ ys) = x == y && text_eq xs ys

pub text_eq_iff : (a b : Text) → (text_eq a b ≡ true) ↔ (a ≡ b)
unfolding text_eq
text_eq_iff [] [] = ground arith
text_eq_iff [] (y ∷ ys) = ground arith
text_eq_iff (x ∷ xs) [] = ground arith
text_eq_iff (x ∷ xs) (y ∷ ys) = ground (arith, text_eq_iff xs ys)

pub text_eq_refl : (a : Text) → text_eq a a ≡ true
text_eq_refl a = (text_eq_iff a a).1 refl

pub text_eq_symm : (a b : Text) → text_eq a b ≡ text_eq b a
text_eq_symm a b = ground (arith, text_eq_iff a b, text_eq_iff b a)

module _ {ℓ} {A : Type ℓ} where
  abbrev pub length : List A → ℕ
  length [] = 0
  length (x ∷ xs) = suc (length xs)

  abbrev pub is_empty : List A → Bool
  is_empty [] = true
  is_empty (x ∷ xs) = false

  abbrev pub take : ℕ → List A → List A
  take zero xs = []
  take (suc n) [] = []
  take (suc n) (x ∷ xs) = x ∷ take n xs

  abbrev pub drop : ℕ → List A → List A
  drop zero xs = xs
  drop (suc n) [] = []
  drop (suc n) (x ∷ xs) = drop n xs

  pub take-append-drop : (n : ℕ) (xs : List A) → take n xs ++ drop n xs ≡ xs
  take-append-drop zero xs = refl
  take-append-drop (suc n) [] = refl
  take-append-drop (suc n) (x ∷ xs) = ap (λ ys. x ∷ ys) (take-append-drop n xs)

  pub length-take_bounds :
      (n : ℕ) (xs : List A)
      → (length (take n xs) ≤ n) × ((drop n xs ≡ []) ⊎ (length (take n xs) ≡ n))
  length-take_bounds zero xs = (omega arith, inr refl)
  length-take_bounds (suc n) [] = (omega arith, inl refl)
  length-take_bounds (suc n) (x ∷ xs) =
      let (within, full) = length-take_bounds n xs in
      (omega (arith, within), elim full [ inl e ↦ inl e | inr e ↦ inr (ap suc e) ])

  -- The first element that passes a test.
  abbrev pub find : (A → Bool) → List A → Option A
  find p [] = none
  find p (x ∷ xs) = if p x then some x else find p xs

  -- The elements that pass a test, in their order.
  abbrev pub select : (A → Bool) → List A → List A
  select p [] = []
  select p (x ∷ xs) = let rest = select p xs in if p x then x ∷ rest else rest

  -- How many elements pass a test.
  abbrev pub count_if : (A → Bool) → List A → ℕ
  count_if p [] = 0
  count_if p (x ∷ xs) = (if p x then 1 else 0) + count_if p xs

  pub length-append : (xs ys : List A) → length (xs ++ ys) ≡ length xs + length ys
  length-append [] ys = omega arith
  length-append (x ∷ xs) ys = omega (arith, length-append xs ys)

module _ {ℓ κ} {A : Type ℓ} (P : A → Type κ) where
  abbrev pub All : List A → Type κ
  All [] = Unit
  All (x ∷ xs) = P x × All xs

  pub All-append : (xs ys : List A) → All xs → All ys → All (xs ++ ys)
  All-append [] ys _ hy = hy
  All-append (x ∷ xs) ys (px, hx) hy = (px, All-append xs ys hx hy)

  -- An element in the middle, and another in its place.
  pub All-middle :
      (before : List A) (x : A) (after : List A)
      → All (before ++ x ∷ after)
      → P x × ((y : A) → P y → All (before ++ y ∷ after))
  All-middle [] x after (first, later) = (first, λ y h. (h, later))
  All-middle (b ∷ before) x after (first, later) =
      let (found, put_in) = All-middle before x after later in (found, λ y h. (first, put_in y h))

  pub All-find :
      (p : A → Bool) (xs : List A) {a : A} → All xs → find p xs ≡ some a → P a × (p a ≡ true)
  All-find p [] h e = cc
  All-find p (x ∷ xs) {a} (here, later) e = elim (Bool-cases (p x)) [
    | inl yes_x ↦
        let same : x ≡ a = ground arith in (subst P same here, subst (λ y. p y ≡ true) same yes_x)
    | inr no_x ↦ All-find p xs later (rw no_x at e)
  ]

  pub All-select : (p : A → Bool) (xs : List A) → ((x : A) → p x ≡ true → P x) → All (select p xs)
  All-select p [] h = tt
  All-select p (x ∷ xs) h = elim (Bool-cases (p x)) [
    | inl e ↦ rw e (h x e, All-select p xs h)
    | inr e ↦ rw e (All-select p xs h)
  ]
