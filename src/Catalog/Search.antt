-- ===== src/Catalog/Search.antt =====
-- `Search`: a fuzzy filter.
pub mod Laws
use corrupt_cv.Common.{
  ℕ, ◌≡◌, ◌↔◌, refl, ap, Bool, true, false, ◌||◌, List, [], ◌∷◌, map, arith, Text, codes, ◌==◌,
  ==_iff, is_empty, select, inl, inr, Bool-cases, if◌then◌else◌, Option, none, some,
}
use corrupt_cv.Strings.{trim_space}
use corrupt_cv.Catalog.Load.{Provider, anthropic, fake, ModelCatalogEntry, Catalog}

-- `n` is what of the needle is yet to be found, `n[i:]`.
unfoldable pub is_subsequence_from : Text → Text → Bool
is_subsequence_from [] haystack = true
is_subsequence_from (c ∷ n) [] = false
is_subsequence_from (c ∷ n) (r ∷ rs) =
    let found = is_subsequence_from n rs in
    let missed = is_subsequence_from (c ∷ n) rs in if r == c then found else missed

-- `isSubsequence`
unfoldable pub is_subsequence : Text → Text → Bool
unfolding is_subsequence_from
is_subsequence needle haystack = is_subsequence_from needle haystack

-- `lower` is `unicode.ToLower`.
module _ (lower : ℕ → ℕ) where
  unfoldable pub matches : Text → ModelCatalogEntry → Bool
  unfolding is_subsequence
  matches q e = is_subsequence q (map lower e.key) || is_subsequence q (map lower e.display_name)

  unfoldable pub search : Catalog → Text → List ModelCatalogEntry
  unfolding matches trim_space
  search c query =
      let q = map lower (trim_space query) in
      if is_empty q then c.entries else select (matches q) c.entries

-- The runes of one text occur in another, in their order.
pub data Occurs : Text → Text → Type 0 where
  nothing : (t : Text) → Occurs [] t
  here : {n t : Text} (c : ℕ) → Occurs n t → Occurs (c ∷ n) (c ∷ t)
  later : {n t : Text} (r : ℕ) → Occurs n t → Occurs n (r ∷ t)
