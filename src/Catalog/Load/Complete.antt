-- ===== src/Catalog/Load/Complete.antt =====
-- Which files are loaded.
use corrupt_cv.Common.{
  ℕ, suc, ◌≡◌, ◌≢◌, refl, ◌∙◌, true, false, List, [], ◌∷◌, none, some, arith, Text, All,
  text_eq_iff, is_empty,
}
use corrupt_cv.Catalog.Load.{
  Provider, YamlEntry, ModelCatalogEntry, Catalog, Loaded, ok, first_invalid_key_rune, lookup, get,
  entry_of, add, provider_of, load_entry, load_from, load, is_key_rune, first_invalid_from,
}

-- An entry that passes the checks, but for duplicates.
pub record IsValid (upper : ℕ → ℕ) (m : YamlEntry) : Type 0 where
  pub key : m.key ≢ []
  pub model_id : m.model_id ≢ []
  pub display_name : m.display_name ≢ []
  pub charset : All (λ r. is_key_rune r ≡ true) m.key
  pub provider : Provider
  pub known : provider_of upper m.provider ≡ some provider

-- No two entries have one key.
abbrev pub HasDistinctKeys : List YamlEntry → Type 0
HasDistinctKeys [] = Unit
HasDistinctKeys (m ∷ ms) = All (λ (x : YamlEntry). m.key ≢ x.key) ms × HasDistinctKeys ms

first_invalid_from-valid :
    (i : ℕ) (key : Text) → All (λ r. is_key_rune r ≡ true) key → first_invalid_from i key ≡ none
unfolding first_invalid_from
first_invalid_from-valid i [] _ = refl
first_invalid_from-valid i (r ∷ rs) (fine, h) =
    rw (first_invalid_from-valid (suc i) rs h) (rw fine refl)

filled : (t : Text) → t ≢ [] → is_empty t ≡ false
filled [] h = absurd (h refl)
filled (c ∷ t) h = refl

module _ (upper : ℕ → ℕ) where
  load_entry-valid :
      (i : ℕ) (c : Catalog) (m : YamlEntry) (next : Catalog → Loaded) (v : IsValid upper m)
      → get c m.key ≡ none
      → load_entry upper i c m next ≡ next (add c (entry_of m v.provider))
  unfolding load_entry first_invalid_key_rune
  load_entry-valid i c m next v new = rw (filled m.key v.key) (
      rw (filled m.model_id v.model_id) (
        rw (filled m.display_name v.display_name)
          (rw (first_invalid_from-valid 0 m.key v.charset) (rw v.known (rw new refl)))))

  -- The keys of the rest of a file are yet to be found.
  abbrev AllNew : Catalog → List YamlEntry → Type 0
  AllNew c = All (λ (m : YamlEntry). get c m.key ≡ none)

  AllNew-add :
      (c : Catalog) (e : ModelCatalogEntry) (ms : List YamlEntry)
      → All (λ (x : YamlEntry). e.key ≢ x.key) ms
      → AllNew c ms
      → AllNew (add c e) ms
  unfolding get lookup
  AllNew-add c e [] _ _ = tt
  AllNew-add c e (m ∷ ms) (apart, others) (new, later) =
      (ground (arith, text_eq_iff e.key m.key), AllNew-add c e ms others later)

  load_from-valid :
      (i : ℕ) (c : Catalog) (ms : List YamlEntry)
      → All (IsValid upper) ms
      → HasDistinctKeys ms
      → AllNew c ms
      → (c' : Catalog) × (load_from upper i c ms ≡ ok c')
  unfolding load_from
  load_from-valid i c [] _ _ _ = (c, refl)
  load_from-valid i c (m ∷ ms) (v, valid) (apart, distinct) (new, later) =
      let c1 = add c (entry_of m v.provider) in
      let (c', loads) =
        load_from-valid (suc i) c1 ms valid distinct
          (AllNew-add c (entry_of m v.provider) ms apart later) in
      (c', load_entry-valid i c m (λ d. load_from upper (suc i) d ms) v new ∙ loads)

-- A file with an entry or more is loaded, if every entry has its fields, a key in the charset and
-- a known provider, and no two have one key.
pub load_valid :
    (upper : ℕ → ℕ) (m : YamlEntry) (ms : List YamlEntry)
    → All (IsValid upper) (m ∷ ms)
    → HasDistinctKeys (m ∷ ms)
    → (c : Catalog) × (load upper (some (m ∷ ms)) ≡ ok c)
unfolding load get lookup
load_valid upper m ms valid distinct =
    load_from-valid upper 0 (record { entries = []; by_key = [] }) (m ∷ ms) valid distinct
      (fresh (m ∷ ms))
  where
    fresh :
        (ms : List YamlEntry)
        → All (λ (x : YamlEntry). get (record { entries = []; by_key = [] }) x.key ≡ none) ms
    fresh [] = tt
    fresh (m ∷ ms) = (refl, fresh ms)
