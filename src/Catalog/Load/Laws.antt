-- ===== src/Catalog/Load/Laws.antt =====
-- What a loaded catalog is.
use corrupt_cv.Common.{
  ℕ, suc, ◌≡◌, ◌≢◌, refl, sym, ap, ◌∙◌, ◌⊎◌, Bool, true, false, ◌||◌, List, [], ◌∷◌, ◌++◌, Option,
  none, some, arith, Text, All, All-append, find, text_eq, text_eq_iff, text_eq_refl, is_empty,
  is_some, inl, inr, Bool-cases, if◌then◌else◌, append-nil, append_assoc, map,
}
use mathlib.Core.List.{map-append}
use corrupt_cv.Catalog.Load.{
  Provider, unspecified, YamlEntry, ModelCatalogEntry, Catalog, Loaded, ok, first_invalid_key_rune,
  lookup, get, entry_of, add, provider_of, check_key, check_duplicate, specified, load_entry,
  load_from, load, is_key_rune, first_invalid_from,
}

-- An entry that passed the checks of the loop.
pub record IsGood (e : ModelCatalogEntry) : Type 0 where
  pub key : e.key ≢ []
  pub charset : All (λ r. is_key_rune r ≡ true) e.key
  pub model_id : e.model_id ≢ []
  pub display_name : e.display_name ≢ []
  pub provider : e.provider ≢ unspecified

first_invalid_from-none :
    (i : ℕ) (key : Text) → first_invalid_from i key ≡ none → All (λ r. is_key_rune r ≡ true) key
unfolding first_invalid_from
first_invalid_from-none i [] h = tt
first_invalid_from-none i (r ∷ rs) h = elim (Bool-cases (is_key_rune r)) [
  | inl e ↦ (e, first_invalid_from-none (suc i) rs (rw e at h))
  | inr e ↦ absurd (ground arith)
]

-- The entry that a round adds, with what its tests have shown.
abbrev Adds : Catalog → YamlEntry → (Catalog → Loaded) → Catalog → Type 0
Adds c m k c' =
    (p : Provider) × (k (add c (entry_of m p)) ≡ ok c')
    × IsGood (entry_of m p)
    × (get c m.key ≡ none)

is_some-false {ℓ} : {A : Type ℓ} (o : Option A) → is_some o ≡ false → o ≡ none
is_some-false none h = refl
is_some-false (some a) h = cc

specified-ne : (o : Option Provider) {p : Provider} → specified o ≡ some p → p ≢ unspecified
specified-ne o h e = ground arith

module _ (upper : ℕ → ℕ) (c : Catalog) (m : YamlEntry) (k : Catalog → Loaded) (c' : Catalog) where
  check_duplicate_sound :
      (p : Option Provider)
      → provider_of upper m.provider ≡ p
      → m.key ≢ []
      → m.model_id ≢ []
      → m.display_name ≢ []
      → All (λ r. is_key_rune r ≡ true) m.key
      → check_duplicate upper c m p k ≡ ok c'
      → Adds c m k c'
  unfolding provider_of
  check_duplicate_sound none named a b d valid h = absurd (ground arith)
  check_duplicate_sound (some p) named a b d valid h = elim (Bool-cases (is_some (get c m.key))) [
    | inl e ↦ absurd (ground arith)
    | inr e ↦ (
      p,
      rw e at h,
      record {
        key = a;
        charset = valid;
        model_id = b;
        display_name = d;
        provider = specified-ne _ named;
      },
      is_some-false (get c m.key) e,
    )
  ]

  check_key_sound :
      (o : Option (ℕ × ℕ))
      → first_invalid_key_rune m.key ≡ o
      → m.key ≢ []
      → m.model_id ≢ []
      → m.display_name ≢ []
      → check_key upper c m o k ≡ ok c'
      → Adds c m k c'
  unfolding first_invalid_key_rune
  check_key_sound (some (r, at)) found a b d h = absurd (ground arith)
  check_key_sound none found a b d h =
      check_duplicate_sound (provider_of upper m.provider) refl a b d
        (first_invalid_from-none 0 m.key found) h

  load_entry_sound : (i : ℕ) → load_entry upper i c m k ≡ ok c' → Adds c m k c'
  unfolding load_entry
  load_entry_sound i h =
      elim (Bool-cases (is_empty m.key || is_empty m.model_id || is_empty m.display_name)) [
        | inl e ↦ absurd (ground arith)
        | inr e ↦
            check_key_sound (first_invalid_key_rune m.key) refl (ground arith) (ground arith)
              (ground arith) (rw e at h)
      ]

-- The map of a catalog agrees with its list.
pub record IsIndexed (c : Catalog) : Type 0 where
  pub good : All IsGood c.entries
  pub listed : All (λ (e : ModelCatalogEntry). get c e.key ≡ some e) c.entries
  pub found : (k : Text) → get c k ≡ find (λ (e : ModelCatalogEntry). text_eq e.key k) c.entries

find-append_one {ℓ} :
    {A : Type ℓ} (p : A → Bool) (xs : List A) (x : A)
    → find p (xs ++ x ∷ [])
      ≡ elim (find p xs) [ some a ↦ some a | none ↦ if p x then some x else none ]
find-append_one p [] x = refl
find-append_one p (y ∷ ys) x = elim (Bool-cases (p y)) [
  | inl e ↦ rw e refl
  | inr e ↦ rw e (find-append_one p ys x)
]

module _ {ℓ} {A : Type ℓ} (e : A) where
  or_else :
      (b : Bool)
      → b ≡ false
      → (o : Option A) → o ≡ elim o [ some a ↦ some a | none ↦ if b then some e else none ]
  or_else b h none = rw h refl
  or_else b h (some a) = refl

module _ (c : Catalog) (e : ModelCatalogEntry) (new : get c e.key ≡ none) where
  get-add : (k : Text) → get (add c e) k ≡ (if text_eq e.key k then some e else get c k)
  unfolding get lookup
  get-add k = refl

  listed-add :
      (es : List ModelCatalogEntry)
      → All (λ (x : ModelCatalogEntry). get c x.key ≡ some x) es
      → All (λ (x : ModelCatalogEntry). get (add c e) x.key ≡ some x) es
  listed-add [] _ = tt
  listed-add (x ∷ xs) (here, later) = (go (Bool-cases (text_eq e.key x.key)), listed-add xs later)
    where
      go :
          (text_eq e.key x.key ≡ true) ⊎ (text_eq e.key x.key ≡ false)
          → get (add c e) x.key ≡ some x
      go (inl same) =
          let clash : get c e.key ≡ some x = rw ((text_eq_iff e.key x.key).0 same) here in
          absurd (ground arith)
      go (inr other) = get-add x.key ∙ rw other here

  IsIndexed-add : IsGood e → IsIndexed c → IsIndexed (add c e)
  IsIndexed-add good_e h = record {
    good = All-append IsGood c.entries (e ∷ []) h.good (good_e, tt);
    listed =
        All-append (λ (x : ModelCatalogEntry). get (add c e) x.key ≡ some x) c.entries (e ∷ [])
          (listed-add c.entries h.listed) (get-add e.key ∙ rw (text_eq_refl e.key) refl, tt);
    found = λ k.
        get-add k
        ∙ found_add k (Bool-cases (text_eq e.key k))
        ∙ sym (find-append_one (λ (x : ModelCatalogEntry). text_eq x.key k) c.entries e);
  }
    where
      found_add :
          (k : Text)
          → (text_eq e.key k ≡ true) ⊎ (text_eq e.key k ≡ false)
          → (if text_eq e.key k then some e else get c k)
            ≡ elim (find (λ (x : ModelCatalogEntry). text_eq x.key k) c.entries) [
              | some a ↦ some a
              | none ↦ if text_eq e.key k then some e else none
            ]
      found_add k (inl same) =
          let absent : find (λ (x : ModelCatalogEntry). text_eq x.key k) c.entries ≡ none =
            sym (h.found k) ∙ ap (get c) (sym ((text_eq_iff e.key k).0 same)) ∙ new in
          rw absent (rw same refl)
      found_add k (inr other) =
          ap (λ b. if b then some e else get c k) other
          ∙ h.found k
          ∙ or_else e (text_eq e.key k) other
              (find (λ (x : ModelCatalogEntry). text_eq x.key k) c.entries)

-- A loaded catalog: its index agrees with its list, every entry is good, and the keys are those
-- of the file, in its order.
pub record IsLoaded (c : Catalog) (ms : List YamlEntry) : Type 0 where
  pub indexed : IsIndexed c
  pub in_order :
      map (λ (e : ModelCatalogEntry). e.key) c.entries ≡ map (λ (m : YamlEntry). m.key) ms

load_from_sound :
    (upper : ℕ → ℕ) (i : ℕ) (c c' : Catalog) (ms : List YamlEntry)
    → IsIndexed c
    → load_from upper i c ms ≡ ok c'
    → IsIndexed c'
      × (map (λ (e : ModelCatalogEntry). e.key) c'.entries
          ≡ map (λ (e : ModelCatalogEntry). e.key) c.entries ++ map (λ (m : YamlEntry). m.key) ms)
unfolding load_from
load_from_sound upper i c c' [] h e =
    let same : c ≡ c' = ground arith in rw (← same) (h, sym (append-nil _))
load_from_sound upper i c c' (m ∷ ms) h e =
    let (p, rest, good, new) =
      load_entry_sound upper c m (λ d. load_from upper (suc i) d ms) c' i e in
    let (indexed, order) =
      load_from_sound upper (suc i) (add c (entry_of m p)) c' ms
        (IsIndexed-add c (entry_of m p) new good h) rest in
    (indexed, order ∙ simp (map-append, append_assoc))

-- A catalog that `Load` returns has an index that agrees with its list: every entry is found by
-- its key and nothing else is. Its entries passed every check, and their keys are those of the
-- file, in the order of the file.
pub load-IsLoaded :
    (upper : ℕ → ℕ) (ms : List YamlEntry) (c : Catalog)
    → load upper (some ms) ≡ ok c
    → IsLoaded c ms
unfolding load
load-IsLoaded upper [] c e = absurd (ground arith)
load-IsLoaded upper (m ∷ ms) c e =
    let (indexed, order) =
      load_from_sound upper 0 (record { entries = []; by_key = [] }) c (m ∷ ms)
        (record { good = tt; listed = tt; found = λ k. unfold get lookup in refl }) e in
    record { indexed = indexed; in_order = order }
