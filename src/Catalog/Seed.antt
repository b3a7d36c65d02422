-- ===== src/Catalog/Seed.antt =====
-- `Seed`. `Kv` is what it uses of a NATS key-value bucket, with a view of the bucket's values;
-- `KvLaws` is what it relies on.
pub mod Bucket
use corrupt_cv.Common.{
  ℕ, ◌≡◌, Bool, true, false, ◌||◌, List, [], ◌∷◌, Option, none, some, Text, Bytes, text_eq, find,
  is_some, if◌then◌else◌,
}
use corrupt_cv.Catalog.Load.{ModelCatalogEntry, Catalog}

pub record Kv (State : Type 0) : Type 0 where
  pub value : Text → State → Option Bytes
  -- `Put` and `Delete`: whether they return no error.
  pub put : Text → Bytes → State → Bool × State
  pub delete : Text → State → Bool × State
  -- `Keys`; `none` is an error other than ErrNoKeysFound, which is `some []`.
  pub keys : State → Option (List Text)

abbrev pub among : Text → List Text → Bool
among k [] = false
among k (x ∷ xs) = text_eq x k || among k xs

pub record KvLaws {State : Type 0} (kv : Kv State) : Type 0 where
  pub put_value :
      (k : Text) (v : Bytes) (s s' : State)
      → kv.put k v s ≡ (true, s')
      → (o : Text) → kv.value o s' ≡ (if text_eq k o then some v else kv.value o s)
  pub delete_value :
      (k : Text) (s s' : State)
      → kv.delete k s ≡ (true, s')
      → (o : Text) → kv.value o s' ≡ (if text_eq k o then none else kv.value o s)
  pub keys_value :
      (s : State) (ks : List Text)
      → kv.keys s ≡ some ks
      → (k : Text) → is_some (kv.value k s) ≡ among k ks

abbrev pub has_key : Text → ModelCatalogEntry → Bool
has_key k e = text_eq e.key k

-- `_, ok := wanted[key]`
abbrev pub is_wanted : List ModelCatalogEntry → Text → Bool
is_wanted es k = is_some (find (has_key k) es)

-- `return` on an error.
abbrev pub and_then {ℓ} : {State : Type ℓ} → Bool × State → (State → Bool × State) → Bool × State
and_then (false, s) next = (false, s)
and_then (true, s) next = next s

module _ {State : Type 0} (kv : Kv State) (marshal : ModelCatalogEntry → Option Bytes) where
  abbrev pub put_entry : ModelCatalogEntry → State → Option Bytes → Bool × State
  put_entry e s none = (false, s)
  put_entry e s (some bytes) = kv.put e.key bytes s

  unfoldable pub put_all : List ModelCatalogEntry → State → Bool × State
  put_all [] s = (true, s)
  put_all (e ∷ es) s = and_then (put_entry e s (marshal e)) (λ s'. put_all es s')

  unfoldable pub evict : List ModelCatalogEntry → List Text → State → Bool × State
  evict es [] s = (true, s)
  evict es (k ∷ ks) s =
      and_then (if is_wanted es k then (true, s) else kv.delete k s) (λ s'. evict es ks s')

  abbrev pub evict_listed : List ModelCatalogEntry → State → Option (List Text) → Bool × State
  evict_listed es s none = (false, s)
  evict_listed es s (some ks) = evict es ks s

  -- `Seed`: whether it returns nil, and the bucket.
  unfoldable pub seed : Catalog → State → Bool × State
  unfolding put_all evict
  seed c s = and_then (put_all c.entries s) (λ s'. evict_listed c.entries s' (kv.keys s'))
