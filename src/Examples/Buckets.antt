-- ===== src/Examples/Buckets.antt =====
-- A bucket as a list, and a catalog that is seeded into it.
use corrupt_cv.Common.{
  ◌≡◌, refl, ap, Bool, true, List, [], ◌∷◌, Option, none, some, arith, Text, Bytes, codes, text_eq,
  text_eq_iff, is_some, if◌then◌else◌,
}
use corrupt_cv.Catalog.Load.{Provider, ModelCatalogEntry, Catalog, get, is_key_rune, lookup}
use corrupt_cv.Catalog.Load.Laws.{IsIndexed}
use corrupt_cv.Catalog.Seed.{Kv, KvLaws, among, seed, put_all, evict}
use corrupt_cv.Catalog.Seed.Bucket.{seed_value}

abbrev Stored : Type 0
Stored = List (Text × Bytes)

abbrev stored_value : Text → Stored → Option Bytes
stored_value k [] = none
stored_value k ((x, v) ∷ s) = if text_eq x k then some v else stored_value k s

abbrev drop_key : Text → Stored → Stored
drop_key k [] = []
drop_key k ((x, v) ∷ s) = let rest = drop_key k s in if text_eq x k then rest else (x, v) ∷ rest

abbrev stored_keys : Stored → List Text
stored_keys [] = []
stored_keys ((x, v) ∷ s) = x ∷ stored_keys s

abbrev bucket : Kv Stored
bucket = record {
  value = stored_value;
  put = λ k v s. (true, (k, v) ∷ s);
  delete = λ k s. (true, drop_key k s);
  keys = λ s. some (stored_keys s);
}

value-drop_key :
    (k o : Text) (s : Stored)
    → stored_value o (drop_key k s) ≡ (if text_eq k o then none else stored_value o s)
value-drop_key k o [] = ground arith
value-drop_key k o ((x, v) ∷ s) =
    ground (arith, text_eq_iff x k, text_eq_iff x o, text_eq_iff k o, value-drop_key k o s)

value_among : (k : Text) (s : Stored) → is_some (stored_value k s) ≡ among k (stored_keys s)
value_among k [] = refl
value_among k ((x, v) ∷ s) = ground (arith, value_among k s)

bucket-KvLaws : KvLaws bucket
bucket-KvLaws = record {
  put_value = λ k v s s' e o.
      let same : (k, v) ∷ s ≡ s' = ap (λ (r : Bool × Stored). r.1) e in rw (← same) refl;
  delete_value = λ k s s' e o.
      let same : drop_key k s ≡ s' = ap (λ (r : Bool × Stored). r.1) e in
      rw (← same) (value-drop_key k o s);
  keys_value =
      λ s ks e k. let same : stored_keys s ≡ ks = ground arith in rw (← same) (value_among k s);
}

abbrev entry : ModelCatalogEntry
entry = record {
  key = codes "m";
  provider = Provider.fake;
  model_id = codes "none";
  display_name = codes "Test";
  description = none;
}

abbrev cat : Catalog
cat = record { entries = entry ∷ []; by_key = (codes "m", entry) ∷ [] }

cat-IsIndexed : IsIndexed cat
unfolding get lookup is_key_rune text_eq
cat-IsIndexed = record {
  good = (
    record {
      key = ground arith;
      charset = (refl, tt);
      model_id = ground arith;
      display_name = ground arith;
      provider = ground arith;
    },
    tt,
  );
  listed = (refl, tt);
  found = λ k. refl;
}

-- The bucket holds an entry that the catalog no longer has.
seed_value_example : stored_value (codes "old") ((codes "m", codes "none") ∷ []) ≡ none
unfolding seed put_all evict get lookup text_eq
seed_value_example =
    seed_value bucket bucket-KvLaws (λ e. some e.model_id) cat ((codes "old", codes "x") ∷ [])
      ((codes "m", codes "none") ∷ []) (codes "old") cat-IsIndexed refl
