-- ===== src/Catalog/Seed/Bucket.antt =====
-- What a seeded bucket holds.
use corrupt_cv.Common.{
  ◌≡◌, ◌⊎◌, inl, inr, refl, sym, ap, ◌∙◌, Bool, true, false, not, ◌&&◌, List, [], ◌∷◌, Option, none,
  some, arith, Text, Bytes, All, text_eq, text_eq_iff, if◌then◌else◌, Bool-cases,
}
use corrupt_cv.Catalog.Load.{ModelCatalogEntry, Catalog, get}
use corrupt_cv.Catalog.Load.Laws.{IsIndexed}
use corrupt_cv.Catalog.Seed.{
  Kv, KvLaws, among, is_wanted, and_then, put_entry, put_all, evict, evict_listed, seed,
}

and_then_sound :
    {State : Type 0} (r : Bool × State) (next : State → Bool × State) (s' : State)
    → and_then r next ≡ (true, s')
    → (mid : State) × (r ≡ (true, mid)) × (next mid ≡ (true, s'))
and_then_sound (true, s) next s' e = (s, refl, e)
and_then_sound (false, s) next s' e = absurd (ground arith)

module _ {State : Type 0} (kv : Kv State) (laws : KvLaws kv)
    (marshal : ModelCatalogEntry → Option Bytes) where
  put_entry_sound :
      (e : ModelCatalogEntry) (s s' : State) (o : Option Bytes)
      → put_entry kv marshal e s o ≡ (true, s')
      → (bytes : Bytes) × (o ≡ some bytes) × (kv.put e.key bytes s ≡ (true, s'))
  put_entry_sound e s s' none h = absurd (ground arith)
  put_entry_sound e s s' (some bytes) h = (bytes, refl, h)

  module _ (c : Catalog) (k : Text) where
    -- What the writing of some entries did under a key: nothing, or the value of the catalog's
    -- entry.
    abbrev Wrote : List ModelCatalogEntry → State → State → Type 0
    Wrote es s s' =
        ((is_wanted es k ≡ false) × (kv.value k s' ≡ kv.value k s))
        ⊎ ((e : ModelCatalogEntry) × (is_wanted es k ≡ true)
            × (get c k ≡ some e)
            × (kv.value k s' ≡ marshal e))

    put_all-Wrote :
        (es : List ModelCatalogEntry) (s s' : State)
        → All (λ (e : ModelCatalogEntry). get c e.key ≡ some e) es
        → put_all kv marshal es s ≡ (true, s')
        → Wrote es s s'
    unfolding put_all
    put_all-Wrote [] s s' _ h =
        let same : s ≡ s' = ground arith in inl (refl, ap (kv.value k) (sym same))
    put_all-Wrote (e ∷ es) s s' (listed, later) h =
        let (mid, first, rest) = and_then_sound (put_entry kv marshal e s (marshal e)) _ s' h in
        let (bytes, encoded, done) = put_entry_sound e s mid (marshal e) first in
        let written = laws.put_value e.key bytes s mid done k in
        elim (put_all-Wrote es mid s' later rest) [
          | inr (x, wanted, got, value) ↦ inr (x, wanted_cons es e wanted, got, value)
          | inl (absent, kept) ↦ elim (Bool-cases (text_eq e.key k)) [
            | inl hit ↦ inr (
              e,
              ground arith,
              ap (get c) (sym ((text_eq_iff e.key k).0 hit)) ∙ listed,
              kept ∙ written ∙ rw (hit, encoded) refl,
            )
            | inr miss ↦ inl (rw miss absent, kept ∙ written ∙ rw miss refl)
          ]
        ]
      where
        wanted_cons :
            (es : List ModelCatalogEntry) (e : ModelCatalogEntry)
            → is_wanted es k ≡ true
            → is_wanted (e ∷ es) k ≡ true
        wanted_cons es e h = elim (Bool-cases (text_eq e.key k)) [
          | inl hit ↦ rw hit refl
          | inr miss ↦ rw miss h
        ]

    evict_value :
        (es : List ModelCatalogEntry) (ks : List Text) (s s' : State)
        → evict kv marshal es ks s ≡ (true, s')
        → kv.value k s' ≡ (if among k ks && not (is_wanted es k) then none else kv.value k s)
    unfolding evict
    evict_value es [] s s' h = let same : s ≡ s' = ground arith in ap (kv.value k) (sym same)
    evict_value es (x ∷ xs) s s' h = elim (Bool-cases (is_wanted es x)) [
      | inl wanted ↦
          evict_value es xs s s' (rw wanted at h)
          ∙ ground (arith, text_eq_iff x k, λ (e : x ≡ k). ap (is_wanted es) e)
      | inr stale ↦
          let (mid, gone, rest) = and_then_sound (kv.delete x s) _ s' (rw stale at h) in
          evict_value es xs mid s' rest
          ∙ ground (
            arith,
            text_eq_iff x k,
            laws.delete_value x s mid gone k,
            λ (e : x ≡ k). ap (is_wanted es) e,
          )
    ]

    -- What is found under a key of an indexed catalog.
    not_wanted : IsIndexed c → is_wanted c.entries k ≡ false → get c k ≡ none
    not_wanted indexed h = indexed.found k ∙ ground arith

  evict_listed_sound :
      (es : List ModelCatalogEntry) (s s' : State) (o : Option (List Text))
      → evict_listed kv marshal es s o ≡ (true, s')
      → (ks : List Text) × (o ≡ some ks) × (evict kv marshal es ks s ≡ (true, s'))
  evict_listed_sound es s s' none h = absurd (ground arith)
  evict_listed_sound es s s' (some ks) h = (ks, refl, h)

-- Whatever the bucket held, when `Seed` returns no error the bucket has under each key the encoded
-- entry that the catalog has for it, and nothing under any other key; if the index of the catalog
-- agrees with its list, and the bucket keeps the laws of `KvLaws`.
pub seed_value :
    {State : Type 0} (kv : Kv State) (laws : KvLaws kv) (marshal : ModelCatalogEntry → Option Bytes)
    (c : Catalog) (s s' : State) (k : Text)
    → IsIndexed c
    → seed kv marshal c s ≡ (true, s')
    → kv.value k s' ≡ elim (get c k) [ none ↦ none | some e ↦ marshal e ]
unfolding seed
seed_value kv laws marshal c s s' k indexed h =
    let (mid, written, rest) = and_then_sound (put_all kv marshal c.entries s) _ s' h in
    let (ks, listed, evicted) =
      evict_listed_sound kv laws marshal c.entries mid s' (kv.keys mid) rest in
    let last = evict_value kv laws marshal c k c.entries ks mid s' evicted in
    elim (put_all-Wrote kv laws marshal c k c.entries s mid indexed.listed written) [
      | inr (e, wanted, got, value) ↦ last ∙ rw (wanted, got) (ground (arith, value))
      | inl (absent, kept) ↦
          last
          ∙ rw (absent, not_wanted kv laws marshal c k indexed absent)
              (ground (arith, laws.keys_value mid ks listed k))
    ]
