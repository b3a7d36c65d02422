-- ===== src/Catalog/Load.antt =====
-- `Load` and the lookups.
pub mod Laws
pub mod Complete
use mathlib.Core.Option
use corrupt_cv.Common.{
  ℕ, zero, suc, ◌+◌, Bool, true, false, not, ◌&&◌, ◌||◌, List, [], ◌∷◌, ◌++◌, map, Option, none,
  some, Text, codes, text_eq, is_empty, is_some, leb, ◌==◌, if◌then◌else◌,
}

-- The enum of services/gateway/gen/cvgen/catalog/v1/catalog.pb.go.
pub data Provider : Type 0 where
  unspecified anthropic openai google fake openrouter : Provider

-- `Provider_value`
unfoldable pub provider_value : Text → Option Provider
provider_value name =
    if text_eq name (codes "PROVIDER_UNSPECIFIED")
    then some unspecified
    else if text_eq name (codes "PROVIDER_ANTHROPIC")
    then some anthropic
    else if text_eq name (codes "PROVIDER_OPENAI")
    then some openai
    else if text_eq name (codes "PROVIDER_GOOGLE")
    then some google
    else if text_eq name (codes "PROVIDER_FAKE")
    then some fake
    else if text_eq name (codes "PROVIDER_OPENROUTER")
    then some openrouter
    else none

pub record YamlEntry : Type 0 where
  pub key : Text
  pub provider : Text
  pub model_id : Text
  pub display_name : Text
  pub description : Option Text

pub record ModelCatalogEntry : Type 0 where
  pub key : Text
  pub provider : Provider
  pub model_id : Text
  pub display_name : Text
  pub description : Option Text

pub record Catalog : Type 0 where
  pub entries : List ModelCatalogEntry
  pub by_key : List (Text × ModelCatalogEntry)

-- Where `Load` gives up; a position counts runes from 1.
pub data LoadError : Type 0 where
  unreadable no_models : LoadError
  missing_field : ℕ → LoadError
  invalid_rune : Text → (rune position : ℕ) → LoadError
  unknown_provider duplicate_key : Text → LoadError

pub data Loaded : Type 0 where
  ok : Catalog → Loaded
  err : LoadError → Loaded

-- The charset of NATS KV keys.
unfoldable pub is_key_rune : ℕ → Bool
is_key_rune r =
    leb b'a' r && leb r b'z'
    || leb b'A' r && leb r b'Z'
    || leb b'0' r && leb r b'9'
    || r == b'-'
    || r == b'/'
    || r == b'_'
    || r == b'='
    || r == b'.'

first_invalid_from : ℕ → Text → Option (ℕ × ℕ)
first_invalid_from i [] = none
first_invalid_from i (r ∷ rs) =
    let rest = first_invalid_from (suc i) rs in if is_key_rune r then rest else some (r, suc i)

-- `firstInvalidKeyRune`; `none` is `(0, 0, false)`.
unfoldable pub first_invalid_key_rune : Text → Option (ℕ × ℕ)
unfolding first_invalid_from is_key_rune
first_invalid_key_rune key = first_invalid_from 0 key

unfoldable pub lookup : Text → List (Text × ModelCatalogEntry) → Option ModelCatalogEntry
lookup key [] = none
lookup key ((k, e) ∷ rest) = if text_eq k key then some e else lookup key rest

-- `Get`; `none` is nil.
unfoldable pub get : Catalog → Text → Option ModelCatalogEntry
unfolding lookup
get c key = lookup key c.by_key

-- A provider that a name stands for, other than the unspecified one.
abbrev pub specified : Option Provider → Option Provider
specified (some unspecified) = none
specified p = p

abbrev pub entry_of : YamlEntry → Provider → ModelCatalogEntry
entry_of m p = record {
  key = m.key;
  provider = p;
  model_id = m.model_id;
  display_name = m.display_name;
  description = m.description;
}

abbrev pub add : Catalog → ModelCatalogEntry → Catalog
add c e = record { entries = c.entries ++ e ∷ []; by_key = (e.key, e) ∷ c.by_key }

-- `upper` is `unicode.ToUpper`.
module _ (upper : ℕ → ℕ) where
  unfoldable pub provider_of : Text → Option Provider
  unfolding provider_value
  provider_of name = specified (provider_value (codes "PROVIDER_" ++ map upper name))

  abbrev pub check_duplicate : Catalog → YamlEntry → Option Provider → (Catalog → Loaded) → Loaded
  check_duplicate c m none k = err (unknown_provider m.key)
  check_duplicate c m (some p) k =
      if is_some (get c m.key) then err (duplicate_key m.key) else k (add c (entry_of m p))

  abbrev pub check_key : Catalog → YamlEntry → Option (ℕ × ℕ) → (Catalog → Loaded) → Loaded
  check_key c m (some (r, at)) k = err (invalid_rune m.key r at)
  check_key c m none k = check_duplicate c m (provider_of m.provider) k

  -- One round of the loop, with the rest of the loop behind it.
  unfoldable pub load_entry : ℕ → Catalog → YamlEntry → (Catalog → Loaded) → Loaded
  unfolding get first_invalid_key_rune provider_of
  load_entry i c m k =
      if is_empty m.key || is_empty m.model_id || is_empty m.display_name
      then err (missing_field i)
      else check_key c m (first_invalid_key_rune m.key) k

  unfoldable pub load_from : ℕ → Catalog → List YamlEntry → Loaded
  unfolding load_entry
  load_from i c [] = ok c
  load_from i c (m ∷ ms) = load_entry i c m (λ c'. load_from (suc i) c' ms)

  -- `Load`, of what the file and the YAML parser gave.
  unfoldable pub load : Option (List YamlEntry) → Loaded
  unfolding load_from
  load none = err unreadable
  load (some []) = err no_models
  load (some (m ∷ ms)) = load_from 0 (record { entries = []; by_key = [] }) (m ∷ ms)
