-- ===== src/Telemetry/Carrier.antt =====
-- services/gateway/internal/telemetry/nats.go: `natsHeaderCarrier`. A header maps keys to values
-- and tells upper from lower case; the propagator is the list of pairs that it sets.
use corrupt_cv.Common.{
  ◌≡◌, ◌≢◌, ◌∙◌, refl, All, List, [], ◌∷◌, arith, Text, text_eq, text_eq_iff, if◌then◌else◌,
}

abbrev pub Header : Type 0
Header = List (Text × List Text)

-- `c[key]`; a key that is not there has no values.
unfoldable pub values : Text → Header → List Text
values key [] = []
values key ((k, vs) ∷ h) = if text_eq k key then vs else values key h

abbrev first_or_empty : List Text → Text
first_or_empty [] = []
first_or_empty (v ∷ vs) = v

-- `Get`
unfoldable pub get : Text → Header → Text
unfolding values
get key h = first_or_empty (values key h)

-- `Set`
unfoldable pub set : Text → Text → Header → Header
set key value [] = (key, value ∷ []) ∷ []
set key value ((k, vs) ∷ h) =
    if text_eq k key then (key, value ∷ []) ∷ h else (k, vs) ∷ set key value h

-- `InjectNATS`
unfoldable pub inject_nats : List (Text × Text) → Header → Header
unfolding set
inject_nats [] h = h
inject_nats ((k, v) ∷ pairs) h = inject_nats pairs (set k v h)

-- `Keys`; the code's order is that of a Go map.
unfoldable pub keys : Header → List Text
keys [] = []
keys ((k, vs) ∷ h) = k ∷ keys h

-- `ExtractNATS`: `extract` is the propagator's, on the carrier.
unfoldable pub extract_nats {ℓ} :
    {Ctx : Type ℓ} → ((get : Text → Text) → (keys : List Text) → Ctx) → Header → Ctx
unfolding get keys
extract_nats extract h = extract (λ key. get key h) (keys h)

values-set :
    (key other value : Text) (h : Header)
    → values other (set key value h) ≡ (if text_eq key other then value ∷ [] else values other h)
unfolding values set
values-set key other value [] = refl
values-set key other value ((k, vs) ∷ h) = ground (
  arith,
  text_eq_iff k key,
  text_eq_iff k other,
  text_eq_iff key other,
  values-set key other value h,
)

-- What was set is what is read, under that very spelling of the key and no other.
pub get-set :
    (key other value : Text) (h : Header)
    → get other (set key value h) ≡ (if text_eq key other then value else get other h)
unfolding get
get-set key other value h = ground (arith, values-set key other value h)

-- A key that the propagator does not use keeps its value.
pub get-inject_nats :
    (pairs : List (Text × Text)) (other : Text) (h : Header)
    → All (λ (p : Text × Text). p.0 ≢ other) pairs
    → get other (inject_nats pairs h) ≡ get other h
unfolding inject_nats
get-inject_nats [] other h _ = refl
get-inject_nats ((k, v) ∷ pairs) other h (here, later) =
    get-inject_nats pairs other (set k v h) later
    ∙ ground (arith, get-set k other v h, text_eq_iff k other)
