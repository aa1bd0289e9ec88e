-- ===== src/ApiKeys/Admission.antt =====
-- The test of a key in the handler of src/index.ts, lines 447 to 490.
use llmrelay_service.Base.{
  ℕ, Bool, true, false, Option, none, some, List, [], ◌∷◌, ◌≡◌, ◌↔◌, refl, Text, codes, ◌==◌, ==-eq,
  list_eq, nat_eq, Bool-cases, ◌⊎◌, inl, inr, contains, if◌then◌else◌,
}
use llmrelay_service.ApiKeys.Filter.{is_model_allowed, is_model_allowed_iff, Admits}

-- What the handler reads of a key
pub record ApiKeyInfo : Type 0 where
  pub quota_exhausted : Bool
  pub allowed_models : List Text

-- How a request is refused: status 429 where the quota is used up, otherwise 403
pub data Refusal : Type 0 where
  quota_used_up unknown_model model_not_allowed : Refusal

abbrev pub refusal_status : Refusal → ℕ
refusal_status quota_used_up = 429
refusal_status unknown_model = 403
refusal_status model_not_allowed = 403

-- `originalRequestModel` of a body that names no model
abbrev unknown : Text
unknown = codes "unknown"

-- The tests of the model, under `allowed_models.length > 0`
unfoldable pub refuse_model : Text → List Text → Option Refusal
unfolding is_model_allowed
refuse_model model [] = none
refuse_model model (p ∷ ps) =
    if model == unknown
    then some unknown_model
    else if is_model_allowed model (p ∷ ps)
    then none
    else some model_not_allowed

-- The tests of the key that authentication found
unfoldable pub refuse_key : Option ApiKeyInfo → Text → Option Refusal
unfolding refuse_model
refuse_key none model = none
refuse_key (some key) model =
    if key.quota_exhausted then some quota_used_up else refuse_model model key.allowed_models

-- Which models a list of patterns is meant to let through: all of them if it is empty, else those
-- that are known and that a pattern admits.
pub data Permits (model : Text) : List Text → Type 0 where
  unrestricted : Permits model []
  admitted :
      (patterns : List Text) (pattern : Text)
      → ¬ (model ≡ codes "unknown")
      → contains pattern patterns ≡ true
      → Admits model pattern
      → Permits model patterns

-- Which keys are meant to pass
pub data MayAsk (model : Text) : Option ApiKeyInfo → Type 0 where
  without_key : MayAsk model none
  with_key :
      (key : ApiKeyInfo)
      → key.quota_exhausted ≡ false
      → Permits model key.allowed_models
      → MayAsk model (some key)

not_refused :
    (b : Bool) (r : Refusal) (x : Option Refusal)
    → (if b then some r else x) ≡ none
    → (b ≡ false) × (x ≡ none)
not_refused true r x h = cc
not_refused false r x h = (refl, h)

passed : (b : Bool) (r : Refusal) → (if b then none else some r) ≡ none → b ≡ true
passed true r h = refl
passed false r h = cc

refuse_model-Permits :
    (model : Text) (patterns : List Text)
    → refuse_model model patterns ≡ none
    → Permits model patterns
unfolding refuse_model
refuse_model-Permits model [] h = unrestricted
refuse_model-Permits model (p ∷ ps) h =
    let (known, rest) = not_refused (model == unknown) unknown_model _ h in
    let (pattern, (i, a)) =
      (is_model_allowed_iff model (p ∷ ps)).0
        (passed (is_model_allowed model (p ∷ ps)) model_not_allowed rest) in
    admitted (p ∷ ps) pattern (λ e. is_unknown e known) i a
  where
    is_unknown : model ≡ unknown → ¬ ((model == unknown) ≡ false)
    is_unknown e known = cc ((==-eq model unknown).1 e, known)

Permits-refuse_model :
    (model : Text) (patterns : List Text)
    → Permits model patterns
    → refuse_model model patterns ≡ none
unfolding refuse_model
Permits-refuse_model model _ unrestricted = refl
Permits-refuse_model model [] (admitted _ pattern k i a) = refl
Permits-refuse_model model (p ∷ ps) (admitted _ pattern k i a) =
    rw
      (
        is_known (Bool-cases (model == unknown)),
        (is_model_allowed_iff model (p ∷ ps)).1 (pattern, (i, a)),
      )
      refl
  where
    is_known :
        ((model == unknown) ≡ true) ⊎ ((model == unknown) ≡ false) → (model == unknown) ≡ false
    is_known (inl same) = absurd (k ((==-eq model unknown).0 same))
    is_known (inr other) = other

refuse_key-MayAsk :
    (key : Option ApiKeyInfo) (model : Text) → refuse_key key model ≡ none → MayAsk model key
unfolding refuse_key
refuse_key-MayAsk none model h = without_key
refuse_key-MayAsk (some key) model h =
    let (left, rest) = not_refused key.quota_exhausted quota_used_up _ h in
    with_key key left (refuse_model-Permits model key.allowed_models rest)

MayAsk-refuse_key :
    (key : Option ApiKeyInfo) (model : Text) → MayAsk model key → refuse_key key model ≡ none
unfolding refuse_key
MayAsk-refuse_key _ model without_key = refl
MayAsk-refuse_key _ model (with_key key left p) =
    rw left (Permits-refuse_model model key.allowed_models p)

-- A request passes the test of its key exactly if it has no key, or the key's quota is not used up
-- and the key names no models, or one of its patterns admits the model, which is not unknown.
pub refuse_key_iff :
    (key : Option ApiKeyInfo) (model : Text) → (refuse_key key model ≡ none) ↔ MayAsk model key
refuse_key_iff key model = (refuse_key-MayAsk key model, MayAsk-refuse_key key model)
