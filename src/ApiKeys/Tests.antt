-- ===== src/ApiKeys/Tests.antt =====
-- Keys with a quota and patterns, and what they may ask for.
use llmrelay_service.Base.{
  true, false, Option, none, some, List, [], ◌∷◌, ◌≡◌, ◌↔◌, refl, Text, codes, pos, list_beq, Json,
  arr, str, nil, cons, list_eq, nat_eq,
}
use llmrelay_service.ApiKeys.Filter.{parse_allowed_models}
use llmrelay_service.ApiKeys.Quota.{quota_snapshot}
use llmrelay_service.ApiKeys.Admission.{
  ApiKeyInfo, quota_used_up, unknown_model, model_not_allowed, refuse_key, refuse_key_iff, MayAsk,
}

abbrev patterns : List Text
patterns = codes "fast" ∷ codes "claude-*" ∷ []

abbrev sample_key : ApiKeyInfo
sample_key = record { quota_exhausted = false; allowed_models = patterns }

abbrev empty_key : ApiKeyInfo
empty_key = record { quota_exhausted = true; allowed_models = [] }

abbrev column : Option Json
column =
    some (arr (cons (str (codes " fast ")) (cons (str (codes "")) (cons (str (codes "fast")) nil))))

admits_sonnet : refuse_key (some sample_key) (codes "claude-3-5-sonnet") ≡ none
unfolding refuse_key
admits_sonnet = refl

refuses_gpt : refuse_key (some sample_key) (codes "gpt-4o") ≡ some model_not_allowed
unfolding refuse_key
refuses_gpt = refl

refuses_unknown : refuse_key (some sample_key) (codes "unknown") ≡ some unknown_model
unfolding refuse_key
refuses_unknown = refl

refuses_used_up : refuse_key (some empty_key) (codes "fast") ≡ some quota_used_up
unfolding refuse_key
refuses_used_up = refl

parses_column : parse_allowed_models column ≡ codes "fast" ∷ []
unfolding parse_allowed_models list_beq
parses_column = refl

refuse_key_iff_example :
    (refuse_key (some sample_key) (codes "claude-3-5-sonnet") ≡ none)
    ↔ MayAsk (codes "claude-3-5-sonnet") (some sample_key)
refuse_key_iff_example = refuse_key_iff (some sample_key) (codes "claude-3-5-sonnet")

used_up : (quota_snapshot (some (pos 5000000)) (some (pos 5000001))).cost_remaining ≡ some 0
unfolding quota_snapshot
used_up = refl
