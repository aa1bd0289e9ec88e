-- ===== src/Failover.antt =====
-- src/gateway-failover.ts: the failover policy, how an input becomes one, and what it decides.
-- `number_of v` is `Number(v)` where that is finite, and `none` where it is not. A `none` as the
-- result of a normalisation is an exception that the source throws.
pub mod Rules
pub mod Limits
pub mod Tests
use llmrelay_service.Base.{
  ℕ, zero, suc, ◌+◌, ◌/◌, ◌*◌, Bool, true, false, not, ◌&&◌, ◌||◌, Option, none, some, List, [],
  ◌∷◌, ◌++◌, map, Text, codes, length, trim, is_empty, ◌==◌, nat_eq, list_eq, lookup, insert,
  contains, dedupe, find, and_then, each, or_else, if◌then◌else◌, ltb, leb, ltb_ℤ, ℤ, pos, negsuc,
  one, of_ℕ, Json, null, bool, str, arr, obj, Props, get, elems, sort_by,
}
use mathlib.Core.Option
use llmrelay_service.Base.JsonValues

-- `ModelFallbackMode`
pub data FallbackMode : Type 0 where
  disabled same_model any_model : FallbackMode

-- `CustomModelFallbackRule`
pub record Rule : Type 0 where
  pub model : Text
  pub fallbacks : List Text

-- `GatewayFailoverPolicy`; the one status range there is, 5xx, is present or not.
pub record Policy : Type 0 where
  pub enabled : Bool
  pub retry_attempts : ℕ
  pub model_fallback_mode : FallbackMode
  pub max_fallback_attempts : ℕ
  pub custom_model_fallbacks : List Rule
  pub retry_on_timeout : Bool
  pub retry_on_network_error : Bool
  pub retry_on_status_codes : List ℕ
  pub retry_on_5xx : Bool
  pub circuit_breaker_enabled : Bool
  pub circuit_breaker_failure_threshold : ℕ
  pub circuit_breaker_cooldown_ms : ℕ

-- `FailoverTrigger`
pub data Trigger : Type 0 where
  timeout network_error : Trigger
  status : ℕ → Trigger

-- `readBoolean`
unfoldable pub read_boolean : Option Json → Bool → Bool
read_boolean (some (Json.bool b)) fallback = b
read_boolean _ fallback = fallback

-- `Math.trunc` of a number, `none` below zero
unfoldable pub whole : ℤ → Option ℕ
unfolding one
whole (pos n) = some (n / one)
whole (negsuc n) = if ltb (suc n) one then some 0 else none

-- The test on the limits
abbrev pub within : ℕ → ℕ → Option ℕ → Option ℕ
within lo hi none = none
within lo hi (some n) = if ltb n lo || ltb hi n then none else some n

-- `normalizeIntegerInRange`
unfoldable pub normalize_integer : (Json → Option ℤ) → Option Json → ℕ → ℕ → ℕ → Option ℕ
unfolding whole
normalize_integer number_of none fallback lo hi = some fallback
normalize_integer number_of (some Json.null) fallback lo hi = some fallback
normalize_integer number_of (some (Json.str [])) fallback lo hi = some fallback
normalize_integer number_of (some v) fallback lo hi = within lo hi (and_then (number_of v) whole)

-- `normalizeModelFallbackMode`
unfoldable pub normalize_mode : Option Json → FallbackMode → Option FallbackMode
normalize_mode none fallback = some fallback
normalize_mode (some Json.null) fallback = some fallback
normalize_mode (some (Json.str s)) fallback =
    if is_empty s
    then some fallback
    else if s == codes "disabled"
    then some disabled
    else if s == codes "same_model"
    then some same_model
    else if s == codes "any_model"
    then some any_model
    else none
normalize_mode (some _) fallback = none

-- One entry of `retryOnStatusCodes`
unfoldable pub normalize_status : (Json → Option ℤ) → Json → Option ℕ
unfolding of_ℕ whole
normalize_status number_of item =
    and_then (number_of item)
      (λ x. if ltb_ℤ x (of_ℕ 400) || ltb_ℤ (of_ℕ 599) x then none else whole x)

-- `normalizeStatusCodes`
unfoldable pub normalize_status_codes : (Json → Option ℤ) → Option Json → List ℕ → Option (List ℕ)
unfolding each normalize_status sort_by dedupe
normalize_status_codes number_of none fallback = some fallback
normalize_status_codes number_of (some Json.null) fallback = some fallback
normalize_status_codes number_of (some (Json.arr vs)) fallback =
    Option.map (λ l. sort_by ltb (dedupe l)) (each (normalize_status number_of) (elems vs))
normalize_status_codes number_of (some _) fallback = none

-- The loop of `normalizeStatusRanges`
unfoldable pub all_5xx : List Json → Option Bool
all_5xx [] = some false
all_5xx (Json.str s ∷ items) =
    let rest = all_5xx items in if s == codes "5xx" then Option.map (λ b. true) rest else none
all_5xx (_ ∷ items) = none

-- `normalizeStatusRanges`
unfoldable pub normalize_status_ranges : Option Json → Bool → Option Bool
unfolding all_5xx
normalize_status_ranges none fallback = some fallback
normalize_status_ranges (some Json.null) fallback = some fallback
normalize_status_ranges (some (Json.arr vs)) fallback = all_5xx (elems vs)
normalize_status_ranges (some _) fallback = none

-- `normalizeModelName`
unfoldable pub normalize_model_name : Option Json → Option Text
unfolding trim
normalize_model_name (some (Json.str s)) = if is_empty (trim s) then none else some (trim s)
normalize_model_name _ = none

-- The tests on the number of fallbacks of a rule
unfoldable pub check_fallbacks : List Text → Option (List Text)
unfolding dedupe
check_fallbacks names =
    if ltb (length (dedupe names)) 1 || ltb 50 (length (dedupe names))
    then none
    else some (dedupe names)

-- The fallbacks of a rule
unfoldable pub normalize_fallbacks : Option Json → Option (List Text)
unfolding each normalize_model_name check_fallbacks
normalize_fallbacks (some (Json.arr vs)) =
    and_then (each (λ v. normalize_model_name (some v)) (elems vs)) check_fallbacks
normalize_fallbacks _ = none

-- The fallbacks of a model so far, and more of them
unfoldable pub merge_rule : List (Text × List Text) → Text → List Text → List (Text × List Text)
unfolding lookup insert dedupe
merge_rule rules model fallbacks =
    insert model (dedupe (or_else (lookup model rules) [] ++ fallbacks)) rules

-- The body of the loop of `normalizeCustomModelFallbacks`
unfoldable pub add_rule : List (Text × List Text) → Json → Option (List (Text × List Text))
unfolding get normalize_model_name normalize_fallbacks merge_rule
add_rule rules (Json.obj item) =
    and_then (normalize_model_name (get (codes "model") item)) (λ model.
      Option.map (merge_rule rules model) (normalize_fallbacks (get (codes "fallbacks") item)))
add_rule rules _ = none

unfoldable pub add_rules : List (Text × List Text) → List Json → Option (List (Text × List Text))
unfolding add_rule
add_rules rules [] = some rules
add_rules rules (item ∷ items) = and_then (add_rule rules item) (λ next. add_rules next items)

abbrev pub to_rule : Text × List Text → Rule
to_rule (model, fallbacks) = record { model = model; fallbacks = fallbacks }

-- `normalizeCustomModelFallbacks`
unfoldable pub normalize_custom_model_fallbacks : Option Json → List Rule → Option (List Rule)
unfolding add_rules
normalize_custom_model_fallbacks none fallback = some fallback
normalize_custom_model_fallbacks (some Json.null) fallback = some fallback
normalize_custom_model_fallbacks (some (Json.arr vs)) fallback =
    if ltb 100 (length (elems vs)) then none else Option.map (map to_rule) (add_rules [] (elems vs))
normalize_custom_model_fallbacks (some _) fallback = none

-- `normalizeGatewayFailoverPolicy`
unfoldable pub normalize_policy : (Json → Option ℤ) → Props → Policy → Option Policy
unfolding get read_boolean normalize_integer normalize_mode normalize_custom_model_fallbacks
    normalize_status_codes normalize_status_ranges
normalize_policy number_of input d =
    and_then (normalize_integer number_of (get (codes "retryAttempts") input) d.retry_attempts 0 5)
      (λ attempts.
        and_then (normalize_mode (get (codes "modelFallbackMode") input) d.model_fallback_mode)
          (λ mode.
            and_then
              (normalize_integer number_of (get (codes "maxFallbackAttempts") input)
                d.max_fallback_attempts 0 20)
              (λ fallback_attempts.
                and_then
                  (normalize_custom_model_fallbacks (get (codes "customModelFallbacks") input)
                    d.custom_model_fallbacks)
                  (λ custom.
                    and_then
                      (normalize_status_codes number_of (get (codes "retryOnStatusCodes") input)
                        d.retry_on_status_codes)
                      (λ statuses.
                        and_then
                          (normalize_status_ranges (get (codes "retryOnStatusRanges") input)
                            d.retry_on_5xx)
                          (λ range.
                            and_then
                              (normalize_integer number_of
                                (get (codes "circuitBreakerFailureThreshold") input)
                                d.circuit_breaker_failure_threshold 1 20)
                              (λ threshold.
                                and_then
                                  (normalize_integer number_of
                                    (get (codes "circuitBreakerCooldownMs") input)
                                    d.circuit_breaker_cooldown_ms 1000 3600000)
                                  (λ cooldown. some (record {
                                    enabled = read_boolean (get (codes "enabled") input) d.enabled;
                                    retry_attempts = attempts;
                                    model_fallback_mode = mode;
                                    max_fallback_attempts = fallback_attempts;
                                    custom_model_fallbacks = custom;
                                    retry_on_timeout =
                                        read_boolean (get (codes "retryOnTimeout") input)
                                          d.retry_on_timeout;
                                    retry_on_network_error =
                                        read_boolean (get (codes "retryOnNetworkError") input)
                                          d.retry_on_network_error;
                                    retry_on_status_codes = statuses;
                                    retry_on_5xx = range;
                                    circuit_breaker_enabled =
                                        read_boolean (get (codes "circuitBreakerEnabled") input)
                                          d.circuit_breaker_enabled;
                                    circuit_breaker_failure_threshold = threshold;
                                    circuit_breaker_cooldown_ms = cooldown;
                                  })))))))))

-- `shouldTriggerFailover`
unfoldable pub should_trigger_failover : Policy → Trigger → Bool
unfolding contains
should_trigger_failover policy timeout = policy.enabled && policy.retry_on_timeout
should_trigger_failover policy network_error = policy.enabled && policy.retry_on_network_error
should_trigger_failover policy (status s) =
    policy.enabled
    && (contains s policy.retry_on_status_codes || (policy.retry_on_5xx && leb 500 s && leb s 599))

-- `getCustomModelFallbackModels`
unfoldable pub get_custom_model_fallback_models : Policy → Text → List Text
unfolding trim find
get_custom_model_fallback_models policy requested =
    let model = trim requested in
    let found = find (λ (r : Rule). r.model == model) policy.custom_model_fallbacks in
    if is_empty model then [] else elim found [ none ↦ [] | some r ↦ r.fallbacks ]

-- `CODE_DEFAULT_GATEWAY_FAILOVER_POLICY`
abbrev pub default_policy : Policy
default_policy = record {
  enabled = true;
  retry_attempts = 1;
  model_fallback_mode = same_model;
  max_fallback_attempts = 2;
  custom_model_fallbacks = [];
  retry_on_timeout = true;
  retry_on_network_error = true;
  retry_on_status_codes = 408 ∷ 429 ∷ [];
  retry_on_5xx = true;
  circuit_breaker_enabled = true;
  circuit_breaker_failure_threshold = 2;
  circuit_breaker_cooldown_ms = 30000;
}
