-- ===== src/Failover/Tests.antt =====
-- Runs of the failover policy.
use llmrelay_service.Base.{
  ◌≡◌, refl, true, Option, none, some, [], ◌∷◌, codes, ℤ, Json, str, arr, obj, Props, end, prop,
  nil, cons, arith, list_beq,
}
use llmrelay_service.Failover.{
  default_policy, normalize_policy, should_trigger_failover, status, normalize_fallbacks,
}
use llmrelay_service.Failover.Rules.{Holds}
use llmrelay_service.Failover.Limits.{IsWellFormed, normalize_policy-IsWellFormed}

-- `Number` of what is a number
abbrev plain_number : Json → Option ℤ
plain_number (Json.num n) = some n
plain_number _ = none

abbrev one_rule : Props
one_rule =
    prop (codes "customModelFallbacks")
      (arr (
        cons
          (obj (
            prop (codes "model") (str (codes "a"))
              (prop (codes "fallbacks") (arr (cons (str (codes " b ")) nil)) end)))
          nil))
      end

-- A name is trimmed, and kept once.
fallbacks-once :
    normalize_fallbacks (some (arr (cons (str (codes " b ")) (cons (str (codes "b")) nil))))
    ≡ some (codes "b" ∷ [])
unfolding normalize_fallbacks list_beq
fallbacks-once = refl

status-default : should_trigger_failover default_policy (status 503) ≡ true
unfolding should_trigger_failover
status-default = refl

default_policy-IsWellFormed : IsWellFormed default_policy
default_policy-IsWellFormed = record {
  attempts = (omega arith, omega arith);
  fallback_attempts = (omega arith, omega arith);
  rules = (omega arith, tt, tt);
  statuses =
      (((refl, tt), (tt, tt)), ((omega arith, omega arith), ((omega arith, omega arith), tt)));
  threshold = (omega arith, omega arith);
  cooldown = (omega arith, omega arith);
}

normalize_policy-IsWellFormed_example :
    Holds IsWellFormed (normalize_policy plain_number one_rule default_policy)
normalize_policy-IsWellFormed_example =
    normalize_policy-IsWellFormed plain_number one_rule default_policy default_policy-IsWellFormed
