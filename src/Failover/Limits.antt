-- ===== src/Failover/Limits.antt =====
-- A normalised policy keeps to the limits, and what is not given is the default.
use native.Mathlib.Nat.{le-div_iff_mul-le, div-le_of_le-mul}
use llmrelay_service.Base.{
  ℕ, suc, ◌*◌, ◌≤◌, ◌<◌, ◌≡◌, refl, sym, ap, subst, inl, inr, true, false, ◌||◌, Option, none, some,
  List, [], ◌∷◌, map, Text, codes, length, list_eq, nat_eq, contains, dedupe, dedupe_from,
  IsDistinct, each, All, if◌then◌else◌, Bool-cases, ltb, ltb_ℤ, arith, Json, Props, end, get, elems,
  ℤ, pos, negsuc, one, of_ℕ, IsSorted, sort_by-All, sort_by-IsSorted,
}
use llmrelay_service.Failover.{
  Policy, Rule, to_rule, whole, within, normalize_integer, normalize_status, normalize_status_codes,
  normalize_custom_model_fallbacks, add_rules, normalize_policy, normalize_mode,
  normalize_status_ranges, read_boolean,
}
use llmrelay_service.Failover.Rules.{
  Holds, Anything, anything, and_then-Holds, map-Holds, each-Holds, IsRule, AreRules,
  add_rules-Holds,
}

abbrev pub IsWithin : ℕ → ℕ → ℕ → Type 0
IsWithin lo hi n = (lo ≤ n) × (n ≤ hi)

-- At most a hundred rules, each for a model of its own and with fallbacks, each once
abbrev pub AreWellFormed : List Rule → Type 0
AreWellFormed rules =
    (length rules ≤ 100)
    × IsDistinct (map (λ (r : Rule). r.model) rules)
    × All (λ (r : Rule). IsRule r.fallbacks) rules

-- The limits of a policy
pub record IsWellFormed (p : Policy) : Type 0 where
  pub attempts : IsWithin 0 5 p.retry_attempts
  pub fallback_attempts : IsWithin 0 20 p.max_fallback_attempts
  pub rules : AreWellFormed p.custom_model_fallbacks
  pub statuses :
      IsSorted ltb p.retry_on_status_codes × All (IsWithin 400 599) p.retry_on_status_codes
  pub threshold : IsWithin 1 20 p.circuit_breaker_failure_threshold
  pub cooldown : IsWithin 1000 3600000 p.circuit_breaker_cooldown_ms

pub within-Holds : (lo hi : ℕ) (o : Option ℕ) → Holds (IsWithin lo hi) (within lo hi o)
within-Holds lo hi none = tt
within-Holds lo hi (some n) = elim (Bool-cases (ltb n lo || ltb hi n)) [
  | inl e ↦ rw e tt
  | inr e ↦ rw e (ground (arith, e))
]

integer-Holds :
    (number_of : Json → Option ℤ) (v : Option Json) (fallback lo hi : ℕ)
    → IsWithin lo hi fallback
    → Holds (IsWithin lo hi) (normalize_integer number_of v fallback lo hi)
unfolding normalize_integer
integer-Holds number_of none fallback lo hi h = h
integer-Holds number_of (some Json.null) fallback lo hi h = h
integer-Holds number_of (some (Json.str [])) fallback lo hi h = h
integer-Holds number_of (some (Json.str (c ∷ s))) fallback lo hi h = within-Holds lo hi _
integer-Holds number_of (some (Json.bool b)) fallback lo hi h = within-Holds lo hi _
integer-Holds number_of (some (Json.num n)) fallback lo hi h = within-Holds lo hi _
integer-Holds number_of (some (Json.arr vs)) fallback lo hi h = within-Holds lo hi _
integer-Holds number_of (some (Json.obj ps)) fallback lo hi h = within-Holds lo hi _

pub one_pos : 0 < one
unfolding one
one_pos = omega arith

whole-status :
    (x : ℤ)
    → (ltb_ℤ x (of_ℕ 400) || ltb_ℤ (of_ℕ 599) x) ≡ false
    → Holds (IsWithin 400 599) (whole x)
unfolding of_ℕ whole
whole-status (pos n) h =
    let low : 400 * one ≤ n = ground (arith, h) in
    let high : n ≤ one * 599 = ground (arith, h) in
    ((le-div_iff_mul-le one_pos).1 low, div-le_of_le-mul one high)
whole-status (negsuc n) h = absurd (ground (arith, h))

status-Holds :
    (number_of : Json → Option ℤ) (item : Json)
    → Holds (IsWithin 400 599) (normalize_status number_of item)
unfolding normalize_status
status-Holds number_of item =
    and_then-Holds Anything (IsWithin 400 599) (number_of item) _ (anything (number_of item))
      (λ x u. checked x)
  where
    checked :
        (x : ℤ)
        → Holds
            (IsWithin 400 599)
            (if ltb_ℤ x (of_ℕ 400) || ltb_ℤ (of_ℕ 599) x then none else whole x)
    checked x = elim (Bool-cases (ltb_ℤ x (of_ℕ 400) || ltb_ℤ (of_ℕ 599) x)) [
      | inl e ↦ rw e tt
      | inr e ↦ rw e (whole-status x e)
    ]

dedupe_from-All {ℓ} : (P : ℕ → Type ℓ) (seen xs : List ℕ) → All P xs → All P (dedupe_from seen xs)
unfolding dedupe_from
dedupe_from-All P seen [] h = tt
dedupe_from-All P seen (x ∷ xs) (p, h) = elim (Bool-cases (contains x seen)) [
  | inl e ↦ rw e (dedupe_from-All P seen xs h)
  | inr e ↦ rw e (p, dedupe_from-All P (x ∷ seen) xs h)
]

-- Status codes in order, and errors all
abbrev AreStatuses : List ℕ → Type 0
AreStatuses l = IsSorted ltb l × All (IsWithin 400 599) l

ltb_asym : (x y : ℕ) → ltb x y ≡ true → ltb y x ≡ false
ltb_asym x y h = ground arith

ltb_trans : (x y z : ℕ) → ltb y x ≡ false → ltb z y ≡ false → ltb z x ≡ false
ltb_trans x y z h k = ground arith

status_codes-Holds :
    (number_of : Json → Option ℤ) (v : Option Json) (fallback : List ℕ)
    → AreStatuses fallback
    → Holds AreStatuses (normalize_status_codes number_of v fallback)
unfolding normalize_status_codes dedupe
status_codes-Holds number_of none fallback h = h
status_codes-Holds number_of (some Json.null) fallback h = h
status_codes-Holds number_of (some (Json.arr vs)) fallback h =
    map-Holds (All (IsWithin 400 599)) AreStatuses (each (normalize_status number_of) (elems vs)) _
      (each-Holds (IsWithin 400 599) (normalize_status number_of) (elems vs)
        (status-Holds number_of))
      (λ l k. (
        sort_by-IsSorted ltb ltb_asym ltb_trans (dedupe_from [] l),
        sort_by-All ltb (IsWithin 400 599) (dedupe_from [] l)
            (dedupe_from-All (IsWithin 400 599) [] l k),
      ))
status_codes-Holds number_of (some (Json.bool b)) fallback h = tt
status_codes-Holds number_of (some (Json.num n)) fallback h = tt
status_codes-Holds number_of (some (Json.str s)) fallback h = tt
status_codes-Holds number_of (some (Json.obj ps)) fallback h = tt

to_rule-AreWellFormed :
    (rules : List (Text × List Text)) → AreRules 100 rules → AreWellFormed (map to_rule rules)
to_rule-AreWellFormed rules (few, once, good) = (
  subst (λ n. n ≤ 100) (sym (lengths rules)) few,
  subst IsDistinct (sym (names rules)) once,
  kept rules good,
)
  where
    lengths : (l : List (Text × List Text)) → length (map to_rule l) ≡ length l
    lengths [] = refl
    lengths (r ∷ l) = ap suc (lengths l)

    names :
        (l : List (Text × List Text))
        → map (λ (r : Rule). r.model) (map to_rule l) ≡ map (λ (r : Text × List Text). r.0) l
    names [] = refl
    names ((m, f) ∷ l) = ap (λ t. m ∷ t) (names l)

    kept :
        (l : List (Text × List Text))
        → All (λ (r : Text × List Text). IsRule r.1) l
        → All (λ (r : Rule). IsRule r.fallbacks) (map to_rule l)
    kept [] h = tt
    kept ((m, f) ∷ l) (p, h) = (p, kept l h)

custom-Holds :
    (v : Option Json) (fallback : List Rule)
    → AreWellFormed fallback
    → Holds AreWellFormed (normalize_custom_model_fallbacks v fallback)
unfolding normalize_custom_model_fallbacks
custom-Holds none fallback h = h
custom-Holds (some Json.null) fallback h = h
custom-Holds (some (Json.arr vs)) fallback h = elim (Bool-cases (ltb 100 (length (elems vs)))) [
  | inl e ↦ rw e tt
  | inr e ↦
      let few : length (elems vs) ≤ 100 = ground (arith, e) in
      rw e (
        map-Holds (AreRules (length (elems vs))) AreWellFormed (add_rules [] (elems vs))
          (map to_rule)
          (add_rules-Holds 0 (length (elems vs)) [] (elems vs) (omega arith) (omega arith, tt, tt))
          (λ rules k.
            let (most, once, good) = k in
            to_rule-AreWellFormed rules (omega (arith, most, few), once, good)))
]
custom-Holds (some (Json.bool b)) fallback h = tt
custom-Holds (some (Json.num n)) fallback h = tt
custom-Holds (some (Json.str s)) fallback h = tt
custom-Holds (some (Json.obj ps)) fallback h = tt

-- Every policy that `normalizeGatewayFailoverPolicy` accepts, whatever the input, keeps to the
-- limits, if the defaults do: the four numbers are in range, the status codes are error codes in
-- ascending order, and there are at most a hundred rules, each with a model of its own and at least
-- one fallback, none of them twice.
pub normalize_policy-IsWellFormed :
    (number_of : Json → Option ℤ) (input : Props) (d : Policy)
    → IsWellFormed d
    → Holds IsWellFormed (normalize_policy number_of input d)
unfolding normalize_policy
normalize_policy-IsWellFormed number_of input d h =
    and_then-Holds (IsWithin 0 5) IsWellFormed _ _
      (integer-Holds number_of (get (codes "retryAttempts") input) d.retry_attempts 0 5 h.attempts)
      (λ attempts a.
        and_then-Holds Anything IsWellFormed _ _
          (anything (normalize_mode (get (codes "modelFallbackMode") input) d.model_fallback_mode))
          (λ mode u.
            and_then-Holds (IsWithin 0 20) IsWellFormed _ _
              (integer-Holds number_of (get (codes "maxFallbackAttempts") input)
                d.max_fallback_attempts 0 20 h.fallback_attempts)
              (λ fallback_attempts b.
                and_then-Holds AreWellFormed IsWellFormed _ _
                  (custom-Holds (get (codes "customModelFallbacks") input) d.custom_model_fallbacks
                    h.rules)
                  (λ custom c.
                    and_then-Holds AreStatuses IsWellFormed _ _
                      (status_codes-Holds number_of (get (codes "retryOnStatusCodes") input)
                        d.retry_on_status_codes h.statuses)
                      (λ statuses s.
                        and_then-Holds Anything IsWellFormed _ _
                          (anything (
                            normalize_status_ranges (get (codes "retryOnStatusRanges") input)
                              d.retry_on_5xx))
                          (λ range v.
                            and_then-Holds (IsWithin 1 20) IsWellFormed _ _
                              (integer-Holds number_of
                                (get (codes "circuitBreakerFailureThreshold") input)
                                d.circuit_breaker_failure_threshold 1 20 h.threshold)
                              (λ threshold t.
                                and_then-Holds (IsWithin 1000 3600000) IsWellFormed _ _
                                  (integer-Holds number_of
                                    (get (codes "circuitBreakerCooldownMs") input)
                                    d.circuit_breaker_cooldown_ms 1000 3600000 h.cooldown)
                                  (λ cooldown e. record {
                                    attempts = a;
                                    fallback_attempts = b;
                                    rules = c;
                                    statuses = s;
                                    threshold = t;
                                    cooldown = e;
                                  }))))))))

-- An input that names no field is accepted, and gives the defaults.
normalize_policy-end :
    (number_of : Json → Option ℤ) (d : Policy) → normalize_policy number_of end d ≡ some d
unfolding normalize_policy get normalize_integer normalize_mode normalize_custom_model_fallbacks
    normalize_status_codes normalize_status_ranges read_boolean
normalize_policy-end number_of d = refl
