-- ===== src/Gateway/Moves.antt =====
-- Where the loop stands, and how far each iteration moves it.
use llmrelay_service.Base.{
  ℕ, suc, ◌+◌, ◌*◌, ◌≤◌, ◌<◌, Bool, true, false, if◌then◌else◌, ◌≡◌, length, list_eq, nat_eq, arith,
}
use native.Mathlib.Nat.{suc-mul, mul-le-mul_right}
use llmrelay_service.Gateway.State.{Answer, Loop, Progress, next, finished}

-- The numbers that decide how long the loop goes on
pub record Place : Type 0 where
  pub active : ℕ
  pub index : ℕ
  pub retry : ℕ
  pub fallback : ℕ
  pub asked : ℕ

abbrev pub place : Loop → Place
place s = record {
  active = length s.active_routes;
  index = s.active_route_index;
  retry = s.retry_index;
  fallback = s.fallback_attempts;
  asked = length s.asked;
}

-- The attempts that lie behind, with `r` retries for each route
abbrev pub used : ℕ → Place → ℕ
used r p = p.index * suc r + p.retry

-- All attempts that there can be, with `m` fallback routes
unfoldable pub all_attempts : ℕ → ℕ → ℕ
all_attempts m r = suc m * suc r

-- What holds between two iterations
unfoldable pub IsPlaced : ℕ → ℕ → Place → Type 0
IsPlaced m r p =
    (p.active ≡ suc p.fallback)
    × ((p.fallback ≤ m) × ((p.retry ≤ r) × ((used r p ≤ p.active * suc r) × (p.asked ≤ used r p))))

-- What holds where a route is tried
unfoldable pub IsTrying : ℕ → ℕ → Place → Type 0
IsTrying m r p =
    (p.active ≡ suc p.fallback)
    × ((p.fallback ≤ m) × ((p.retry ≤ r) × ((p.index < p.active) × (p.asked ≤ suc (used r p)))))

-- The next place is one, with more attempts behind than a number.
unfoldable pub IsFurther : ℕ → ℕ → ℕ → Place → Type 0
unfolding IsPlaced
IsFurther m r u q = IsPlaced m r q × (u < used r q)

abbrev pub next_retry : Place → Place
next_retry p = record p { retry = suc p.retry }

abbrev pub next_route : ℕ → Place → Place
next_route k p = record p {
  active = p.active + k;
  fallback = p.fallback + k;
  index = suc p.index;
  retry = 0;
}

pub next_retry-IsFurther :
    (m r : ℕ) (p : Place) → IsTrying m r p → p.retry < r → IsFurther m r (used r p) (next_retry p)
unfolding IsTrying IsFurther IsPlaced
next_retry-IsFurther m r p (a, (b, (c, (d, e)))) h =
    let bound = mul-le-mul_right (suc r) d in
    let product = suc-mul p.index (suc r) in
    ((a, (b, (h, (omega arith, omega arith)))), omega arith)

pub next_route-IsFurther :
    (m r k : ℕ) (p : Place)
    → IsTrying m r p
    → p.fallback + k ≤ m
    → IsFurther m r (used r p) (next_route k p)
unfolding IsTrying IsFurther IsPlaced
next_route-IsFurther m r k p (a, (b, (c, (d, e)))) h =
    let bound = mul-le-mul_right (suc r) d in
    let wider = mul-le-mul_right (suc r) (le_add p.active k) in
    let product = suc-mul p.index (suc r) in
    ((omega arith, (h, (omega arith, (omega arith, omega arith)))), omega arith)
  where
    le_add : (a k : ℕ) → a ≤ a + k
    le_add a k = omega arith

-- What holds of the next state, or of the last one
pub data Follows (P Q : Loop → Type 0) : Progress → Type 0 where
  goes_on : {s : Loop} → P s → Follows P Q (next s)
  ends : {answer : Answer} {s : Loop} → Q s → Follows P Q (finished answer s)

pub if_Follows :
    {P Q : Loop → Type 0} (b : Bool) (x y : Progress)
    → Follows P Q x
    → Follows P Q y
    → Follows P Q (if b then x else y)
if_Follows true x y h k = h
if_Follows false x y h k = k
