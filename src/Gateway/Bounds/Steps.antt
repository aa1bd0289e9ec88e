-- ===== src/Gateway/Bounds/Steps.antt =====
-- One iteration moves the place of the loop.
use llmrelay_service.Base.{
  ℕ, zero, suc, ◌+◌, ◌-◌, ◌*◌, ◌≤◌, ◌<◌, Bool, true, false, not, Option, none, some, List, [], ◌∷◌,
  if◌then◌else◌, ◌&&◌, ◌≡◌, refl, Text, length, take, length-append, length-take, get_elem?,
  list_eq, nat_eq, ltb, ltb→lt, arith,
}
use native.Mathlib.Nat.{suc-mul, mul-le-mul_right}
use llmrelay_service.Routing.Types.{RouteResult}
use llmrelay_service.Cooldown.{Entries}
use llmrelay_service.Failover.{Trigger, timeout, network_error, status}
use llmrelay_service.Gateway.Attempts.{Attempt, local, forward, invalid_url, build_attempt}
use llmrelay_service.Gateway.State.{
  Outcome, responded, timed_out, unreachable, Answer, Setting, World, Loop, Progress,
}
use llmrelay_service.Gateway.Fallbacks.{
  appended_routes, build_fallback_routes, is_429, can_fall_back, probe, tested, append_fallbacks,
  push_failed, save_attempt, advance,
}
use llmrelay_service.Gateway.Loop.{
  retry_or_move, after_error, after_response, after_proxy, ask, skip_cooling, note_cooling,
  ask_or_skip, attempt_route, step_at, step,
}
use llmrelay_service.Gateway.Moves.{
  place, Place, used, all_attempts, IsPlaced, IsTrying, IsFurther, next_retry-IsFurther,
  next_route-IsFurther, Follows, goes_on, ends, if_Follows,
}

length-appended :
    (setting : Setting) (s : Loop) (now : ℕ)
    → s.fallback_attempts ≤ setting.policy.max_fallback_attempts
    → s.fallback_attempts + length (appended_routes setting s now)
      ≤ setting.policy.max_fallback_attempts
unfolding appended_routes
length-appended setting s now h =
    take_bound (can_fall_back setting s now) (build_fallback_routes setting s now)
  where
    take_bound :
        (b : Bool) (routes : List RouteResult)
        → s.fallback_attempts
            + length (
                if b
                then take (setting.policy.max_fallback_attempts - s.fallback_attempts) routes
                else [])
          ≤ setting.policy.max_fallback_attempts
    take_bound true routes =
        let bound =
          length-take (setting.policy.max_fallback_attempts - s.fallback_attempts) routes in
        omega arith
    take_bound false routes = omega arith

and_right : (a b : Bool) → (a && b) ≡ true → b ≡ true
and_right true b h = h
and_right false b h = cc

get_elem?-bound {ℓ} :
    {A : Type ℓ} (xs : List A) (i : ℕ) (x : A) → get_elem? xs i ≡ some x → i < length xs
get_elem?-bound [] i x e = cc
get_elem?-bound (y ∷ xs) zero x e = omega arith
get_elem?-bound (y ∷ xs) (suc i) x e = let inner = get_elem?-bound xs i x e in omega arith

le_limit : (p : Place) (m : ℕ) → p.active ≡ suc p.fallback → p.fallback ≤ m → p.active ≤ suc m
le_limit p m e h = omega arith

module _ (setting : Setting) (world : World) (n : ℕ) where
  -- A place from which a route is tried, and the next one
  unfoldable pub Moves : ℕ → Loop → Type 0
  Moves u s =
      IsFurther setting.policy.max_fallback_attempts setting.policy.retry_attempts u (place s)

  -- The attempts that lie behind a state
  abbrev pub behind : Loop → ℕ
  behind s = used setting.policy.retry_attempts (place s)

  Trying : Loop → Type 0
  Trying s = IsTrying setting.policy.max_fallback_attempts setting.policy.retry_attempts (place s)

  unfoldable pub Within : Loop → Type 0
  Within s =
      length s.asked
      ≤ all_attempts setting.policy.max_fallback_attempts setting.policy.retry_attempts

  append-Moves :
      (s : Loop) (now : ℕ)
      → Trying s
      → Moves (behind s) (advance setting (append_fallbacks setting s now))
  unfolding append_fallbacks advance Moves Trying probe IsTrying
  append-Moves s now (a, (b, rest)) =
      rw (length-append s.active_routes (appended_routes setting s now)) (
        next_route-IsFurther _ _ (length (appended_routes setting s now)) (place s) (a, (b, rest))
          (length-appended setting s now b))

  Trying-Within : (s : Loop) → Trying s → Within s
  unfolding Trying Within IsTrying all_attempts
  Trying-Within s (a, (b, (c, (d, e)))) =
      let r = suc setting.policy.retry_attempts in
      let bound = mul-le-mul_right r d in
      let product = suc-mul s.active_route_index r in
      let limit =
        mul-le-mul_right r (le_limit (place s) setting.policy.max_fallback_attempts a b) in
      omega arith

  if_Moves :
      (u : ℕ) (b : Bool) (s t : Loop)
      → (b ≡ true → Moves u s)
      → (b ≡ false → Moves u t)
      → Moves u (if b then s else t)
  if_Moves u true s t h k = h refl
  if_Moves u false s t h k = k refl

  retry-Moves :
      (now : ℕ) (trigger : Trigger) (route : RouteResult) (s : Loop)
      → Trying s
      → Moves (behind s) (retry_or_move setting world n now trigger route s)
  unfolding retry_or_move push_failed Moves Trying
  retry-Moves now trigger route s t =
      let again = not (is_429 setting trigger) && ltb s.retry_index setting.policy.retry_attempts in
      let failing = push_failed setting route s in
      if_Moves (behind s) again (record failing { retry_index = suc s.retry_index })
        (advance setting (append_fallbacks setting failing now))
        (λ h. next_retry-IsFurther _ _ (place s) t (ltb→lt _ _ (and_right _ _ h)))
        (λ h. append-Moves failing now t)

  after_error-Follows :
      (trigger : Trigger) (code : ℕ) (answer : Answer) (route : RouteResult) (s : Loop)
      → Trying s
      → Follows (Moves (behind s)) Within (after_error setting world n trigger code answer route s)
  unfolding after_error tested save_attempt Trying Within Moves
  after_error-Follows trigger code answer route s t =
      if_Follows _ _ _ (goes_on (retry-Moves _ trigger route _ t)) (ends (Trying-Within s t))

  after_response-Follows :
      (st : ℕ) (retry_after : Option Text) (adapted : Bool) (route : RouteResult) (s : Loop)
      → Trying s
      → Follows
          (Moves (behind s))
          Within
          (after_response setting world n st retry_after adapted route s)
  unfolding after_response tested save_attempt Trying Within Moves
  after_response-Follows st retry_after adapted route s t =
      if_Follows _ _ _ (goes_on (retry-Moves _ (status st) route _ t)) (ends (Trying-Within s t))

  -- What holds before an upstream is asked
  Ready : Loop → Type 0
  Ready s =
      IsPlaced setting.policy.max_fallback_attempts setting.policy.retry_attempts (place s)
      × (s.active_route_index < length s.active_routes)

  Trying-asked :
      (s : Loop) (route : RouteResult) (entries : Entries)
      → Ready s
      → Trying (record s { asked = route ∷ s.asked; entries = entries })
  unfolding Ready Trying IsPlaced IsTrying
  Trying-asked s route entries ((a, (b, (c, (d, e)))), f) = (a, (b, (c, (f, omega arith))))

  Trying-Ready : (s : Loop) → Ready s → Trying s
  unfolding Ready Trying IsPlaced IsTrying
  Trying-Ready s ((a, (b, (c, (d, e)))), f) = (a, (b, (c, (f, omega arith))))

  placed-Within : (s : Loop) → Ready s → Within s
  placed-Within s h = Trying-Within s (Trying-Ready s h)

  -- The iteration from a place on
  unfoldable pub Goes : Loop → Progress → Type 0
  Goes s = Follows (Moves (behind s)) Within

  error-Goes :
      (trigger : Trigger) (code : ℕ) (answer : Answer) (route : RouteResult) (s : Loop)
      → Trying s
      → Goes s (after_error setting world n trigger code answer route s)
  unfolding Goes
  error-Goes trigger code answer route s t = after_error-Follows trigger code answer route s t

  proxy-Goes :
      (adapted : Bool) (route : RouteResult) (outcome : Outcome) (s : Loop)
      → Trying s
      → Goes s (after_proxy setting world n adapted route outcome s)
  unfolding Goes after_proxy
  proxy-Goes adapted route (responded st retry_after) s t =
      after_response-Follows st retry_after adapted route s t
  proxy-Goes adapted route timed_out s t = after_error-Follows timeout 504 _ route s t
  proxy-Goes adapted route (unreachable message) s t =
      after_error-Follows network_error 502 _ route s t

  ask-Goes :
      (adapted : Bool) (route : RouteResult) (s : Loop)
      → Ready s
      → Goes s (ask setting world n adapted route s)
  unfolding ask Goes
  ask-Goes adapted route s h =
      proxy-Goes adapted route (world.upstream (2 * n + 1) route) _ (Trying-asked s route _ h)

  skip-Goes :
      (left : ℕ) (route : RouteResult) (s : Loop)
      → Ready s
      → Goes s (skip_cooling setting world n left route s)
  unfolding skip_cooling note_cooling push_failed save_attempt Goes Trying Within Moves probe
  skip-Goes left route s h =
      let kept = note_cooling setting world n route s in
      if_Follows _ _ _ (goes_on (append-Moves kept (world.now (2 * n)) (Trying-Ready s h)))
        (ends (placed-Within s h))

  attempt-Goes :
      (route : RouteResult) (attempt : Attempt) (s : Loop)
      → Ready s
      → Goes s (attempt_route setting world n route attempt s)
  unfolding attempt_route Goes save_attempt Within Ready
  attempt-Goes route (local error) s h = ends (placed-Within s h)
  attempt-Goes route invalid_url s h = ends (placed-Within s h)
  attempt-Goes route (forward body model url adapted) s h = skip_or_ask _ _ h
    where
      skip_or_ask :
          (left : Option ℕ) (t : Loop)
          → Ready t
          → Goes t (ask_or_skip setting world n adapted route left t)
      skip_or_ask none t k = ask-Goes adapted route t k
      skip_or_ask (some left) t k = skip-Goes left route t k

  unfoldable pub Placed : Loop → Type 0
  Placed s = IsPlaced setting.policy.max_fallback_attempts setting.policy.retry_attempts (place s)

  pub used_limit :
      (s : Loop)
      → Placed s
      → behind s ≤ all_attempts setting.policy.max_fallback_attempts setting.policy.retry_attempts
  unfolding Placed IsPlaced all_attempts
  used_limit s (a, (b, (c, (d, e)))) =
      let limit =
        mul-le-mul_right (suc setting.policy.retry_attempts)
          (le_limit (place s) setting.policy.max_fallback_attempts a b) in
      omega arith

  Placed-limit : (s : Loop) → Placed s → Within s
  unfolding Placed Within IsPlaced
  Placed-limit s (a, (b, (c, (d, e)))) =
      let limit = used_limit s (a, (b, (c, (d, e)))) in omega arith

  pub step-Goes : (s : Loop) → Placed s → Goes s (step setting world n s)
  unfolding step step_at Goes Ready Placed
  step-Goes s h = at_route (get_elem? s.active_routes s.active_route_index) refl
    where
      at_route :
          (route : Option RouteResult)
          → get_elem? s.active_routes s.active_route_index ≡ route
          → Goes s (step_at setting world n route s)
      at_route none e = ends (Placed-limit s h)
      at_route (some route) e =
          attempt-Goes route (build_attempt setting.request route) _ (h, get_elem?-bound _ _ _ e)
