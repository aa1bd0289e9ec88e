-- ===== src/Gateway/Bounds.antt =====
-- How often the loop goes round: every run ends, and asks an upstream no more often than the limits
-- on retries and fallback routes allow.
mod Steps
use llmrelay_service.Base.{
  ℕ, zero, suc, ◌+◌, ◌-◌, ◌*◌, ◌≤◌, ◌<◌, Bool, true, false, not, Option, none, some, List, [], ◌∷◌,
  if◌then◌else◌, ◌&&◌, ◌≡◌, refl, Text, length, take, length-append, length-take, get_elem?,
  list_eq, nat_eq, ltb, ltb→lt, arith,
}
use native.Mathlib.Nat.{suc-mul, mul-le-mul_right}
use llmrelay_service.Routing.Types.{RouteResult}
use llmrelay_service.Cooldown.{Entries}
use llmrelay_service.Failover.{Trigger, timeout, network_error, status}
use llmrelay_service.Gateway.Attempts.{Attempt, local, forward, invalid_url, build_attempt}
use llmrelay_service.Gateway.State.{
  Outcome, responded, timed_out, unreachable, Answer, Setting, World, Loop, Progress, next,
  finished,
}
use llmrelay_service.Gateway.Fallbacks.{
  appended_routes, build_fallback_routes, is_429, can_fall_back, probe, tested, append_fallbacks,
  push_failed, save_attempt, advance,
}
use llmrelay_service.Gateway.Loop.{
  retry_or_move, after_error, after_response, after_proxy, ask, skip_cooling, note_cooling,
  ask_or_skip, attempt_route, step_at, step, start, proceed, run_from, run,
}
use llmrelay_service.Gateway.Moves.{
  place, Place, used, all_attempts, IsPlaced, IsTrying, IsFurther, next_retry-IsFurther,
  next_route-IsFurther, Follows, goes_on, ends, if_Follows,
}
use llmrelay_service.Gateway.Bounds.Steps.{
  Moves, behind, Within, Goes, Placed, used_limit, step-Goes,
}

module _ (setting : Setting) (world : World) where
  -- The run ends, and has asked no more upstreams than the limits allow.
  unfoldable pub Ends : Option (Answer × Loop) → Type 0
  Ends r =
      (answer : Answer) × ((s : Loop) × ((r ≡ some (answer, s))
          × (length s.asked
              ≤ all_attempts setting.policy.max_fallback_attempts setting.policy.retry_attempts)))

  proceed-Ends :
      (n u fuel : ℕ) (go : Loop → Option (Answer × Loop)) (p : Progress)
      → Follows (Moves setting world n u) (Within setting world n) p
      → ((s : Loop) → Placed setting world n s → u < behind setting world n s → Ends (go s))
      → Ends (proceed go p)
  unfolding proceed Ends Moves IsFurther Placed Within
  proceed-Ends n u fuel go (next s) (goes_on (placed, further)) k = k s placed further
  proceed-Ends n u fuel go (finished answer s) (ends within) k = (answer, (s, (refl, within)))

  run_from-Ends :
      (fuel n : ℕ) (s : Loop)
      → Placed setting world n s
      → all_attempts setting.policy.max_fallback_attempts setting.policy.retry_attempts
        < behind setting world n s + fuel
      → Ends (run_from setting world fuel n s)
  unfolding run_from Goes Placed
  run_from-Ends zero n s h b = let limit = used_limit setting world n s h in absurd (omega arith)
  run_from-Ends (suc fuel) n s h b =
      proceed-Ends n (behind setting world n s) fuel _ _ (step-Goes setting world n s h)
        (λ t placed further. run_from-Ends fuel (suc n) t placed (omega arith))

  start-Placed : (entries : Entries) → Placed setting world 0 (start setting entries)
  unfolding Placed start IsPlaced
  start-Placed entries = (refl, (omega arith, (omega arith, (omega arith, omega arith))))

  -- Every run of the loop ends with an answer, after at most one iteration more than there are
  -- attempts on the initial route and on as many fallback routes as the policy allows; and it asks
  -- the upstreams at most as often as there are such attempts. This holds whatever the upstreams
  -- answer, whatever other requests do to the pauses, and however the fallback routes that are
  -- resolved change.
  pub run-Ends :
      (entries : Entries)
      → Ends (
          run setting world
            (suc (all_attempts setting.policy.max_fallback_attempts setting.policy.retry_attempts))
            entries)
  unfolding run start
  run-Ends entries =
      run_from-Ends
        (suc (all_attempts setting.policy.max_fallback_attempts setting.policy.retry_attempts)) 0
        (start setting entries) (start-Placed entries) (omega arith)
