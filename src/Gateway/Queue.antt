-- ===== src/Gateway/Queue.antt =====
-- Which of the queued fallback routes the loop comes to, where a policy makes no pauses of 429.
pub mod Lists
mod Closed
mod Steps
use llmrelay_service.Base.{
  ℕ, zero, suc, ◌+◌, ◌-◌, ◌*◌, ◌≤◌, Bool, true, false, not, Option, none, some, List, [], ◌∷◌, ◌++◌,
  if◌then◌else◌, ◌&&◌, ◌||◌, ◌≡◌, refl, sym, subst, ap, ◌∙◌, ◌⊎◌, inl, inr, Text, length, take, map,
  length-take, get_elem?, ◌==◌, list_eq, nat_eq, ltb, leb, arith, Bool-cases, contains, All,
  ==_self, In, here, there, filter, if_true, if_false,
}
use mathlib.Core.Bool.{false≢true}
use llmrelay_service.Routing.Types.{RouteResult}
use llmrelay_service.Cooldown.{Entries, get_remaining_ms}
use llmrelay_service.Failover.{Trigger, timeout, network_error, status, should_trigger_failover}
use llmrelay_service.Gateway.Attempts.{Attempt, local, forward, invalid_url, build_attempt}
use llmrelay_service.Gateway.State.{
  Outcome, responded, timed_out, unreachable, Answer, Setting, World, Loop, Progress, next,
  finished,
}
use llmrelay_service.Gateway.Fallbacks.{
  cooldown_enabled, model_of, key_of, is_cooling, is_eligible, build_fallback_routes, is_429,
  can_fall_back, probe, should_continue, tested, append_fallbacks, appended_routes, push_failed,
  save_attempt, advance,
}
use llmrelay_service.Gateway.Loop.{
  retry_or_move, after_error, after_status, after_response, after_proxy, ask, ask_or_skip,
  attempt_route, step_at, step, note_status, start, proceed, run_from, run,
}
use llmrelay_service.Gateway.Moves.{Follows, goes_on, ends, all_attempts}
use llmrelay_service.Gateway.Bounds.{Ends, run-Ends}
use llmrelay_service.Gateway.Queue.Lists.{}
use llmrelay_service.Gateway.Queue.Closed.{}
use llmrelay_service.Gateway.Queue.Steps.{OfFirstTwo, Standing, Good, Ended, step-Good}

last_state :
    (a b : Answer) (s t : Loop)
    → ◌≡◌ {A = Option (Answer × Loop)} (some (a, s)) (some (b, t))
    → s ≡ t
last_state a b s t e = cc

module _ (setting : Setting) (off : cooldown_enabled setting.policy ≡ false)
    (steady : (m n : ℕ) → setting.fallbacks m ≡ setting.fallbacks n) (world : World) where
  proceed-Good :
      (n : ℕ) (go : Loop → Option (Answer × Loop)) (p : Progress) (answer : Answer) (t : Loop)
      → Follows (Good setting off steady world n) (Ended setting off steady world n) p
      → ((s : Loop)
          → Good setting off steady world n s
          → go s ≡ some (answer, t)
          → Ended setting off steady world n t)
      → proceed go p ≡ some (answer, t)
      → Ended setting off steady world n t
  unfolding proceed
  proceed-Good n go (next s) answer t (goes_on g) k e = k s g e
  proceed-Good n go (finished other s) answer t (ends h) k e =
      subst (Ended setting off steady world n) (last_state other answer s t e) h

  run_from-Good :
      (fuel n : ℕ) (s : Loop) (answer : Answer) (t : Loop)
      → Good setting off steady world n s
      → run_from setting world fuel n s ≡ some (answer, t)
      → Ended setting off steady world n t
  unfolding run_from Good Standing OfFirstTwo Ended
  run_from-Good zero n s answer t g e = cc
  run_from-Good (suc fuel) n s answer t g e =
      proceed-Good n (run_from setting world fuel (suc n)) (step setting world n s) answer t
        (step-Good setting off steady world n s g)
        (λ u h k. run_from-Good fuel (suc n) u answer t h k) e

  start-Good : (entries : Entries) → Good setting off steady world 0 (start setting entries)
  unfolding Good Standing OfFirstTwo start
  start-Good entries = (inl (refl, refl), tt)

  -- Where a policy makes no pauses of 429 and the configuration gives the same fallback routes for the
  -- whole run, every run ends at the first or the second active route,
  -- and has asked no other: further fallback routes that were queued behind them are never tried.
  pub run-OfFirstTwo :
      (entries : Entries)
      → (answer : Answer) × ((s : Loop) × ((run setting world
                (suc
                  (all_attempts setting.policy.max_fallback_attempts setting.policy.retry_attempts))
                entries
              ≡ some (answer, s))
            × ((s.active_route_index ≤ 1) × All (λ r. In r (take 2 s.active_routes)) s.asked)))
  unfolding Ends Ended OfFirstTwo run
  run-OfFirstTwo entries =
      let (answer, (s, (e, bound))) = run-Ends setting world entries in
      (
        answer,
        (
          s,
          (
            e,
            run_from-Good
                (suc
                  (all_attempts setting.policy.max_fallback_attempts setting.policy.retry_attempts))
                0 (start setting entries) answer s (start-Good entries) e,
          ),
        ),
      )
