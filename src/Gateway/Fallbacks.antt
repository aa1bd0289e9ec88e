-- ===== src/Gateway/Fallbacks.antt =====
-- The closures of `handleProxyRequest` that the loop calls: which routes it can fall back on, when it
-- goes on behind a failure, and what it notes.
use llmrelay_service.Base.{
  ℕ, suc, ◌+◌, ◌-◌, Bool, true, false, not, Option, none, some, List, [], ◌∷◌, ◌++◌, if◌then◌else◌,
  ◌&&◌, ◌||◌, Text, codes, length, take, ◌==◌, list_eq, nat_eq, ℤ, or_else, contains, filter, map,
  ltb, leb, of_ℕ,
}
use llmrelay_service.Routing.Types.{RouteResult}
use llmrelay_service.Cooldown.{Entries, get_remaining_ms}
use llmrelay_service.Failover.{
  Policy, Trigger, timeout, network_error, status, should_trigger_failover,
}
use llmrelay_service.Gateway.State.{Setting, Loop}

-- `failoverPolicy.enabled && failoverPolicy.retryOnStatusCodes.includes(429)`
unfoldable pub cooldown_enabled : Policy → Bool
unfolding contains
cooldown_enabled policy = policy.enabled && contains 429 policy.retry_on_status_codes

-- `describeFailoverTrigger`
unfoldable pub describe_trigger : (ℤ → Text) → Trigger → Text
describe_trigger number_text timeout = codes "timeout"
describe_trigger number_text network_error = codes "network_error"
describe_trigger number_text (status s) = codes "http_" ++ number_text (of_ℕ s)

module _ (setting : Setting) where
  unfoldable pub model_of : RouteResult → Text
  model_of route = or_else route.resolved_model setting.requested_model

  -- `routeKey`
  unfoldable pub key_of : RouteResult → Text
  unfolding model_of
  key_of route = route.channel_name ++ (b':' ∷ (model_of route ++ (b':' ∷ route.target_url)))

  -- `describeRoute`; a resolved model that is empty does not count.
  unfoldable pub describe_route : RouteResult → Text
  describe_route route = elim (or_else route.resolved_model []) [
    | [] ↦ route.channel_name
    | (c ∷ model) ↦ route.channel_name ++ (b':' ∷ (c ∷ model))
  ]

  -- `isFallbackRoute`
  unfoldable pub is_fallback_route : RouteResult → Bool
  unfolding key_of
  is_fallback_route route = not (key_of route == key_of setting.initial_route)

  -- If a route is in a pause
  unfoldable pub is_cooling : Entries → ℕ → RouteResult → Bool
  unfolding get_remaining_ms model_of cooldown_enabled
  is_cooling entries now route =
      elim (get_remaining_ms entries route.channel_name (model_of route)
        (cooldown_enabled setting.policy) now).1 [ none ↦ false | some left ↦ true ]

  -- What `buildFallbackRoutes` filters by
  unfoldable pub is_eligible : Loop → ℕ → RouteResult → Bool
  unfolding is_cooling key_of contains
  is_eligible s now route =
      not (is_cooling s.entries now route)
      && not (contains (key_of route) s.attempted_keys)
      && not (contains (key_of route) (map key_of s.active_routes))

  -- `buildFallbackRoutes`
  unfoldable pub build_fallback_routes : Loop → ℕ → List RouteResult
  unfolding is_eligible filter
  build_fallback_routes s now =
      if setting.is_explicit || leb setting.policy.max_fallback_attempts 0
      then []
      else filter (is_eligible s now) (setting.fallbacks now)

  -- What the look-ups of `buildFallbackRoutes` leave of the pauses: without pauses in the policy each
  -- drops the entry it looks at.
  unfoldable pub probed : Entries → List RouteResult → ℕ → Entries
  unfolding get_remaining_ms model_of cooldown_enabled
  probed entries [] now = entries
  probed entries (route ∷ routes) now =
      probed
        (get_remaining_ms entries route.channel_name (model_of route)
          (cooldown_enabled setting.policy) now).0
        routes now

  unfoldable pub probe : Loop → ℕ → Loop
  unfolding probed
  probe s now = record s {
    entries =
        if setting.is_explicit || leb setting.policy.max_fallback_attempts 0
        then s.entries
        else probed s.entries (setting.fallbacks now) now;
  }

  abbrev pub is_429 : Trigger → Bool
  is_429 (status s) = s == 429
  is_429 _ = false

  -- The test that both `shouldContinueAfterFailure` and the appending of routes make
  unfoldable pub can_fall_back : Loop → ℕ → Bool
  unfolding build_fallback_routes
  can_fall_back s now =
      ltb s.fallback_attempts setting.policy.max_fallback_attempts
      && ltb 0 (length (build_fallback_routes s now))

  -- `shouldContinueAfterFailure`
  unfoldable pub should_continue : Loop → ℕ → Trigger → Bool
  unfolding should_trigger_failover can_fall_back
  should_continue s now trigger =
      should_trigger_failover setting.policy trigger
      && ((not (is_429 trigger) && ltb s.retry_index setting.policy.retry_attempts)
          || can_fall_back s now)

  -- The state behind the test: the routes are looked up only where the first conditions ask for it.
  unfoldable pub tested : Loop → ℕ → Trigger → Loop
  unfolding should_trigger_failover probe
  tested s now trigger = record s {
    entries =
        if should_trigger_failover setting.policy trigger
          && not (not (is_429 trigger) && ltb s.retry_index setting.policy.retry_attempts)
          && ltb s.fallback_attempts setting.policy.max_fallback_attempts
        then (probe s now).entries
        else s.entries;
  }

  -- The routes that are appended: up to the limit, if the test holds
  unfoldable pub appended_routes : Loop → ℕ → List RouteResult
  unfolding build_fallback_routes can_fall_back
  appended_routes s now =
      if can_fall_back s now
      then take (setting.policy.max_fallback_attempts - s.fallback_attempts)
          (build_fallback_routes s now)
      else []

  -- Fallback routes behind the active ones
  unfoldable pub append_fallbacks : Loop → ℕ → Loop
  unfolding appended_routes probe
  append_fallbacks s now = record (probe s now) {
    active_routes = s.active_routes ++ appended_routes s now;
    fallback_attempts = s.fallback_attempts + length (appended_routes s now);
  }

  -- `failedRouteChain.push` of a route that is not in it
  unfoldable pub push_failed : RouteResult → Loop → Loop
  unfolding describe_route contains
  push_failed route s = record s {
    failed_chain =
        if contains (describe_route route) s.failed_chain
        then s.failed_chain
        else s.failed_chain ++ (describe_route route ∷ []);
  }

  -- `saveRequestLogForAttempt` with a reason
  unfoldable pub save_attempt : RouteResult → Option Text → Loop → Loop
  unfolding is_fallback_route
  save_attempt route reason s = record s {
    saved =
        record {
          route = route;
          is_fallback = is_fallback_route route;
          failover_chain = s.failed_chain;
          failover_reason = reason;
          retry_attempt = s.retry_index;
        }
        ∷ s.saved;
  }

  -- `activeRouteIndex += 1; retryIndexForRoute = 0`
  unfoldable pub advance : Loop → Loop
  advance s = record s { active_route_index = suc s.active_route_index; retry_index = 0 }
