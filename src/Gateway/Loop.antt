-- ===== src/Gateway/Loop.antt =====
-- The loop of `handleProxyRequest` over the routes and the attempts on each.
--
-- An iteration is a step: it takes the state and gives the next one or the answer. Iteration `n`
-- has three moments: 2 * n where it starts, 2 * n + 1 where the upstream has answered, and 2 * n + 2
-- where the body of an answer that is not passed on is cancelled. Before the last two, other
-- requests may change the pauses. What they do, the clock, `Math.random` and what the upstream
-- answers are functions of the moment.
use llmrelay_service.Base.{
  ℕ, zero, suc, ◌+◌, ◌*◌, ◌/◌, max, Bool, not, Option, none, some, [], ◌∷◌, ◌++◌, if◌then◌else◌,
  ◌&&◌, Text, codes, get_elem?, ◌==◌, list_eq, nat_eq, or_else, ltb, leb, of_ℕ,
}
use llmrelay_service.Routing.Types.{RouteResult}
use llmrelay_service.Cooldown.{Entries, record_rate_limit_429, get_remaining_ms, clear_cooldown}
use llmrelay_service.Failover.{Trigger, timeout, network_error, status}
use llmrelay_service.Gateway.Attempts.{Attempt, local, forward, invalid_url, build_attempt}
use llmrelay_service.Gateway.State.{
  Outcome, responded, timed_out, unreachable, Answer, answered_locally, cooling_down,
  gateway_timeout, bad_gateway, passed_on, no_route, crashed, Setting, World, Loop, Progress, next,
  finished,
}
use llmrelay_service.Gateway.Fallbacks.{
  cooldown_enabled, describe_trigger, model_of, key_of, is_429, can_fall_back, probe,
  should_continue, tested, append_fallbacks, push_failed, save_attempt, advance,
}

module _ (setting : Setting) (world : World) (n : ℕ) where
  -- The first iteration's status, kept
  abbrev pub note_status : ℕ → Loop → Loop
  note_status st s = record s { initial_status = some (or_else s.initial_status st) }

  -- A route behind a failure: a further attempt on it, or the routes behind it
  unfoldable pub retry_or_move : ℕ → Trigger → RouteResult → Loop → Loop
  unfolding append_fallbacks push_failed advance
  retry_or_move now trigger route s =
      let failing = push_failed setting route s in
      if not (is_429 setting trigger) && ltb s.retry_index setting.policy.retry_attempts
      then record failing { retry_index = suc s.retry_index }
      else advance setting (append_fallbacks setting failing now)

  -- The `catch` around `proxy`
  unfoldable pub after_error : Trigger → ℕ → Answer → RouteResult → Loop → Progress
  unfolding should_continue tested retry_or_move describe_trigger save_attempt
  after_error trigger code answer route s =
      let now = world.now (2 * n + 1) in
      let reason = describe_trigger setting.number_text trigger in
      let failed = record (note_status code s) { last_trigger = some trigger } in
      let behind = tested setting failed now trigger in
      if should_continue setting failed now trigger
      then next (retry_or_move now trigger route (record behind { failover_reason = some reason }))
      else finished answer
          (save_attempt setting route (some (or_else s.failover_reason reason)) behind)

  -- The pauses and the `Retry-After` behind an answer
  unfoldable pub after_status : ℕ → Option Text → RouteResult → Entries → Entries × Option Text
  unfolding record_rate_limit_429 clear_cooldown model_of cooldown_enabled
  after_status st retry_after route entries =
      let recorded =
        record_rate_limit_429 setting.date_parse entries route.channel_name (model_of setting route)
          retry_after (cooldown_enabled setting.policy) (world.now (2 * n + 1))
          (world.random (2 * n + 1)) in
      let seconds = max 1 ((recorded.1 + 999) / 1000) in
      if leb 200 st && ltb st 400
      then (clear_cooldown entries route.channel_name (model_of setting route), retry_after)
      else if st == 429
      then (
        recorded.0,
        if ltb 0 recorded.1 then some (setting.number_text (of_ℕ seconds)) else retry_after,
      )
      else (entries, retry_after)

  -- The reason that is given for a status
  unfoldable pub status_reason : ℕ → RouteResult → Text
  unfolding describe_trigger model_of
  status_reason st route =
      if st == 429
      then codes "HTTP 429：渠道 " ++ route.channel_name ++ codes "，模型 " ++ model_of setting route
      else describe_trigger setting.number_text (status st)

  -- What follows an answer of the upstream
  unfoldable pub after_response : ℕ → Option Text → Bool → RouteResult → Loop → Progress
  unfolding after_status should_continue tested retry_or_move save_attempt status_reason
  after_response st retry_after adapted route s =
      let now = world.now (2 * n + 1) in
      let (entries, header) = after_status st retry_after route s.entries in
      let answered = record (note_status st s) { entries = entries } in
      let behind = tested setting answered now (status st) in
      let noted = record behind {
        last_trigger = some (status st);
        failover_reason = some (status_reason st route);
      } in
      let saved = (save_attempt setting route (some (status_reason st route)) noted).saved in
      let kept = record noted { saved = if st == 429 then saved else noted.saved } in
      let cancelled = record kept { entries = world.interfere (2 * n + 2) kept.entries } in
      if should_continue setting answered now (status st)
      then next (retry_or_move (world.now (2 * n + 2)) (status st) route cancelled)
      else finished (passed_on route st header adapted)
          (save_attempt setting route s.failover_reason behind)

  -- What follows `proxy`
  unfoldable pub after_proxy : Bool → RouteResult → Outcome → Loop → Progress
  unfolding after_error after_response
  after_proxy adapted route (responded st retry_after) s =
      after_response st retry_after adapted route s
  after_proxy adapted route timed_out s =
      after_error timeout 504 (gateway_timeout route (suc s.retry_index)) route s
  after_proxy adapted route (unreachable message) s =
      after_error network_error 502 (bad_gateway route message) route s

  -- The upstream is asked
  unfoldable pub ask : Bool → RouteResult → Loop → Progress
  unfolding after_proxy
  ask adapted route s =
      after_proxy adapted route (world.upstream (2 * n + 1) route)
        (record s { asked = route ∷ s.asked; entries = world.interfere (2 * n + 1) s.entries })

  unfoldable pub cooling_reason : RouteResult → Text
  unfolding model_of
  cooling_reason route =
      codes "429 冷却中：渠道 " ++ route.channel_name ++ codes "，模型 " ++ model_of setting route

  -- A route in a pause is noted like a failure with 429.
  unfoldable pub note_cooling : RouteResult → Loop → Loop
  unfolding push_failed save_attempt cooling_reason
  note_cooling route s =
      let noted = record s {
        last_trigger = some (status 429);
        failover_reason = some (cooling_reason route);
      } in
      let failing = push_failed setting route noted in
      save_attempt setting route failing.failover_reason failing

  -- It is passed over, or its pause is the answer.
  unfoldable pub skip_cooling : ℕ → RouteResult → Loop → Progress
  unfolding note_cooling can_fall_back append_fallbacks advance probe
  skip_cooling left route s =
      let now = world.now (2 * n) in
      let kept = note_cooling route s in
      if can_fall_back setting kept now
      then next (advance setting (append_fallbacks setting kept now))
      else finished (cooling_down route left) (probe setting kept now)

  -- The look-up of a pause decides between the two.
  unfoldable pub ask_or_skip : Bool → RouteResult → Option ℕ → Loop → Progress
  unfolding ask skip_cooling
  ask_or_skip adapted route none s = ask adapted route s
  ask_or_skip adapted route (some left) s = skip_cooling left route s

  unfoldable pub attempt_route : RouteResult → Attempt → Loop → Progress
  unfolding save_attempt ask_or_skip get_remaining_ms model_of cooldown_enabled
  attempt_route route (local error) s =
      finished (answered_locally route error) (save_attempt setting route s.failover_reason s)
  attempt_route route invalid_url s = finished crashed s
  attempt_route route (forward body model url adapted) s =
      let (entries, left) =
        get_remaining_ms s.entries route.channel_name (model_of setting route)
          (cooldown_enabled setting.policy) (world.now (2 * n)) in
      ask_or_skip adapted route left (record s { entries = entries })

  unfoldable pub terminal_status : Option Trigger → ℕ
  terminal_status (some timeout) = 504
  terminal_status _ = 502

  -- One iteration; behind the last route the loop ends.
  unfoldable pub step_at : Option RouteResult → Loop → Progress
  unfolding attempt_route key_of build_attempt terminal_status
  step_at none s = finished (no_route (terminal_status s.last_trigger)) s
  step_at (some route) s =
      attempt_route route (build_attempt setting.request route)
        (record s { attempted_keys = key_of setting route ∷ s.attempted_keys })

  unfoldable pub step : Loop → Progress
  unfolding step_at
  step s = step_at (get_elem? s.active_routes s.active_route_index) s

-- The state before the loop
unfoldable pub start : Setting → Entries → Loop
start setting entries = record {
  active_routes = setting.initial_route ∷ [];
  active_route_index = 0;
  retry_index = 0;
  fallback_attempts = 0;
  attempted_keys = [];
  failed_chain = [];
  failover_reason = none;
  last_trigger = none;
  initial_status = none;
  entries = entries;
  saved = [];
  asked = [];
}

unfoldable pub proceed : (Loop → Option (Answer × Loop)) → Progress → Option (Answer × Loop)
proceed go (next s) = go s
proceed go (finished answer s) = some (answer, s)

-- The loop for a number of iterations, from one of them on: `none` if they are not enough
unfoldable pub run_from : Setting → World → ℕ → ℕ → Loop → Option (Answer × Loop)
unfolding proceed step
run_from setting world zero n s = none
run_from setting world (suc fuel) n s =
    proceed (run_from setting world fuel (suc n)) (step setting world n s)

unfoldable pub run : Setting → World → ℕ → Entries → Option (Answer × Loop)
unfolding run_from start
run setting world fuel entries = run_from setting world fuel 0 (start setting entries)
