-- ===== src/Gateway/Retries.antt =====
-- An answer on the initial route behind failed attempts on it, where a policy makes no pauses of 429
use llmrelay_service.Base.{
  ℕ, zero, suc, ◌+◌, ◌*◌, ◌≤◌, ◌<◌, Bool, true, false, not, Option, none, some, [], ◌∷◌,
  if◌then◌else◌, ◌&&◌, ◌≡◌, refl, sym, subst, ap, Text, get_elem?, ◌==◌, ltb, arith, list_eq,
  nat_eq,
}
use llmrelay_service.Routing.Types.{RouteResult}
use llmrelay_service.Cooldown.{Entries}
use llmrelay_service.Failover.{Trigger, timeout, network_error, status, should_trigger_failover}
use llmrelay_service.Gateway.Attempts.{forward, build_attempt}
use llmrelay_service.Gateway.State.{
  Outcome, responded, timed_out, unreachable, Answer, passed_on, Setting, World, Loop, Progress,
  next, finished,
}
use llmrelay_service.Gateway.Fallbacks.{
  cooldown_enabled, model_of, key_of, is_429, should_continue, tested, push_failed,
}
use llmrelay_service.Gateway.Loop.{
  retry_or_move, after_error, after_status, after_response, after_proxy, ask, ask_or_skip,
  attempt_route, step_at, step, note_status, start, proceed, run_from, run,
}
use llmrelay_service.Gateway.Moves.{all_attempts}
use llmrelay_service.Gateway.Queue.Lists.{disabled_none}

-- What an upstream does that the policy answers with a further attempt
pub data IsRetried (setting : Setting) : Outcome → Type 0 where
  late : should_trigger_failover setting.policy timeout ≡ true → IsRetried setting timed_out
  lost :
      (message : Text)
      → should_trigger_failover setting.policy network_error ≡ true
      → IsRetried setting (unreachable message)
  refused :
      (st : ℕ) (retry_after : Option Text)
      → (st == 429) ≡ false
      → should_trigger_failover setting.policy (status st) ≡ true
      → IsRetried setting (responded st retry_after)

module _ (setting : Setting) (off : cooldown_enabled setting.policy ≡ false) (world : World)
    (body : Option Text) (model url : Text) (adapted : Bool)
    (ready : build_attempt setting.request setting.initial_route
      ≡ forward body model url adapted) where
  abbrev initial : RouteResult
  initial = setting.initial_route

  -- The loop is before attempt `k` on the initial route.
  AtInitial : ℕ → Loop → Type 0
  AtInitial k s =
      (s.active_routes ≡ initial ∷ []) × ((s.active_route_index ≡ 0) × (s.retry_index ≡ k))

  data Retries (k : ℕ) : Progress → Type 0 where
    again : (t : Loop) → AtInitial k t → Retries k (next t)

  data Answers (st : ℕ) : Progress → Type 0 where
    answers :
        (header : Option Text) (t : Loop)
        → Answers st (finished (passed_on initial st header adapted) t)

  initial_first :
      (k : ℕ) (s : Loop)
      → AtInitial k s
      → get_elem? s.active_routes s.active_route_index ≡ some initial
  unfolding AtInitial
  initial_first k s (routes, (index, retry)) = rw (routes, index) refl

  asked_P :
      (P : Progress → Type 0) (n : ℕ) (left : Option ℕ) (t : Loop)
      → left ≡ none
      → P (ask setting world n adapted initial t)
      → P (ask_or_skip setting world n adapted initial left t)
  unfolding ask_or_skip
  asked_P P n left t e p = rw e p

  -- An iteration on the initial route asks its upstream.
  step-asks :
      (P : Progress → Type 0) (n k : ℕ) (s : Loop)
      → AtInitial k s
      → ((t : Loop)
          → AtInitial k t
          → P (after_proxy setting world n adapted initial (world.upstream (2 * n + 1) initial) t))
      → P (step setting world n s)
  unfolding step step_at attempt_route ask AtInitial
  step-asks P n k s a h =
      let keyed = record s { attempted_keys = key_of setting initial ∷ s.attempted_keys } in
      subst (λ r. P (step_at setting world n r s)) (sym (initial_first k s a))
        (subst (λ attempt. P (attempt_route setting world n initial attempt keyed)) (sym ready)
          (asked_P P n _ _
            (disabled_none s.entries initial.channel_name (model_of setting initial)
              (cooldown_enabled setting.policy) (world.now (2 * n)) off)
            (h _ a)))

  if_Retries :
      (k : ℕ) (b : Bool) (x y : Progress) → b ≡ true → Retries k x → Retries k (if b then x else y)
  if_Retries k true x y h p = p
  if_Retries k false x y h p = cc

  if_Answers :
      (st : ℕ) (b : Bool) (x y : Progress)
      → b ≡ false
      → Answers st y
      → Answers st (if b then x else y)
  if_Answers st true x y h p = cc
  if_Answers st false x y h p = p

  if_AtInitial :
      (k : ℕ) (b : Bool) (x y : Loop) → b ≡ true → AtInitial k x → AtInitial k (if b then x else y)
  if_AtInitial k true x y h p = p
  if_AtInitial k false x y h p = cc

  has_attempts :
      (trigger : Trigger) (i : ℕ)
      → is_429 setting trigger ≡ false
      → i < setting.policy.retry_attempts
      → (not (is_429 setting trigger) && ltb i setting.policy.retry_attempts) ≡ true
  has_attempts trigger i other less = ground (arith, other, less)

  retry-AtInitial :
      (n now k : ℕ) (trigger : Trigger) (s : Loop)
      → AtInitial k s
      → k < setting.policy.retry_attempts
      → is_429 setting trigger ≡ false
      → AtInitial (suc k) (retry_or_move setting world n now trigger initial s)
  unfolding retry_or_move push_failed AtInitial
  retry-AtInitial n now k trigger s (routes, (index, retry)) less other =
      if_AtInitial (suc k)
        (not (is_429 setting trigger) && ltb s.retry_index setting.policy.retry_attempts) _ _
        (has_attempts trigger s.retry_index other
          (subst (λ i. i < setting.policy.retry_attempts) (sym retry) less))
        (routes, (index, ap suc retry))

  continues :
      (s : Loop) (now k : ℕ) (trigger : Trigger)
      → s.retry_index ≡ k
      → k < setting.policy.retry_attempts
      → is_429 setting trigger ≡ false
      → should_trigger_failover setting.policy trigger ≡ true
      → should_continue setting s now trigger ≡ true
  unfolding should_continue
  continues s now k trigger retry less other triggers =
      rw
        (
          triggers,
          has_attempts trigger s.retry_index other
              (subst (λ i. i < setting.policy.retry_attempts) (sym retry) less),
        )
        refl

  stops :
      (s : Loop) (now : ℕ) (trigger : Trigger)
      → should_trigger_failover setting.policy trigger ≡ false
      → should_continue setting s now trigger ≡ false
  unfolding should_continue
  stops s now trigger quiet = rw quiet refl

  error-Retries :
      (n k code : ℕ) (trigger : Trigger) (answer : Answer) (t : Loop)
      → AtInitial k t
      → k < setting.policy.retry_attempts
      → is_429 setting trigger ≡ false
      → should_trigger_failover setting.policy trigger ≡ true
      → Retries (suc k) (after_error setting world n trigger code answer initial t)
  unfolding after_error tested AtInitial
  error-Retries n k code trigger answer t a less other triggers =
      if_Retries _ _ _ _
        (continues (record (note_status setting world n code t) { last_trigger = some trigger })
          (world.now (2 * n + 1)) k trigger a.1.1 less other triggers)
        (again _ (retry-AtInitial n _ k trigger _ a less other))

  response-Retries :
      (n k st : ℕ) (retry_after : Option Text) (t : Loop)
      → AtInitial k t
      → k < setting.policy.retry_attempts
      → (st == 429) ≡ false
      → should_trigger_failover setting.policy (status st) ≡ true
      → Retries (suc k) (after_response setting world n st retry_after adapted initial t)
  unfolding after_response tested AtInitial
  response-Retries n k st retry_after t a less other triggers =
      if_Retries _ _ _ _
        (continues
          (record (note_status setting world n st t) {
            entries = (after_status setting world n st retry_after initial t.entries).0;
          })
          (world.now (2 * n + 1)) k (status st) a.1.1 less other triggers)
        (again _ (retry-AtInitial n _ k (status st) _ a less other))

  retries :
      (n k : ℕ) (outcome : Outcome) (t : Loop)
      → AtInitial k t
      → k < setting.policy.retry_attempts
      → IsRetried setting outcome
      → Retries (suc k) (after_proxy setting world n adapted initial outcome t)
  unfolding after_proxy
  retries n k _ t a less (late triggers) = error-Retries n k 504 timeout _ t a less refl triggers
  retries n k _ t a less (lost message triggers) =
      error-Retries n k 502 network_error _ t a less refl triggers
  retries n k _ t a less (refused st retry_after other triggers) =
      response-Retries n k st retry_after t a less other triggers

  answered :
      (n st : ℕ) (retry_after : Option Text) (t : Loop)
      → should_trigger_failover setting.policy (status st) ≡ false
      → Answers st (after_proxy setting world n adapted initial (responded st retry_after) t)
  unfolding after_proxy after_response
  answered n st retry_after t quiet =
      if_Answers st _ _ _
        (stops
          (record (note_status setting world n st t) {
            entries = (after_status setting world n st retry_after initial t.entries).0;
          })
          (world.now (2 * n + 1)) (status st) quiet)
        (answers _ _)

  proceed-Retries :
      (k : ℕ) (p : Progress) (go : Loop → Option (Answer × Loop))
      (Q : Option (Answer × Loop) → Type 0)
      → Retries k p
      → ((t : Loop) → AtInitial k t → Q (go t))
      → Q (proceed go p)
  unfolding proceed
  proceed-Retries k _ go Q (again t a) h = h t a

  -- The run's answer is the upstream's of the initial route, with the status.
  Passes : ℕ → Option (Answer × Loop) → Type 0
  Passes st result =
      (header : Option Text) × ((t : Loop) × (result
          ≡ some (passed_on initial st header adapted, t)))

  proceed-Answers :
      (st : ℕ) (p : Progress) (go : Loop → Option (Answer × Loop))
      → Answers st p
      → Passes st (proceed go p)
  unfolding proceed Passes
  proceed-Answers st _ go (answers header t) = (header, (t, refl))

  -- The upstream fails `d` times from an iteration on and answers then.
  Recovers : ℕ → ℕ → ℕ → Option Text → Type 0
  Recovers n d st retry_after =
      ((i : ℕ) → i < d → IsRetried setting (world.upstream (2 * (n + i) + 1) initial))
      × (world.upstream (2 * (n + d) + 1) initial ≡ responded st retry_after)

  later :
      (P : Outcome → Type 0) (i j : ℕ)
      → i ≡ j
      → P (world.upstream (2 * i + 1) initial)
      → P (world.upstream (2 * j + 1) initial)
  later P i j e p = subst (λ m. P (world.upstream (2 * m + 1) initial)) e p

  Recovers-later :
      (n d st : ℕ) (retry_after : Option Text)
      → Recovers n (suc d) st retry_after
      → Recovers (suc n) d st retry_after
  unfolding Recovers
  Recovers-later n d st retry_after (fails, answer) = (
    λ i less.
        later (IsRetried setting) (n + suc i) (suc n + i) (omega arith)
          (fails (suc i) (omega arith)),
    later (λ o. o ≡ responded st retry_after) (n + suc d) (suc n + d) (omega arith) answer,
  )

  run_from-Passes :
      (fuel n k d st : ℕ) (retry_after : Option Text) (s : Loop)
      → d < fuel
      → k + d ≤ setting.policy.retry_attempts
      → should_trigger_failover setting.policy (status st) ≡ false
      → Recovers n d st retry_after
      → AtInitial k s
      → Passes st (run_from setting world fuel n s)
  unfolding run_from Recovers
  run_from-Passes zero n k d st retry_after s enough within quiet w a = absurd (omega arith)
  run_from-Passes (suc fuel) n k zero st retry_after s enough within quiet (fails, answer) a =
      proceed-Answers st _ (run_from setting world fuel (suc n)) (
        step-asks (Answers st) n k s a (λ t b.
          subst (λ o. Answers st (after_proxy setting world n adapted initial o t))
            (sym (later (λ o. o ≡ responded st retry_after) (n + 0) n (omega arith) answer))
            (answered n st retry_after t quiet)))
  run_from-Passes (suc fuel) n k (suc d) st retry_after s enough within quiet (fails, answer) a =
      proceed-Retries (suc k) _ (run_from setting world fuel (suc n)) (Passes st)
        (step-asks (Retries (suc k)) n k s a (λ t b.
          retries n k _ t b (omega arith)
            (later (IsRetried setting) (n + 0) n (omega arith) (fails 0 (omega arith)))))
        (λ t b.
          run_from-Passes fuel (suc n) (suc k) d st retry_after t (omega arith) (omega arith) quiet
            (Recovers-later n d st retry_after (fails, answer)) b)

  start-AtInitial : (entries : Entries) → AtInitial 0 (start setting entries)
  unfolding AtInitial start
  start-AtInitial entries = (refl, (refl, refl))

enough_iterations : (m r d : ℕ) → d ≤ r → d < suc (all_attempts m r)
unfolding all_attempts
enough_iterations m r d h = omega arith

-- Where a policy makes no pauses of 429 and the initial route can be asked: if its upstream fails no
-- more often than the policy allows further attempts, in ways that the policy retries, and then
-- answers with a status that is no trigger, the run of the loop ends with that answer passed on.
pub run-passed_on :
    (setting : Setting) (world : World) (entries : Entries) (body : Option Text) (model url : Text)
    (adapted : Bool) (d st : ℕ) (retry_after : Option Text)
    → cooldown_enabled setting.policy ≡ false
    → build_attempt setting.request setting.initial_route ≡ forward body model url adapted
    → d ≤ setting.policy.retry_attempts
    → ((i : ℕ) → i < d → IsRetried setting (world.upstream (2 * i + 1) setting.initial_route))
    → world.upstream (2 * d + 1) setting.initial_route ≡ responded st retry_after
    → should_trigger_failover setting.policy (status st) ≡ false
    → (header : Option Text) × ((s : Loop) × (run setting world
            (suc (all_attempts setting.policy.max_fallback_attempts setting.policy.retry_attempts))
            entries
          ≡ some (passed_on setting.initial_route st header adapted, s)))
unfolding run Passes Recovers
run-passed_on setting world entries body model url adapted d st retry_after off ready within fails
      answer quiet =
    run_from-Passes setting off world body model url adapted ready
      (suc (all_attempts setting.policy.max_fallback_attempts setting.policy.retry_attempts)) 0 0 d
      st retry_after (start setting entries) (enough_iterations _ _ d within) (omega arith) quiet
      (
        λ i less.
            subst (λ m. IsRetried setting (world.upstream (2 * m + 1) setting.initial_route))
              (omega arith) (fails i less),
        subst (λ m. world.upstream (2 * m + 1) setting.initial_route ≡ responded st retry_after)
            (omega arith) answer,
      )
      (start-AtInitial setting off world body model url adapted ready entries)
