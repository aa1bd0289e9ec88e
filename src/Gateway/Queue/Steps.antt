-- ===== src/Gateway/Queue/Steps.antt =====
-- One iteration of the loop, about the routes that were asked
use llmrelay_service.Base.{
  ℕ, suc, ◌+◌, ◌*◌, ◌≤◌, Bool, true, false, not, Option, none, some, List, [], ◌∷◌, ◌++◌,
  if◌then◌else◌, ◌&&◌, ◌||◌, ◌≡◌, refl, sym, subst, ap, ◌∙◌, ◌⊎◌, inl, inr, Text, take, map,
  get_elem?, ◌==◌, list_eq, nat_eq, ltb, arith, contains, All, In, here, there,
}
use mathlib.Core.Bool.{false≢true}
use llmrelay_service.Routing.Types.{RouteResult}
use llmrelay_service.Failover.{Trigger, timeout, network_error, status, should_trigger_failover}
use llmrelay_service.Gateway.Attempts.{Attempt, local, forward, invalid_url, build_attempt}
use llmrelay_service.Gateway.State.{
  Outcome, responded, timed_out, unreachable, Answer, Setting, World, Loop, Progress,
}
use llmrelay_service.Gateway.Fallbacks.{
  cooldown_enabled, model_of, key_of, is_429, can_fall_back, should_continue, tested,
  append_fallbacks, appended_routes, push_failed, save_attempt, advance,
}
use llmrelay_service.Gateway.Loop.{
  retry_or_move, after_error, after_status, after_response, after_proxy, ask, ask_or_skip,
  attempt_route, step_at, step, note_status,
}
use llmrelay_service.Gateway.Moves.{Follows, goes_on, ends}
use llmrelay_service.Gateway.Queue.Lists.{disabled_none}
use llmrelay_service.Gateway.Queue.Closed.{known, Closed, Closed-stays, append_closes}

-- Only the first two active routes are ever asked.
first_lem : {x y : RouteResult} → some x ≡ some y → y ≡ x
first_lem e = cc

module _ (setting : Setting) (off : cooldown_enabled setting.policy ≡ false)
    (steady : (m n : ℕ) → setting.fallbacks m ≡ setting.fallbacks n) (world : World) (n : ℕ) where
  -- The routes that were asked are the first active one, or that and the second.
  unfoldable pub OfFirstTwo : Loop → Type 0
  OfFirstTwo s = All (λ r. In r (take 2 s.active_routes)) s.asked

  -- The loop stands at the first route with nothing appended, or at the second and closed.
  unfoldable pub Standing : Loop → Type 0
  Standing s =
      ((s.active_route_index ≡ 0) × (s.fallback_attempts ≡ 0))
      ⊎ ((s.active_route_index ≡ 1) × Closed setting off steady s)

  take_wider {ℓ} :
      {A : Type ℓ} (x : A) (xs ys : List A) → In x (take 2 xs) → In x (take 2 (xs ++ ys))
  take_wider x [] ys i = elim i [ ]
  take_wider x (a ∷ []) ys (here e) = here e
  take_wider x (a ∷ []) ys (there i) = elim i [ ]
  take_wider x (a ∷ b ∷ xs) ys i = i

  OfFirstTwo_wider :
      (asked xs ys : List RouteResult)
      → All (λ r. In r (take 2 xs)) asked
      → All (λ r. In r (take 2 (xs ++ ys))) asked
  OfFirstTwo_wider [] xs ys h = tt
  OfFirstTwo_wider (r ∷ asked) xs ys (i, h) = (take_wider r xs ys i, OfFirstTwo_wider asked xs ys h)

  unfoldable pub Good : Loop → Type 0
  Good s = Standing s × OfFirstTwo s

  if_Good :
      (b : Bool) (s t : Loop)
      → (b ≡ true → Good s)
      → (b ≡ false → Good t)
      → Good (if b then s else t)
  if_Good true s t h k = h refl
  if_Good false s t h k = k refl

  retry-Good :
      (now : ℕ) (trigger : Trigger) (route : RouteResult) (s : Loop)
      → Good s
      → (Closed setting off steady s
          → (not (is_429 setting trigger) && ltb s.retry_index setting.policy.retry_attempts)
            ≡ true)
      → Good (retry_or_move setting world n now trigger route s)
  unfolding retry_or_move push_failed Good Standing OfFirstTwo Closed known
  retry-Good now trigger route s (inl (i, f), o) k =
      let again = not (is_429 setting trigger) && ltb s.retry_index setting.policy.retry_attempts in
      let failing = push_failed setting route s in
      if_Good again (record failing { retry_index = suc s.retry_index })
        (advance setting (append_fallbacks setting failing now)) (λ h. (inl (i, f), o))
        (λ h. (
          inr (ap suc i, append_closes setting off steady failing now (rw f (omega arith))),
          OfFirstTwo_wider s.asked s.active_routes (appended_routes setting failing now) o,
        ))
  retry-Good now trigger route s (inr (i, c), o) k =
      let again = not (is_429 setting trigger) && ltb s.retry_index setting.policy.retry_attempts in
      let failing = push_failed setting route s in
      if_Good again (record failing { retry_index = suc s.retry_index })
        (advance setting (append_fallbacks setting failing now)) (λ h. (inr (i, c), o))
        (λ h. absurd (false≢true (sym h ∙ k c)))

  -- Without anything to append, the loop goes on only with a further attempt.
  must_retry :
      (s : Loop) (now : ℕ) (trigger : Trigger)
      → should_continue setting s now trigger ≡ true
      → Closed setting off steady s
      → (not (is_429 setting trigger) && ltb s.retry_index setting.policy.retry_attempts) ≡ true
  unfolding should_continue
  must_retry s now trigger h c =
      only_first (should_trigger_failover setting.policy trigger) _ (can_fall_back setting s now) h
        (Closed-stays setting off steady s now c)
    where
      only_first : (a b c : Bool) → (a && (b || c)) ≡ true → c ≡ false → b ≡ true
      only_first true true c h k = refl
      only_first true false c h k = absurd (false≢true (sym k ∙ h))
      only_first false b c h k = absurd (false≢true h)

  -- What holds of the last state
  unfoldable pub Ended : Loop → Type 0
  Ended s = (s.active_route_index ≤ 1) × OfFirstTwo s

  Good-Ended : (s : Loop) → Good s → Ended s
  unfolding Good Ended Standing
  Good-Ended s (inl (i, f), o) = (rw i (omega arith), o)
  Good-Ended s (inr (i, c), o) = (rw i (omega arith), o)

  if_goes :
      (b : Bool) (x y : Progress)
      → (b ≡ true → Follows Good Ended x)
      → Follows Good Ended y
      → Follows Good Ended (if b then x else y)
  if_goes true x y h k = h refl
  if_goes false x y h k = k

  error-Good :
      (trigger : Trigger) (code : ℕ) (answer : Answer) (route : RouteResult) (s : Loop)
      → Good s
      → Follows Good Ended (after_error setting world n trigger code answer route s)
  unfolding after_error tested save_attempt Good Standing OfFirstTwo Closed known Ended
  error-Good trigger code answer route s g =
      if_goes _ _ _
        (λ h. goes_on (
          retry-Good _ trigger route _ g (
            must_retry (record (note_status setting world n code s) { last_trigger = some trigger })
              (world.now (2 * n + 1)) trigger h)))
        (ends (Good-Ended s g))

  response-Good :
      (st : ℕ) (retry_after : Option Text) (adapted : Bool) (route : RouteResult) (s : Loop)
      → Good s
      → Follows Good Ended (after_response setting world n st retry_after adapted route s)
  unfolding after_response tested save_attempt Good Standing OfFirstTwo Closed known Ended
  response-Good st retry_after adapted route s g =
      if_goes _ _ _
        (λ h. goes_on (
          retry-Good _ (status st) route _ g (
            must_retry
              (record (note_status setting world n st s) {
                entries = (after_status setting world n st retry_after route s.entries).0;
              })
              (world.now (2 * n + 1)) (status st) h)))
        (ends (Good-Ended s g))

  proxy-Good :
      (adapted : Bool) (route : RouteResult) (outcome : Outcome) (s : Loop)
      → Good s
      → Follows Good Ended (after_proxy setting world n adapted route outcome s)
  unfolding after_proxy
  proxy-Good adapted route (responded st retry_after) s g =
      response-Good st retry_after adapted route s g
  proxy-Good adapted route timed_out s g = error-Good timeout 504 _ route s g
  proxy-Good adapted route (unreachable message) s g = error-Good network_error 502 _ route s g

  first_two :
      (s : Loop) (route : RouteResult)
      → Standing s
      → get_elem? s.active_routes s.active_route_index ≡ some route
      → In route (take 2 s.active_routes)
  unfolding Standing
  first_two s route (inl (i, f)) e =
      get-In_0 s.active_routes (subst (λ k. get_elem? s.active_routes k ≡ some route) i e)
    where
      get-In_0 : (xs : List RouteResult) → get_elem? xs 0 ≡ some route → In route (take 2 xs)
      get-In_0 [] e = cc
      get-In_0 (x ∷ xs) e = here (first_lem e)
  first_two s route (inr (i, c)) e =
      get-In_1 s.active_routes (subst (λ k. get_elem? s.active_routes k ≡ some route) i e)
    where
      get-In_1 : (xs : List RouteResult) → get_elem? xs 1 ≡ some route → In route (take 2 xs)
      get-In_1 [] e = cc
      get-In_1 (x ∷ []) e = cc
      get-In_1 (x ∷ y ∷ xs) e = there (here (first_lem e))

  Ready : RouteResult → Loop → Type 0
  Ready route s = Good s × In route (take 2 s.active_routes)

  ask-Good :
      (adapted : Bool) (route : RouteResult) (s : Loop)
      → Ready route s
      → Follows Good Ended (ask setting world n adapted route s)
  unfolding ask Ready Good Standing OfFirstTwo Closed known
  ask-Good adapted route s ((p, o), i) =
      proxy-Good adapted route (world.upstream (2 * n + 1) route) _ (p, (i, o))

  attempt-Good :
      (route : RouteResult) (attempt : Attempt) (s : Loop)
      → Ready route s
      → Follows Good Ended (attempt_route setting world n route attempt s)
  unfolding attempt_route save_attempt Ready Good Standing OfFirstTwo Closed known Ended
  attempt-Good route (local error) s (g, i) = ends (Good-Ended s g)
  attempt-Good route invalid_url s (g, i) = ends (Good-Ended s g)
  attempt-Good route (forward body model url adapted) s g =
      asked_good
        (disabled_none s.entries route.channel_name (model_of setting route)
          (cooldown_enabled setting.policy) (world.now (2 * n)) off)
        _ g
    where
      asked_good :
          {left : Option ℕ}
          → left ≡ none
          → (t : Loop) → Ready route t
          → Follows Good Ended (ask_or_skip setting world n adapted route left t)
      asked_good e t k = rw e (ask-Good adapted route t k)

  known_attempted :
      (s : Loop) (k : Text) (r : RouteResult)
      → known setting off steady s r ≡ true
      → known setting off steady (record s { attempted_keys = k ∷ s.attempted_keys }) r ≡ true
  unfolding known contains
  known_attempted s k r h =
      wider_or (k == key_of setting r) (contains (key_of setting r) s.attempted_keys)
        (contains (key_of setting r) (map (key_of setting) s.active_routes)) h
    where
      wider_or : (a b c : Bool) → (b || c) ≡ true → ((a || b) || c) ≡ true
      wider_or true b c h = refl
      wider_or false b c h = h

  Closed-attempted :
      (s : Loop) (k : Text)
      → Closed setting off steady s
      → Closed setting off steady (record s { attempted_keys = k ∷ s.attempted_keys })
  unfolding Closed
  Closed-attempted s k (inl explicit) = inl explicit
  Closed-attempted s k (inr (inl full)) = inr (inl full)
  Closed-attempted s k (inr (inr all_known)) =
      inr (inr (known_more (setting.fallbacks 0) all_known))
    where
      known_more :
          (rs : List RouteResult)
          → All (λ r. known setting off steady s r ≡ true) rs
          → All
              (λ r.
                known setting off steady (record s { attempted_keys = k ∷ s.attempted_keys }) r
                ≡ true)
              rs
      known_more [] h = tt
      known_more (r ∷ rs) (h, hs) = (known_attempted s k r h, known_more rs hs)

  attempted-Good :
      (s : Loop) (k : Text) → Good s → Good (record s { attempted_keys = k ∷ s.attempted_keys })
  unfolding Good Standing OfFirstTwo
  attempted-Good s k (inl (i, f), o) = (inl (i, f), o)
  attempted-Good s k (inr (i, c), o) = (inr (i, Closed-attempted s k c), o)

  Good-Standing : (s : Loop) → Good s → Standing s
  unfolding Good
  Good-Standing s g = g.0

  pub step-Good : (s : Loop) → Good s → Follows Good Ended (step setting world n s)
  unfolding step step_at Ready
  step-Good s g = at_route (get_elem? s.active_routes s.active_route_index) refl
    where
      at_route :
          (route : Option RouteResult)
          → get_elem? s.active_routes s.active_route_index ≡ route
          → Follows Good Ended (step_at setting world n route s)
      at_route none e = ends (Good-Ended s g)
      at_route (some route) e =
          attempt-Good route (build_attempt setting.request route) _
            (attempted-Good s (key_of setting route) g, first_two s route (Good-Standing s g) e)
