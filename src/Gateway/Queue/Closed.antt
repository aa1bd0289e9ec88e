-- ===== src/Gateway/Queue/Closed.antt =====
-- When no fallback route can be appended any more: `buildFallbackRoutes` and the appending
use llmrelay_service.Base.{
  ℕ, ◌-◌, ◌≤◌, Bool, true, false, not, List, [], ◌∷◌, ◌++◌, if◌then◌else◌, ◌&&◌, ◌||◌, ◌≡◌, refl,
  sym, subst, ◌∙◌, ◌⊎◌, inl, inr, length, take, map, length-take, list_eq, nat_eq, ltb, leb, arith,
  Bool-cases, contains, All, In, filter, if_false,
}
use llmrelay_service.Routing.Types.{RouteResult}
use llmrelay_service.Cooldown.{Entries}
use llmrelay_service.Gateway.State.{Setting, Loop}
use llmrelay_service.Gateway.Fallbacks.{
  cooldown_enabled, model_of, key_of, is_cooling, is_eligible, build_fallback_routes, can_fall_back,
  probe, append_fallbacks, appended_routes,
}
use llmrelay_service.Gateway.Queue.Lists.{
  disabled_none, and_false_right, contains_append, contains-In, All-In, All-by_filter, take_all,
  no_limit, not-false, shorter, guard_take,
}

module _ (setting : Setting) (off : cooldown_enabled setting.policy ≡ false)
    (steady : (m n : ℕ) → setting.fallbacks m ≡ setting.fallbacks n) where
  -- If a route is active or was attempted
  unfoldable pub known : Loop → RouteResult → Bool
  known s r =
      contains (key_of setting r) s.attempted_keys
      || contains (key_of setting r) (map (key_of setting) s.active_routes)

  -- No fallback route can be appended any more.
  unfoldable pub Closed : Loop → Type 0
  Closed s =
      (setting.is_explicit ≡ true)
      ⊎ ((setting.policy.max_fallback_attempts ≤ s.fallback_attempts)
          ⊎ All (λ r. known s r ≡ true) (setting.fallbacks 0))

  not_cooling :
      (entries : Entries) (now : ℕ) (r : RouteResult) → is_cooling setting entries now r ≡ false
  unfolding is_cooling
  not_cooling entries now r =
      rw
        (
          is_cooling,
          disabled_none entries r.channel_name (model_of setting r)
              (cooldown_enabled setting.policy) now off,
        )
        refl

  eligible_unknown :
      (s : Loop) (now : ℕ) (r : RouteResult) → is_eligible setting s now r ≡ not (known s r)
  unfolding is_eligible known
  eligible_unknown s now r = rw (not_cooling s.entries now r) (demorgan _ _)
    where
      demorgan : (a b : Bool) → (not a && not b) ≡ not (a || b)
      demorgan true b = refl
      demorgan false b = refl

  none_eligible :
      (s : Loop) (now : ℕ) (rs : List RouteResult)
      → All (λ r. known s r ≡ true) rs
      → filter (is_eligible setting s now) rs ≡ []
  unfolding filter
  none_eligible s now [] h = refl
  none_eligible s now (r ∷ rs) (k, h) = rw (eligible_unknown s now r, k) (none_eligible s now rs h)

  pub Closed-stays : (s : Loop) (now : ℕ) → Closed s → can_fall_back setting s now ≡ false
  unfolding Closed can_fall_back build_fallback_routes
  Closed-stays s now (inl explicit) = rw explicit (and_false_right _)
  Closed-stays s now (inr (inl full)) = ground (arith, full)
  Closed-stays s now (inr (inr all_known)) =
      rw
        (none_eligible s now (setting.fallbacks now)
          (subst (All (λ r. known s r ≡ true)) (steady 0 now) all_known))
        (if_empty (setting.is_explicit || leb setting.policy.max_fallback_attempts 0))
    where
      if_empty :
          (b : Bool)
          → (ltb s.fallback_attempts setting.policy.max_fallback_attempts
              && ltb 0 (length {A = RouteResult} (if b then [] else [])))
            ≡ false
      if_empty true = and_false_right _
      if_empty false = and_false_right _

  appended_lem :
      (s : Loop) (now : ℕ)
      → appended_routes setting s now
        ≡ take
            (setting.policy.max_fallback_attempts - s.fallback_attempts)
            (build_fallback_routes setting s now)
  unfolding appended_routes can_fall_back
  appended_lem s now =
      guard_take setting.policy.max_fallback_attempts s.fallback_attempts
        (build_fallback_routes setting s now)

  -- What is known stays known behind further routes, which are known then.
  known_wider :
      (s t : Loop) (added : List RouteResult) (r : RouteResult)
      → t.active_routes ≡ s.active_routes ++ added
      → t.attempted_keys ≡ s.attempted_keys
      → known s r ≡ true
      → known t r ≡ true
  unfolding known
  known_wider s t added r e a h =
      rw (e, a, contains_append (key_of setting) (key_of setting r) s.active_routes added)
        (ground (arith, h))

  known_added :
      (s t : Loop) (added : List RouteResult) (r : RouteResult)
      → t.active_routes ≡ s.active_routes ++ added
      → In r added
      → known t r ≡ true
  unfolding known
  known_added s t added r e i =
      rw
        (
          e,
          contains_append (key_of setting) (key_of setting r) s.active_routes added,
          contains-In (key_of setting) r added i,
        )
        (ground arith)

  -- Behind an appending nothing can be appended any more.
  pub append_closes :
      (s : Loop) (now : ℕ)
      → s.fallback_attempts ≤ setting.policy.max_fallback_attempts
      → Closed (append_fallbacks setting s now)
  unfolding Closed append_fallbacks probe build_fallback_routes
  append_closes s now h =
      by_kind (Bool-cases setting.is_explicit)
        (Bool-cases (leb setting.policy.max_fallback_attempts 0))
    where
      room : ℕ
      room = setting.policy.max_fallback_attempts - s.fallback_attempts

      by_room :
          build_fallback_routes setting s now
            ≡ filter (is_eligible setting s now) (setting.fallbacks now)
          → (leb room (length (build_fallback_routes setting s now)) ≡ true)
            ⊎ (leb room (length (build_fallback_routes setting s now)) ≡ false)
          → Closed (append_fallbacks setting s now)
      by_room same (inl enough) = inr (
          inl (
            let bound = length-take room (build_fallback_routes setting s now) in
            rw (appended_lem s now) (ground (arith, bound, enough))))
      by_room same (inr few) =
          let added_all =
            appended_lem s now
            ∙ take_all room (build_fallback_routes setting s now) (shorter _ _ few)
            ∙ same in
          inr (
            inr (
              subst (All _) (steady now 0) (
                All-by_filter _ (is_eligible setting s now) (setting.fallbacks now)
                  (All-In _ (λ r i.
                    known_added s (append_fallbacks setting s now) (appended_routes setting s now) r
                      refl (subst (In r) (sym added_all) i)))
                  (λ r dropped.
                    known_wider s (append_fallbacks setting s now) (appended_routes setting s now) r
                      refl refl
                      (not-false (known s r) (sym (eligible_unknown s now r) ∙ dropped))))))

      by_kind :
          (setting.is_explicit ≡ true) ⊎ (setting.is_explicit ≡ false)
          → (leb setting.policy.max_fallback_attempts 0 ≡ true)
            ⊎ (leb setting.policy.max_fallback_attempts 0 ≡ false)
          → Closed (append_fallbacks setting s now)
      by_kind (inl explicit) _ = inl explicit
      by_kind (inr routed) (inl no_room) = inr (inl (no_limit _ _ _ no_room))
      by_kind (inr routed) (inr some_room) =
          by_room
            (if_false (setting.is_explicit || leb setting.policy.max_fallback_attempts 0) []
              (filter (is_eligible setting s now) (setting.fallbacks now))
              (rw (routed, some_room) refl))
            (Bool-cases (leb room (length (build_fallback_routes setting s now))))
