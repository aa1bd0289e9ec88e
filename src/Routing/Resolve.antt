-- ===== src/Routing/Resolve.antt =====
-- src/config.ts, lines 791 to 909: the routes of a request, by its path or by its model.
use llmrelay_service.Base.{
  each, ◌+◌, ◌-◌, Bool, false, ◌&&◌, ◌||◌, Option, none, some, List, [], ◌∷◌, ◌++◌, map, Text,
  codes, index_of, take, drop, length, trim, is_empty, ◌==◌, nat_eq, list_eq, lookup, filter,
  if◌then◌else◌, or_else, sort_by,
}
use mathlib.Core.Option
use llmrelay_service.Routing.Types.{
  Upstream, Model, Target, ConfigEntry, RouteResult, AliasTarget, Tables,
}
use llmrelay_service.Routing.Tables.{
  parse_explicit_route_path, expected_type, is_enabled, is_direct_routing_entry,
}
use llmrelay_service.Routing.Routes.{
  comes_before, models_of, has_type, lists_model, find_routes_by_model, build_route_result,
  with_models, channel_of, resolve_explicit_target_route, dedupe_route_results,
}

-- `.filter((route) => route !== null)`
unfoldable pub present {ℓ} : {A : Type ℓ} → List (Option A) → List A
present [] = []
present (none ∷ xs) = present xs
present (some x ∷ xs) = x ∷ present xs

-- `resolveRoute`
unfoldable pub resolve_route : Tables → Text → Text → Option (Option RouteResult)
unfolding parse_explicit_route_path lookup build_route_result
resolve_route tables pathname query = elim (parse_explicit_route_path tables pathname) [
  | none ↦ some none
  | some parsed ↦ elim (lookup parsed.0 tables.provider_configs) [
    | none ↦ none
    | some entry ↦ Option.map some (build_route_result parsed.0 entry parsed.1 query none)
  ]
]

abbrev pub as_virtual : Text → AliasTarget → RouteResult → RouteResult
as_virtual alias target r = record {
  channel_name = r.channel_name;
  type = r.type;
  target_url = r.target_url;
  system_prompt = r.system_prompt;
  auth = r.auth;
  claude_code_compat = r.claude_code_compat;
  responses_mode = r.responses_mode;
  resolved_model = r.resolved_model;
  upstream_request_model = r.upstream_request_model;
  virtual_model = some alias;
  return_real_model = some (or_else target.return_real_model false);
}

-- `aliasTarget.targets ?? [aliasTarget]`
abbrev pub targets_of : AliasTarget → List Target
targets_of target =
    or_else target.targets (record { provider = target.provider; model = target.model } ∷ [])

-- The routes of an alias, in `resolveRoutesByModel` and in `resolveAliasFallbackRoutes`
unfoldable pub alias_routes :
    Tables → Text → Text → Text → AliasTarget → Upstream → Option (List RouteResult)
unfolding each present resolve_explicit_target_route dedupe_route_results
alias_routes tables pathname query alias target expected =
    Option.map (λ routes. dedupe_route_results (map (as_virtual alias target) (present routes)))
      (each (λ t. resolve_explicit_target_route tables pathname query t expected)
        (targets_of target))

-- The routes of the channels that list the model, in `resolveRoutesByModel` and in
-- `resolveRoutesForModelFallback`
unfoldable pub channel_routes :
    (Text → Text → Bool) → Tables → Text → Text → Text → Upstream → Option (List RouteResult)
unfolding each build_route_result find_routes_by_model
channel_routes locale_before tables pathname query model expected =
    each (λ (c : Text × ConfigEntry). build_route_result c.0 c.1 pathname query (some model))
      (find_routes_by_model locale_before tables model (some expected) false)

-- `resolveRoutesByModel` behind the look-up of the alias
unfoldable pub model_routes :
    (Text → Text → Bool)
    → Tables
    → Text
    → Text
    → Text
    → Option AliasTarget
    → Upstream
    → Option (List RouteResult)
unfolding alias_routes channel_routes
model_routes locale_before tables pathname query model (some target) expected =
    alias_routes tables pathname query model target expected
model_routes locale_before tables pathname query model none expected =
    channel_routes locale_before tables pathname query model expected

-- `resolveRoutesByModel`
unfoldable pub resolve_routes_by_model :
    (Text → Text → Bool) → Tables → Text → Text → Text → Option Upstream → Option (List RouteResult)
unfolding expected_type lookup model_routes
resolve_routes_by_model locale_before tables pathname query model forced =
    elim (expected_type pathname forced) [
      | none ↦ some []
      | some expected ↦
          model_routes locale_before tables pathname query model (lookup model tables.alias_configs)
            expected
    ]

-- `resolveRoutesForModelFallback`
unfoldable pub resolve_routes_for_model_fallback :
    (Text → Text → Bool) → Tables → Text → Text → Text → Option Upstream → Option (List RouteResult)
unfolding expected_type channel_routes
resolve_routes_for_model_fallback locale_before tables pathname query model forced =
    elim (expected_type pathname forced) [
      | none ↦ some []
      | some expected ↦ channel_routes locale_before tables pathname query model expected
    ]

-- `resolveAliasFallbackRoutes` behind the look-up of the alias
unfoldable pub alias_fallback :
    Tables → Text → Text → Text → Option AliasTarget → Upstream → Option (List RouteResult)
unfolding alias_routes
alias_fallback tables pathname query alias none expected = some []
alias_fallback tables pathname query alias (some target) expected =
    alias_routes tables pathname query alias target expected

-- `resolveAliasFallbackRoutes`
unfoldable pub resolve_alias_fallback_routes :
    Tables → Text → Text → Text → Upstream → Option (List RouteResult)
unfolding lookup alias_fallback
resolve_alias_fallback_routes tables pathname query alias expected =
    alias_fallback tables pathname query alias (lookup alias tables.alias_configs) expected

-- The channel and the model of a target `channel:model`
unfoldable pub parse_fallback_target : Text → Option (Text × Text)
unfolding index_of trim
parse_fallback_target fallback_target = elim (index_of (codes ":") fallback_target) [
  | none ↦ none
  | some separator ↦
      let channel = trim (take separator fallback_target) in
      let model = trim (drop (separator + 1) fallback_target) in
      if separator == 0
        || separator == length fallback_target - 1
        || is_empty channel
        || is_empty model
      then none
      else some (channel, model)
]

-- `resolveChannelModelFallbackRoute` behind the look-up of the channel
unfoldable pub listed_route :
    Tables → Text → Text → Text → Text → Option ConfigEntry → Upstream → Option (Option RouteResult)
unfolding resolve_explicit_target_route
listed_route tables pathname query channel_name model none expected = some none
listed_route tables pathname query channel_name model (some entry) expected =
    if is_enabled entry && has_type (some expected) entry && lists_model model entry
    then resolve_explicit_target_route tables pathname query
        (record { provider = channel_name; model = model }) expected
    else some none

unfoldable pub fallback_route :
    Tables → Text → Text → Option (Text × Text) → Upstream → Option (Option RouteResult)
unfolding channel_of lookup listed_route
fallback_route tables pathname query none expected = some none
fallback_route tables pathname query (some (provider, model)) expected =
    let channel_name = channel_of tables provider in
    listed_route tables pathname query channel_name model
      (lookup channel_name tables.provider_configs) expected

-- `resolveChannelModelFallbackRoute`
unfoldable pub resolve_channel_model_fallback_route :
    Tables → Text → Text → Text → Upstream → Option (Option RouteResult)
unfolding parse_fallback_target fallback_route
resolve_channel_model_fallback_route tables pathname query fallback_target expected =
    fallback_route tables pathname query (parse_fallback_target fallback_target) expected

-- The test on the routes of the alias, of which none are taken if there are none
unfoldable pub or_channel :
    Option (List RouteResult) → Option (Option RouteResult) → Option (List RouteResult)
unfolding present
or_channel none route = none
or_channel (some []) route = Option.map (λ r. present (r ∷ [])) route
or_channel (some (r ∷ rs)) route = some (r ∷ rs)

-- One turn of the loop of `resolveRoutesForFallbackModels`
unfoldable pub fallback_model_routes :
    Tables → Text → Text → Upstream → Text → Option (List RouteResult)
unfolding resolve_alias_fallback_routes resolve_channel_model_fallback_route or_channel
fallback_model_routes tables pathname query expected fallback_model =
    or_channel (resolve_alias_fallback_routes tables pathname query fallback_model expected)
      (resolve_channel_model_fallback_route tables pathname query fallback_model expected)

unfoldable pub flatten {ℓ} : {A : Type ℓ} → List (List A) → List A
flatten [] = []
flatten (xs ∷ xss) = xs ++ flatten xss

-- `resolveRoutesForFallbackModels`
unfoldable pub resolve_routes_for_fallback_models :
    Tables → Text → Text → List Text → Option Upstream → Option (List RouteResult)
unfolding expected_type each fallback_model_routes flatten dedupe_route_results
resolve_routes_for_fallback_models tables pathname query fallback_models forced =
    elim (expected_type pathname forced) [
      | none ↦ some []
      | some expected ↦
          Option.map (λ routes. dedupe_route_results (flatten routes))
            (each (fallback_model_routes tables pathname query expected) fallback_models)
    ]

-- The inner loop of `resolveRoutesForAnyModelFallback`
unfoldable pub entry_routes : Text → Text → Text × ConfigEntry → Option (List RouteResult)
unfolding each build_route_result
entry_routes pathname query (channel_name, entry) =
    each
      (λ (m : Model).
        Option.map (λ r. with_models (some m.model) none r)
          (build_route_result channel_name entry pathname query (some m.model)))
      (models_of entry)

-- What the outer loop lets through
abbrev pub takes_part : Upstream → Text × ConfigEntry → Bool
takes_part expected (channel_name, entry) =
    is_enabled entry && is_direct_routing_entry entry && has_type (some expected) entry

-- `resolveRoutesForAnyModelFallback`
unfoldable pub resolve_routes_for_any_model_fallback :
    (Text → Text → Bool) → Tables → Text → Text → Option Upstream → Option (List RouteResult)
unfolding expected_type each entry_routes flatten filter sort_by comes_before
resolve_routes_for_any_model_fallback locale_before tables pathname query forced =
    elim (expected_type pathname forced) [
      | none ↦ some []
      | some expected ↦ Option.map flatten (
          each (entry_routes pathname query) (
            filter (takes_part expected)
              (sort_by (comes_before locale_before) tables.provider_configs)))
    ]
