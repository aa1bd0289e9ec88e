-- ===== src/Routing/Routes.antt =====
-- src/config.ts, lines 348 to 440: the channels that have a model, and the route of one channel.
-- `locale_before a b` says that `a.localeCompare(b)` is negative.
use llmrelay_service.Base.{
  Bool, true, false, not, ◌&&◌, ◌||◌, Option, none, some, List, [], ◌∷◌, ◌++◌, Text, codes, drop,
  is_empty, Json, ◌==◌, list_eq, nat_eq, lookup, filter, any, find, contains, if◌then◌else◌,
  or_else, pos, int_eq, ltb_ℤ, sort_by,
}
use mathlib.Core.Option
use llmrelay_service.Routing.Types.{
  Upstream, anthropic, openai, upstream_beq, Mode, native, chat_compat, disabled, Model, Target,
  ConfigEntry, RouteResult, Tables,
}
use llmrelay_service.Routing.Tables.{is_model_routed_path, is_enabled, is_direct_routing_entry}

-- The comparison of `findRoutesByModel`
unfoldable pub comes_before : (Text → Text → Bool) → Text × ConfigEntry → Text × ConfigEntry → Bool
comes_before locale_before a b =
    let priority_a = or_else a.1.priority (pos 0) in
    let priority_b = or_else b.1.priority (pos 0) in
    if not (priority_b == priority_a) then ltb_ℤ priority_b priority_a else locale_before a.0 b.0

abbrev pub models_of : ConfigEntry → List Model
models_of entry = or_else entry.models []

abbrev pub has_type : Option Upstream → ConfigEntry → Bool
has_type none entry = true
has_type (some t) entry = elim entry.type [ none ↦ false | some u ↦ upstream_beq u t ]

-- `(entry.models ?? []).some((candidate) => getModelId(candidate) === model)`
abbrev pub lists_model : Text → ConfigEntry → Bool
lists_model model entry = any (λ (m : Model). m.model == model) (models_of entry)

-- What the loop of `findRoutesByModel` lets through
abbrev pub serves : Text → Option Upstream → Bool → Text × ConfigEntry → Bool
serves model expected include_explicit_only c =
    is_enabled c.1
    && (include_explicit_only || is_direct_routing_entry c.1)
    && has_type expected c.1
    && lists_model model c.1

-- `findRoutesByModel`
unfoldable pub find_routes_by_model :
    (Text → Text → Bool) → Tables → Text → Option Upstream → Bool → List (Text × ConfigEntry)
unfolding comes_before filter sort_by
find_routes_by_model locale_before tables model expected include_explicit_only =
    filter (serves model expected include_explicit_only)
      (sort_by (comes_before locale_before) tables.provider_configs)

-- `normalizeOpenAiResponsesMode` of a value that is not a declared mode
unfoldable pub normalize_mode : Option Json → Option (Option Mode)
normalize_mode none = some none
normalize_mode (some Json.null) = some none
normalize_mode (some (Json.str s)) =
    if is_empty s
    then some none
    else if s == codes "native"
    then some (some native)
    else if s == codes "chat_compat"
    then some (some chat_compat)
    else if s == codes "disabled"
    then some (some disabled)
    else none
normalize_mode (some _) = none

-- `getOpenAiResponsesMode` of an entry of type openai
unfoldable pub get_open_ai_responses_mode : ConfigEntry → Option Mode
unfolding normalize_mode
get_open_ai_responses_mode entry = elim entry.responses_mode [
  | some mode ↦ some mode
  | none ↦ Option.map (λ mode. or_else mode native) (normalize_mode entry.extra_mode)
]

-- A text that counts as true, as in `x ? { ... } : {}`
abbrev pub truthy : Option Text → Option Text
truthy none = none
truthy (some s) = if is_empty s then none else some s

-- The upstream name of a listed model
unfoldable pub upstream_model_of : Text → ConfigEntry → Option Text
unfolding find
upstream_model_of model entry = elim (find (λ (m : Model). m.model == model) (models_of entry)) [
  | none ↦ none
  | some m ↦ truthy m.upstream_model
]

-- `entry.type ?? 'openai'`
abbrev pub provider_type : ConfigEntry → Upstream
provider_type entry = or_else entry.type openai

-- The `normalizedPath` of `buildRouteResult`
unfoldable pub normalized_path : Upstream → Text → Text
unfolding is_model_routed_path
normalized_path anthropic path = path
normalized_path openai path =
    if is_model_routed_path path
    then (if is_empty (drop 3 path) then codes "/" else drop 3 path)
    else path

-- The object that `buildRouteResult` returns
unfoldable pub route_with :
    Text → ConfigEntry → Text → Text → Option Text → Option Mode → RouteResult
unfolding normalized_path upstream_model_of
route_with channel_name entry path query public_model mode = record {
  channel_name = channel_name;
  type = provider_type entry;
  target_url = entry.target_base_url ++ (normalized_path (provider_type entry) path ++ query);
  system_prompt = entry.system_prompt;
  auth = entry.auth;
  claude_code_compat = or_else entry.claude_code_compat false;
  responses_mode = mode;
  resolved_model = none;
  upstream_request_model = elim (truthy public_model) [
    | none ↦ none
    | some model ↦ upstream_model_of model entry
  ];
  virtual_model = none;
  return_real_model = none;
}

-- Only for the type openai is the mode asked for.
abbrev pub with_mode : Upstream → Option Mode → (Option Mode → RouteResult) → Option RouteResult
with_mode anthropic mode route = some (route none)
with_mode openai mode route = Option.map (λ m. route (some m)) mode

-- `buildRouteResult`
unfoldable pub build_route_result :
    Text → ConfigEntry → Text → Text → Option Text → Option RouteResult
unfolding get_open_ai_responses_mode route_with
build_route_result channel_name entry path query public_model =
    with_mode (provider_type entry) (get_open_ai_responses_mode entry)
      (route_with channel_name entry path query public_model)

abbrev pub with_models : Option Text → Option Text → RouteResult → RouteResult
with_models resolved upstream r = record {
  channel_name = r.channel_name;
  type = r.type;
  target_url = r.target_url;
  system_prompt = r.system_prompt;
  auth = r.auth;
  claude_code_compat = r.claude_code_compat;
  responses_mode = r.responses_mode;
  resolved_model = resolved;
  upstream_request_model = elim upstream [ none ↦ r.upstream_request_model | some u ↦ some u ];
  virtual_model = r.virtual_model;
  return_real_model = r.return_real_model;
}

-- `uuidToChannelName[provider] ?? provider`
unfoldable pub channel_of : Tables → Text → Text
unfolding lookup
channel_of tables provider = or_else (lookup provider tables.uuid_to_channel_name) provider

-- `resolveExplicitTargetRoute` behind the look-up of the channel
unfoldable pub target_route :
    Text → Option ConfigEntry → Text → Text → Text → Upstream → Option (Option RouteResult)
unfolding build_route_result upstream_model_of
target_route channel_name none pathname query model expected = some none
target_route channel_name (some entry) pathname query model expected =
    if is_enabled entry && has_type (some expected) entry
    then Option.map (λ r. some (with_models (some model) (upstream_model_of model entry) r))
        (build_route_result channel_name entry pathname query none)
    else some none

-- `resolveExplicitTargetRoute`, without its option, which no caller gives
unfoldable pub resolve_explicit_target_route :
    Tables → Text → Text → Target → Upstream → Option (Option RouteResult)
unfolding lookup channel_of target_route
resolve_explicit_target_route tables pathname query target expected =
    let channel_name = channel_of tables target.provider in
    target_route channel_name (lookup channel_name tables.provider_configs) pathname query
      target.model expected

-- The key of `dedupeRouteResults`
unfoldable pub route_key : RouteResult → Text
route_key r = r.channel_name ++ (b':' ∷ (or_else r.resolved_model [] ++ (b':' ∷ r.target_url)))

-- `dedupeRouteResults` with the keys seen
unfoldable pub dedupe_onto : List Text → List RouteResult → List RouteResult
unfolding route_key contains
dedupe_onto seen [] = []
dedupe_onto seen (r ∷ rs) =
    let repeated = dedupe_onto seen rs in
    let rest = dedupe_onto (route_key r ∷ seen) rs in
    if contains (route_key r) seen then repeated else r ∷ rest

-- `dedupeRouteResults`
unfoldable pub dedupe_route_results : List RouteResult → List RouteResult
unfolding dedupe_onto
dedupe_route_results routes = dedupe_onto [] routes
