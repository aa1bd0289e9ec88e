-- ===== src/Routing/Targets.antt =====
-- What a resolved route is: that of a configured, enabled channel of the type.
pub mod Found
use mathlib.Core.Bool.{false≢true}
use llmrelay_service.Base.{
  put_first, each, ◌≡◌, refl, sym, ap, subst, ◌∙◌, inl, inr, Bool, true, false, ◌&&◌, Option, none,
  some, List, [], ◌∷◌, ◌++◌, map, Text, arith, Bool-cases, ◌==◌, ==-eq, ==_self, list_eq, nat_eq,
  or_else, lookup, contains, IsDistinct, All, In, here, there, if_true, if_false,
}
use mathlib.Core.Option
use llmrelay_service.Routing.Types.{
  Upstream, anthropic, openai, upstream_beq, Mode, Target, ConfigEntry, RouteResult, AliasTarget,
  Tables,
}
use llmrelay_service.Routing.Tables.{expected_type, is_enabled}
use llmrelay_service.Routing.Routes.{
  has_type, lists_model, provider_type, normalized_path, get_open_ai_responses_mode, route_with,
  with_mode, build_route_result, channel_of, target_route, resolve_explicit_target_route, route_key,
  dedupe_onto, dedupe_route_results, find_routes_by_model,
}
use llmrelay_service.Routing.Resolve.{
  present, as_virtual, targets_of, alias_routes, channel_routes, resolve_routes_by_model,
  model_routes, listed_route, fallback_route, alias_fallback, or_channel, fallback_model_routes,
  resolve_alias_fallback_routes, resolve_channel_model_fallback_route, parse_fallback_target,
  resolve_routes_for_fallback_models, flatten,
}
use llmrelay_service.Routing.Selection.{All-In, find_routes_by_model_exact}
use llmrelay_service.Routing.Targets.Found.{
  &&-split, HasModes, Backed, Gives, each-Gives, Maybe, present-All, build-Gives, Gives-none,
  lookup-In, map-Gives, dedupe-kept, All-map, flatten-All,
}

-- Every stored value of `extraFields.responsesMode` is one that the relay accepts.

module _ (tables : Tables) (expected : Upstream) (pathname query : Text)
    (modes : HasModes tables) where
  abbrev Good : RouteResult → Type 0
  Good r = Backed tables expected pathname query r

  target-Gives :
      (channel_name model : Text) (o : Option ConfigEntry)
      → lookup channel_name tables.provider_configs ≡ o
      → Gives (Maybe Good) (target_route channel_name o pathname query model expected)
  unfolding target_route
  target-Gives channel_name model none e = Gives-none Good
  target-Gives channel_name model (some entry) e =
      elim (Bool-cases (is_enabled entry && has_type (some expected) entry)) [
        | inl h ↦
            let (enabled, typed) = &&-split (is_enabled entry) (has_type (some expected) entry) h in
            subst (Gives (Maybe Good)) (sym (if_true _ _ _ h)) (
              map-Gives _ Good (Maybe Good) _ (λ r p. p)
                (build-Gives tables expected pathname query none (channel_name, entry) modes
                  (lookup-In channel_name entry tables.provider_configs e) enabled typed))
        | inr h ↦ subst (Gives (Maybe Good)) (sym (if_false _ _ _ h)) (Gives-none Good)
      ]

  explicit-Gives :
      (t : Target)
      → Gives (Maybe Good) (resolve_explicit_target_route tables pathname query t expected)
  unfolding resolve_explicit_target_route
  explicit-Gives t =
      target-Gives (channel_of tables t.provider) t.model
        (lookup (channel_of tables t.provider) tables.provider_configs) refl

  alias-Gives :
      (alias : Text) (target : AliasTarget)
      → Gives
          (λ rs. All Good rs × IsDistinct (map route_key rs))
          (alias_routes tables pathname query alias target expected)
  unfolding alias_routes
  alias-Gives alias target =
      map-Gives _ (All (Maybe Good)) _ _
        (λ os h.
          dedupe-kept Good (map (as_virtual alias target) (present os))
            (All-map (as_virtual alias target) Good (present os) (present-All Good os h)))
        (each-Gives _ (Maybe Good) (targets_of target)
          (All-In _ (targets_of target) (λ t i. explicit-Gives t)))

  channel-Gives :
      (locale_before : Text → Text → Bool) (model : Text)
      → Gives (All Good) (channel_routes locale_before tables pathname query model expected)
  unfolding channel_routes
  channel-Gives locale_before model =
      let found = find_routes_by_model locale_before tables model (some expected) false in
      each-Gives _ Good found (
        All-In _ found (λ c i.
          let (configured, enabled, direct, typed, listed) =
            (find_routes_by_model_exact locale_before tables model (some expected) false c).0 i in
          build-Gives tables expected pathname query (some model) c modes configured enabled typed))

  model_routes-Gives :
      (locale_before : Text → Text → Bool) (model : Text) (o : Option AliasTarget)
      → Gives (All Good) (model_routes locale_before tables pathname query model o expected)
  unfolding model_routes
  model_routes-Gives locale_before model none = channel-Gives locale_before model
  model_routes-Gives locale_before model (some target) =
      let (rs, e, h) = alias-Gives model target in (rs, e, h.0)

  listed-Gives :
      (channel_name model : Text) (o : Option ConfigEntry)
      → Gives (Maybe Good) (listed_route tables pathname query channel_name model o expected)
  unfolding listed_route
  listed-Gives channel_name model none = Gives-none Good
  listed-Gives channel_name model (some entry) =
      elim (Bool-cases
        (is_enabled entry && has_type (some expected) entry && lists_model model entry)) [
          | inl h ↦
              subst (Gives (Maybe Good)) (sym (if_true _ _ _ h))
                (explicit-Gives (record { provider = channel_name; model = model }))
          | inr h ↦ subst (Gives (Maybe Good)) (sym (if_false _ _ _ h)) (Gives-none Good)
        ]

  fallback_route-Gives :
      (o : Option (Text × Text))
      → Gives (Maybe Good) (fallback_route tables pathname query o expected)
  unfolding fallback_route
  fallback_route-Gives none = Gives-none Good
  fallback_route-Gives (some (provider, model)) =
      listed-Gives (channel_of tables provider) model
        (lookup (channel_of tables provider) tables.provider_configs)

  alias_fallback-Gives :
      (alias : Text) (o : Option AliasTarget)
      → Gives (All Good) (alias_fallback tables pathname query alias o expected)
  unfolding alias_fallback
  alias_fallback-Gives alias none = ([], refl, tt)
  alias_fallback-Gives alias (some target) =
      let (rs, e, h) = alias-Gives alias target in (rs, e, h.0)

  or_channel-Gives :
      (routes : Option (List RouteResult)) (route : Option (Option RouteResult))
      → Gives (All Good) routes
      → Gives (Maybe Good) route
      → Gives (All Good) (or_channel routes route)
  unfolding or_channel
  or_channel-Gives routes route ([], e, _) h =
      subst (λ o. Gives (All Good) (or_channel o route)) (sym e)
        (map-Gives _ (Maybe Good) (All Good) route (λ o p. present-All Good (o ∷ []) (p, tt)) h)
  or_channel-Gives routes route (r ∷ rs, e, p) h = (r ∷ rs, ap (λ o. or_channel o route) e, p)

  turn-Gives :
      (fallback_model : Text)
      → Gives (All Good) (fallback_model_routes tables pathname query expected fallback_model)
  unfolding fallback_model_routes resolve_alias_fallback_routes resolve_channel_model_fallback_route
  turn-Gives fallback_model =
      or_channel-Gives
        (alias_fallback tables pathname query fallback_model
          (lookup fallback_model tables.alias_configs) expected)
        (fallback_route tables pathname query (parse_fallback_target fallback_model) expected)
        (alias_fallback-Gives fallback_model (lookup fallback_model tables.alias_configs))
        (fallback_route-Gives (parse_fallback_target fallback_model))

-- If every stored mode is one that the relay accepts, then `resolveRoutesByModel` does not throw on
-- a path with a model, and each route that it returns, by an alias or not, leads to a configured and
-- enabled channel of the expected type, at its base address and the path as the type wants it.
pub resolve_routes_by_model-Backed :
    (locale_before : Text → Text → Bool) (tables : Tables) (pathname query model : Text)
    (forced : Option Upstream) (expected : Upstream)
    → HasModes tables
    → expected_type pathname forced ≡ some expected
    → Gives
        (All (Backed tables expected pathname query))
        (resolve_routes_by_model locale_before tables pathname query model forced)
unfolding resolve_routes_by_model
resolve_routes_by_model-Backed locale_before tables pathname query model forced expected modes e =
    rw (e, resolve_routes_by_model)
      (model_routes-Gives tables expected pathname query modes locale_before model
        (lookup model tables.alias_configs))

-- If every stored mode is one that the relay accepts, then `resolveRoutesForFallbackModels` does not
-- throw on a path with a model, each route that it returns leads to a configured and enabled channel
-- of the expected type, at its base address and the path, and no channel, model and address is
-- returned twice.
pub resolve_routes_for_fallback_models-Backed :
    (tables : Tables) (pathname query : Text) (fallback_models : List Text)
    (forced : Option Upstream) (expected : Upstream)
    → HasModes tables
    → expected_type pathname forced ≡ some expected
    → Gives
        (λ rs. All (Backed tables expected pathname query) rs × IsDistinct (map route_key rs))
        (resolve_routes_for_fallback_models tables pathname query fallback_models forced)
unfolding resolve_routes_for_fallback_models
resolve_routes_for_fallback_models-Backed tables pathname query models forced expected modes e =
    let good = Backed tables expected pathname query in
    rw (e, resolve_routes_for_fallback_models)
      (map-Gives _ (All (All good)) _ _
        (λ rss h. dedupe-kept good (flatten rss) (flatten-All good rss h))
        (each-Gives _ (All good) models
          (All-In _ models (λ m i. turn-Gives tables expected pathname query modes m))))
