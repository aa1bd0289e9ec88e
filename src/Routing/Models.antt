-- ===== src/Routing/Models.antt =====
-- src/config.ts, lines 911 to 987: the models that the relay offers.
use llmrelay_service.Base.{
  Bool, true, false, ◌&&◌, Option, none, some, List, [], ◌∷◌, ◌++◌, map, Text, codes, ◌==◌, nat_eq,
  list_eq, lookup, find, contains, if◌then◌else◌, sort_by, ℤ,
}
use llmrelay_service.Routing.Types.{
  upstream_name, Model, Target, ConfigEntry, AliasTarget, ModelInfo, Tables,
}
use llmrelay_service.Routing.Tables.{is_enabled, is_direct_routing_entry}
use llmrelay_service.Routing.Routes.{comes_before, models_of, provider_type, channel_of}
use llmrelay_service.Routing.Resolve.{targets_of}

-- `dedupeKey`
unfoldable pub model_key : ModelInfo → Text
model_key m = m.id ++ (b':' ∷ upstream_name m.type)

-- `seenModelKeys` and `models` of `getModels`
pub record Listing : Type 0 where
  pub seen : List Text
  pub models : List ModelInfo

-- The test on `seenModelKeys` and the two calls behind it
unfoldable pub add_model : Listing → ModelInfo → Listing
unfolding model_key contains
add_model l info =
    if contains (model_key info) l.seen
    then l
    else record { seen = l.seen ++ model_key info ∷ []; models = l.models ++ info ∷ [] }

unfoldable pub add_models : Listing → List ModelInfo → Listing
unfolding add_model
add_models l [] = l
add_models l (info ∷ infos) = add_models (add_model l info) infos

abbrev pub infos_of : Text × ConfigEntry → List ModelInfo
infos_of (channel_name, entry) =
    map
      (λ (m : Model). record {
        id = m.model;
        channel_name = channel_name;
        type = provider_type entry;
        context = m.context;
      })
      (models_of entry)

-- The loop over the channels
unfoldable pub add_channels : Listing → List (Text × ConfigEntry) → Listing
unfolding add_models
add_channels l [] = l
add_channels l (c ∷ cs) =
    add_channels
      (if is_enabled c.1 && is_direct_routing_entry c.1 then add_models l (infos_of c) else l) cs

-- The first target of an alias whose channel is there and enabled, with the listed model
unfoldable pub first_route : Tables → List Target → Option (ConfigEntry × Option Model)
unfolding channel_of lookup find
first_route tables [] = none
first_route tables (t ∷ ts) =
    let later = first_route tables ts in
    elim (lookup (channel_of tables t.provider) tables.provider_configs) [
      | none ↦ later
      | some entry ↦
          if is_enabled entry
          then some (entry, find (λ (m : Model). m.model == t.model) (models_of entry))
          else later
    ]

abbrev pub is_visible : AliasTarget → Bool
is_visible target = elim target.visible [ some false ↦ false | _ ↦ true ]

abbrev pub context_of : Option Model → Option ℤ
context_of none = none
context_of (some m) = m.context

-- What is listed for an alias with that first target
unfoldable pub add_alias : Listing → Text → Option (ConfigEntry × Option Model) → Listing
unfolding add_model
add_alias l alias none = l
add_alias l alias (some (entry, matched)) = add_model l (record {
  id = alias;
  channel_name = codes "virtual-route";
  type = provider_type entry;
  context = context_of matched;
})

-- The loop over the aliases
unfoldable pub add_aliases : Tables → Listing → List (Text × AliasTarget) → Listing
unfolding first_route add_alias
add_aliases tables l [] = l
add_aliases tables l ((alias, target) ∷ aliases) =
    add_aliases tables
      (if is_visible target then add_alias l alias (first_route tables (targets_of target)) else l)
      aliases

-- `getModels`
unfoldable pub get_models : (Text → Text → Bool) → Tables → List ModelInfo
unfolding add_channels add_aliases sort_by comes_before
get_models locale_before tables =
    let channels =
      add_channels (record { seen = []; models = [] })
        (sort_by (comes_before locale_before) tables.provider_configs) in
    (add_aliases tables channels tables.alias_configs).models

unfoldable pub listed_models : List (Text × ConfigEntry) → List ModelInfo
listed_models [] = []
listed_models (c ∷ cs) =
    let rest = listed_models cs in if is_enabled c.1 then infos_of c ++ rest else rest

-- `getChannelModels`
unfoldable pub get_channel_models : (Text → Text → Bool) → Tables → List ModelInfo
unfolding listed_models sort_by comes_before
get_channel_models locale_before tables =
    listed_models (sort_by (comes_before locale_before) tables.provider_configs)
