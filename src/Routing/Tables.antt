-- ===== src/Routing/Tables.antt =====
-- src/config.ts, lines 248 to 279 and 314 to 346: filling the tables, and what a path asks for.
use llmrelay_service.Base.{
  ℕ, Bool, true, false, not, ◌&&◌, ◌||◌, Option, none, some, List, [], ◌∷◌, Text, codes,
  starts_with, drop, length, is_empty, ◌==◌, list_eq, nat_eq, lookup, insert, all, if◌then◌else◌,
}
use llmrelay_service.Routing.Types.{
  Upstream, anthropic, openai, explicit_only, ConfigEntry, AliasTarget, AliasRow, Tables,
}

-- The loop of `setProviderConfigs`
unfoldable pub uuids : List (Text × ConfigEntry) → List (Text × Text) → List (Text × Text)
unfolding insert
uuids [] table = table
uuids ((channel_name, entry) ∷ entries) table = uuids entries (elim entry.provider_uuid [
  | none ↦ table
  | some uuid ↦ if is_empty uuid then table else insert uuid channel_name table
])

-- `setProviderConfigs`
unfoldable pub set_provider_configs : List (Text × ConfigEntry) → Tables → Tables
unfolding uuids
set_provider_configs next tables = record {
  provider_configs = next;
  alias_configs = tables.alias_configs;
  uuid_to_channel_name = uuids next [];
}

-- The loop of `reloadProviderConfigs`
unfoldable pub enabled_aliases :
    List AliasRow → List (Text × AliasTarget) → List (Text × AliasTarget)
unfolding insert
enabled_aliases [] table = table
enabled_aliases (row ∷ rows) table =
    enabled_aliases rows (if row.enabled then insert row.alias row.target table else table)

-- `reloadProviderConfigs` on what the two stores return
unfoldable pub reload : List (Text × ConfigEntry) → List AliasRow → Tables → Tables
unfolding set_provider_configs enabled_aliases
reload entries rows tables = record {
  provider_configs = (set_provider_configs entries tables).provider_configs;
  alias_configs = enabled_aliases rows [];
  uuid_to_channel_name = (set_provider_configs entries tables).uuid_to_channel_name;
}

-- `isModelRoutedPath`
unfoldable pub is_model_routed_path : Text → Bool
unfolding starts_with
is_model_routed_path pathname = pathname == codes "/v1" || starts_with (codes "/v1/") pathname

-- `entry.enabled !== false`
abbrev pub is_enabled : ConfigEntry → Bool
is_enabled entry = elim entry.enabled [ some false ↦ false | _ ↦ true ]

-- `isDirectRoutingEntry`
abbrev pub is_direct_routing_entry : ConfigEntry → Bool
is_direct_routing_entry entry = elim entry.routing_visibility [
  | some explicit_only ↦ false
  | _ ↦ true
]

-- `[^/]+` and what follows
up_to_slash : Text → Text × Text
up_to_slash [] = ([], [])
up_to_slash (c ∷ s) =
    let (name, rest) = up_to_slash s in if c == b'/' then ([], c ∷ s) else (c ∷ name, rest)

-- What the dot of a regular expression matches
abbrev is_not_line_end : ℕ → Bool
is_not_line_end c = not (c == 10 || c == 13 || c == 0x2028 || c == 0x2029)

-- The regular expression of `parseExplicitRoutePath`
match_explicit : Text → Option (Text × Text)
unfolding starts_with up_to_slash
match_explicit pathname =
    let (name, rest) = up_to_slash (drop (length (codes "/providers/")) pathname) in
    if starts_with (codes "/providers/") pathname && not (is_empty name) && all is_not_line_end rest
    then some (name, rest)
    else none

-- `parseExplicitRoutePath`: the channel and the path
unfoldable pub parse_explicit_route_path : Tables → Text → Option (Text × Text)
unfolding match_explicit lookup
parse_explicit_route_path tables pathname = elim (match_explicit pathname) [
  | none ↦ none
  | some m ↦ elim (lookup m.0 tables.provider_configs) [
    | none ↦ none
    | some entry ↦
        if is_enabled entry && is_direct_routing_entry entry
        then some (m.0, (if is_empty m.1 then codes "/" else m.1))
        else none
  ]
]

-- `inferExpectedProviderType`
unfoldable pub infer_expected_provider_type : Text → Option Upstream
unfolding starts_with is_model_routed_path
infer_expected_provider_type pathname =
    if pathname == codes "/v1/messages" || starts_with (codes "/v1/messages?") pathname
    then some anthropic
    else if is_model_routed_path pathname
    then some openai
    else none

-- The early returns of the functions that resolve a model, and the type they go on with
unfoldable pub expected_type : Text → Option Upstream → Option Upstream
unfolding is_model_routed_path infer_expected_provider_type
expected_type pathname forced =
    if is_model_routed_path pathname
    then elim forced [ some t ↦ some t | none ↦ infer_expected_provider_type pathname ]
    else none
