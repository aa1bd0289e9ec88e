-- ===== src/Routing/Tests.antt =====
-- Runs of the routing on two concrete channels and an alias.

use llmrelay_service.Base.{
  Json, lookup, ◌||◌, ◌≡◌, refl, ap, ◌↔◌, Bool, true, false, [], ◌∷◌, map, Text, codes, none, some,
  pos, In, here, there, All, IsDistinct, list_eq, nat_eq, list_beq,
}
use llmrelay_service.Routing.Types.{openai, native, ConfigEntry, Tables}
use llmrelay_service.Routing.Tables.{
  set_provider_configs, is_enabled, is_direct_routing_entry, expected_type,
  parse_explicit_route_path,
}
use llmrelay_service.Routing.Routes.{
  has_type, lists_model, find_routes_by_model, get_open_ai_responses_mode, route_key,
}
use llmrelay_service.Routing.Resolve.{
  resolve_routes_by_model, resolve_routes_for_fallback_models, parse_fallback_target,
}
use llmrelay_service.Routing.Models.{get_models, model_key}
use llmrelay_service.Routing.Selection.{
  find_routes_by_model_exact, IsRanked, find_routes_by_model-IsRanked,
}
use llmrelay_service.Routing.Targets.Found.{HasModes, Backed, Gives}
use llmrelay_service.Routing.Targets.{
  resolve_routes_by_model-Backed, resolve_routes_for_fallback_models-Backed,
}
use llmrelay_service.Routing.Mutations.{
  Configs, Rows, not_shown, Settles, create_provider, update_provider, delete_provider,
  toggle_provider, mutation-Settles,
}
use llmrelay_service.Routing.Listing.{get_models-IsDistinct}

abbrev gpt : Text
gpt = codes "gpt"

abbrev a_channel : ConfigEntry
a_channel = record {
  type = some openai;
  target_base_url = codes "https://a/v1";
  system_prompt = none;
  auth = none;
  models = some (record { model = gpt; upstream_model = none; context = none } ∷ []);
  priority = some (pos 2);
  enabled = none;
  routing_visibility = none;
  responses_mode = none;
  extra_mode = none;
  provider_uuid = some (codes "u1");
  claude_code_compat = none;
}

abbrev some_tables : Tables
some_tables = record {
  provider_configs = (codes "a", a_channel) ∷ [];
  alias_configs =
      (
        codes "fast",
        record {
          provider = codes "u1";
          model = gpt;
          targets = none;
          visible = none;
          return_real_model = none;
        },
      )
      ∷ [];
  uuid_to_channel_name = (codes "u1", codes "a") ∷ [];
}

-- All names compare as equal.
abbrev no_order : Text → Text → Bool
no_order a b = false

abbrev chat_path : Text
chat_path = codes "/v1/chat/completions"

explicit-path :
    parse_explicit_route_path some_tables (codes "/providers/a/v1/x")
    ≡ some (codes "a", codes "/v1/x")
unfolding parse_explicit_route_path list_beq
explicit-path = refl

fallback-target : parse_fallback_target (codes "a: gpt") ≡ some (codes "a", gpt)
unfolding parse_fallback_target
fallback-target = refl

some_tables-HasModes : HasModes some_tables
unfolding get_open_ai_responses_mode
some_tables-HasModes c (here q) =
    (native, ap (λ (x : Text × ConfigEntry). get_open_ai_responses_mode x.1) q)
some_tables-HasModes c (there i) = elim i [ ]

chat_path-openai : expected_type chat_path none ≡ some openai
unfolding expected_type list_beq
chat_path-openai = refl

find_routes_by_model_exact_example :
    In (codes "a", a_channel) (find_routes_by_model no_order some_tables gpt (some openai) false)
    ↔ (In (codes "a", a_channel) some_tables.provider_configs
        × (is_enabled a_channel ≡ true)
        × ((false || is_direct_routing_entry a_channel) ≡ true)
        × (has_type (some openai) a_channel ≡ true)
        × (lists_model gpt a_channel ≡ true))
find_routes_by_model_exact_example =
    find_routes_by_model_exact no_order some_tables gpt (some openai) false (codes "a", a_channel)

find_routes_by_model-IsRanked_example :
    IsRanked no_order (find_routes_by_model no_order some_tables gpt (some openai) false)
find_routes_by_model-IsRanked_example =
    find_routes_by_model-IsRanked no_order some_tables gpt (some openai) false (λ a b h. refl)
      (λ a b c h k. refl)

resolve_routes_by_model-Backed_example :
    Gives
      (All (Backed some_tables openai chat_path []))
      (resolve_routes_by_model no_order some_tables chat_path [] (codes "fast") none)
resolve_routes_by_model-Backed_example =
    resolve_routes_by_model-Backed no_order some_tables chat_path [] (codes "fast") none openai
      some_tables-HasModes chat_path-openai

resolve_routes_for_fallback_models-Backed_example :
    Gives
      (λ rs. All (Backed some_tables openai chat_path []) rs × IsDistinct (map route_key rs))
      (resolve_routes_for_fallback_models some_tables chat_path []
        (codes "fast" ∷ codes "a:gpt" ∷ [])
        none)
resolve_routes_for_fallback_models-Backed_example =
    resolve_routes_for_fallback_models-Backed some_tables chat_path []
      (codes "fast" ∷ codes "a:gpt" ∷ []) none openai some_tables-HasModes chat_path-openai

get_models-IsDistinct_example : IsDistinct (map model_key (get_models no_order some_tables))
get_models-IsDistinct_example = get_models-IsDistinct no_order some_tables

-- The tables with one channel, and a change of its identifier that the database refuses
abbrev one_channel : Configs
one_channel = record {
  tables = record {
    provider_configs = (codes "a", a_channel) ∷ [];
    alias_configs = [];
    uuid_to_channel_name = (codes "u1", codes "a") ∷ [];
  };
  loaded = true;
}

-- A switch that is stored and then throws, since the stored mode of the channel is no mode
abbrev odd_channel : ConfigEntry
odd_channel = record a_channel { extra_mode = some (Json.str (codes "x")) }

abbrev odd_rows : Rows
odd_rows = ((codes "a", odd_channel) ∷ [], [])

stored_not_shown : (toggle_provider (codes "a") true (some odd_rows) one_channel).0 ≡ not_shown
unfolding toggle_provider lookup list_beq
stored_not_shown = refl

mutation-Settles_example :
    (Settles
        (codes "a")
        true
        (some odd_rows)
        one_channel
        (create_provider (codes "a") a_channel true (some odd_rows) one_channel)
      × Settles
          (codes "a")
          true
          (some odd_rows)
          one_channel
          (update_provider (codes "a") (codes "a") a_channel true (some odd_rows) one_channel))
    × (Settles
          (codes "a")
          true
          (some odd_rows)
          one_channel
          (delete_provider (codes "a") true (some odd_rows) one_channel)
        × Settles
            (codes "a")
            true
            (some odd_rows)
            one_channel
            (toggle_provider (codes "a") true (some odd_rows) one_channel))
mutation-Settles_example =
    mutation-Settles (codes "a") true (some odd_rows) one_channel (codes "a") a_channel

-- A refused renaming leaves the identifier with the new name, under which there is no channel.
renamed_uuid :
    ((update_provider (codes "a") (codes "b") a_channel false none one_channel).1
    ).tables.uuid_to_channel_name
    ≡ (codes "u1", codes "b") ∷ []
unfolding update_provider set_provider_configs list_beq
renamed_uuid = refl
