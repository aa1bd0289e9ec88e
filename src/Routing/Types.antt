-- ===== src/Routing/Types.antt =====
-- src/config.ts, lines 6 to 81 and 236 to 279: the types of the routing configuration.
use llmrelay_service.Base.{Bool, true, false, Option, List, Text, codes, ℤ, Json}

-- `UpstreamType`
pub data Upstream : Type 0 where
  anthropic : Upstream
  openai : Upstream

abbrev pub upstream_beq : Upstream → Upstream → Bool
upstream_beq anthropic anthropic = true
upstream_beq openai openai = true
upstream_beq _ _ = false

-- The text of a type
abbrev pub upstream_name : Upstream → Text
upstream_name anthropic = codes "anthropic"
upstream_name openai = codes "openai"

-- `RouteAuthHeader`
pub data Header : Type 0 where
  x_api_key : Header
  authorization : Header

-- `OpenAiResponsesMode`
pub data Mode : Type 0 where
  native : Mode
  chat_compat : Mode
  disabled : Mode

-- `RoutingVisibility`
pub data Visibility : Type 0 where
  direct : Visibility
  explicit_only : Visibility

-- `RouteAuthConfig`
pub record Auth : Type 0 where
  pub header : Header
  pub value : Text

-- The fields of `ModelConfig` that are declared
pub record Model : Type 0 where
  pub model : Text
  pub upstream_model : Option Text
  pub context : Option ℤ

-- `VirtualRouteTarget`
pub record Target : Type 0 where
  pub provider : Text
  pub model : Text

-- The fields of `ConfigEntry` that routing reads; `extra_mode` is `extraFields?.responsesMode`.
pub record ConfigEntry : Type 0 where
  pub type : Option Upstream
  pub target_base_url : Text
  pub system_prompt : Option Text
  pub auth : Option Auth
  pub models : Option (List Model)
  pub priority : Option ℤ
  pub enabled : Option Bool
  pub routing_visibility : Option Visibility
  pub responses_mode : Option Mode
  pub extra_mode : Option Json
  pub provider_uuid : Option Text
  pub claude_code_compat : Option Bool

-- `RouteResult`
pub record RouteResult : Type 0 where
  pub channel_name : Text
  pub type : Upstream
  pub target_url : Text
  pub system_prompt : Option Text
  pub auth : Option Auth
  pub claude_code_compat : Bool
  pub responses_mode : Option Mode
  pub resolved_model : Option Text
  pub upstream_request_model : Option Text
  pub virtual_model : Option Text
  pub return_real_model : Option Bool

-- `AliasTarget`
pub record AliasTarget : Type 0 where
  pub provider : Text
  pub model : Text
  pub targets : Option (List Target)
  pub visible : Option Bool
  pub return_real_model : Option Bool

-- A row of `listModelAliases`
pub record AliasRow : Type 0 where
  pub alias : Text
  pub enabled : Bool
  pub target : AliasTarget

-- `ModelInfo`
pub record ModelInfo : Type 0 where
  pub id : Text
  pub channel_name : Text
  pub type : Upstream
  pub context : Option ℤ

-- The variables of the module
pub record Tables : Type 0 where
  pub provider_configs : List (Text × ConfigEntry)
  pub alias_configs : List (Text × AliasTarget)
  pub uuid_to_channel_name : List (Text × Text)
