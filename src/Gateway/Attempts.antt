-- ===== src/Gateway/Attempts.antt =====
-- `buildAttempt`: what is sent for a route, or the answer that the gateway gives itself.
use llmrelay_service.Base.{
  Bool, true, false, Option, none, some, [], ◌∷◌, ◌++◌, if◌then◌else◌, ◌&&◌, ◌||◌, Text, codes,
  is_empty, ends_with, length, take, ◌-◌, ◌==◌, list_eq, nat_eq, Json, str, arr, obj, or_else,
  Result, failed, done,
}
use mathlib.Core.Option
use llmrelay_service.Routing.Types.{
  openai, upstream_beq, Mode, native, chat_compat, disabled, RouteResult,
}
use llmrelay_service.Routing.Routes.{truthy}
use llmrelay_service.Request.Errors.{CompatError, Runtime, assign}
use llmrelay_service.Request.Payload.{convert_request}

-- The path of a URL with what can be done to it: `new URL(text)`, its `pathname`, and its text with
-- another path
pub record Urls : Type 0 where
  pub pathname : Text → Option Text
  pub with_pathname : Text → Text → Text

-- What an attempt takes from the request, the adapters of the providers and the run time.
-- `prepare` is `prepareRequestForProvider`: the body, if it gives one, and the model.
pub record Request : Type 0 where
  pub is_post : Bool
  pub lookup_pathname : Text
  pub payload : Option Text
  -- the model of the summary of the payload, and `originalRequestModel`
  pub summary_model : Option Text
  pub original_model : Text
  pub prepare : RouteResult → Text → Option Text × Text
  pub parse : Text → Option Json
  pub runtime : Runtime
  pub urls : Urls

-- What is sent, with its model and address, and whether the answer is converted back; or an answer
-- with an error that asks no upstream; or an exception.
pub data Attempt : Type 0 where
  local : CompatError → Attempt
  forward : Option Text → Text → Text → Bool → Attempt
  -- the address is no URL, and `new URL` throws
  invalid_url : Attempt

-- `isOpenAiResponsesEndpointPath`
unfoldable pub is_responses_path : Text → Bool
is_responses_path pathname = pathname == codes "/v1/responses"

-- `.replace(/\/+$/, '')`
unfoldable pub drop_slashes : Text → Text
drop_slashes [] = []
drop_slashes (c ∷ s) =
    let rest = drop_slashes s in if is_empty rest && c == b'/' then [] else c ∷ rest

-- `rewriteResponsesTargetUrlToChatCompletions`, of the path of the address
unfoldable pub rewrite_pathname : Text → Text
unfolding ends_with drop_slashes
rewrite_pathname pathname =
    if ends_with (codes "/responses") pathname
    then take (length pathname - length (codes "/responses")) pathname ++ codes "/chat/completions"
    else if ends_with (codes "/chat/completions") pathname
    then pathname
    else drop_slashes pathname ++ codes "/chat/completions"

-- `none` where `new URL` throws
unfoldable pub rewrite_target_url : Urls → Text → Option Text
unfolding rewrite_pathname
rewrite_target_url urls url =
    Option.map (λ pathname. urls.with_pathname url (rewrite_pathname pathname)) (urls.pathname url)

-- The three constants at the start of `buildAttempt`
unfoldable pub is_responses_request : Request → RouteResult → Bool
unfolding is_responses_path ends_with
is_responses_request request route =
    request.is_post
    && upstream_beq route.type openai
    && (is_responses_path request.lookup_pathname
        || ends_with (codes "/responses") (or_else (request.urls.pathname route.target_url) []))

unfoldable pub responses_mode_of : RouteResult → Mode
responses_mode_of route =
    if upstream_beq route.type openai then or_else route.responses_mode native else native

abbrev mode_beq : Mode → Mode → Bool
mode_beq native native = true
mode_beq chat_compat chat_compat = true
mode_beq disabled disabled = true
mode_beq _ _ = false

unfoldable pub adapts : Request → RouteResult → Bool
unfolding is_responses_request responses_mode_of
adapts request route =
    is_responses_request request route && mode_beq (responses_mode_of route) chat_compat

unfoldable pub is_disabled : Request → RouteResult → Bool
unfolding is_responses_request responses_mode_of
is_disabled request route =
    is_responses_request request route && mode_beq (responses_mode_of route) disabled

unfoldable pub upstream_url : Request → RouteResult → Option Text
unfolding adapts rewrite_target_url
upstream_url request route =
    if adapts request route
    then rewrite_target_url request.urls route.target_url
    else some route.target_url

-- The error of a provider whose Responses endpoint is off
unfoldable pub disabled_error : CompatError
disabled_error = record {
  status = 400;
  message = codes "Responses endpoint is disabled for this provider.";
  code = some (codes "responses_disabled");
  param = none;
}

-- `parsed.model = model` and the new text, `none` where that throws
unfoldable pub set_model : Runtime → Text → Option Json → Option Text
unfolding assign
set_model runtime model (some (obj ps)) =
    some (runtime.stringify (obj (assign (codes "model") (str model) ps)))
set_model runtime model (some (arr vs)) = some (runtime.stringify (arr vs))
set_model runtime model _ = none

unfoldable pub override_with : Text → Text → Text → Text → Bool → Option Text → Attempt
override_with resolved body model url adapt none = forward (some body) model url adapt
override_with resolved body model url adapt (some text) = forward (some text) resolved url adapt

module _ (request : Request) (route : RouteResult) (url : Text) where
  -- The route's model put into the body
  unfoldable pub override_model : Text → Text → Option Text → Attempt
  unfolding adapts set_model override_with
  override_model body model none = forward (some body) model url (adapts request route)
  override_model body model (some resolved) =
      if model == resolved
      then forward (some body) model url (adapts request route)
      else override_with resolved body model url (adapts request route)
          (set_model request.runtime resolved (request.parse body))

  -- What follows the conversion
  unfoldable pub after_conversion : Result CompatError (Text × Text) → Attempt
  unfolding override_model
  after_conversion (failed error) = local error
  after_conversion (done (body, model)) = override_model body model (truthy route.resolved_model)

  -- What follows `prepareRequestForProvider`
  unfoldable pub after_preparation : Option Text × Text → Attempt
  unfolding after_conversion convert_request adapts override_model
  after_preparation (none, _) =
      forward none (or_else (truthy request.summary_model) request.original_model) url
        (adapts request route)
  after_preparation (some body, model) =
      if adapts request route
      then after_conversion (convert_request request.runtime (some url) (request.parse body))
      else override_model body model (truthy route.resolved_model)

  unfoldable pub forward_payload : Option Text → Attempt
  unfolding after_preparation adapts
  forward_payload none = forward none request.original_model url (adapts request route)
  forward_payload (some raw) = after_preparation (request.prepare route raw)

-- The attempt at an address, if it is one
unfoldable pub attempt_at : Request → RouteResult → Option Text → Attempt
unfolding is_disabled disabled_error forward_payload
attempt_at request route none = invalid_url
attempt_at request route (some url) =
    if is_disabled request route
    then local disabled_error
    else forward_payload request route url (if request.is_post then request.payload else none)

-- `buildAttempt`
unfoldable pub build_attempt : Request → RouteResult → Attempt
unfolding attempt_at upstream_url
build_attempt request route = attempt_at request route (upstream_url request route)
