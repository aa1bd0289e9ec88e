-- ===== src/Request/Payload.antt =====
-- The whole conversion.
use llmrelay_service.Base.{
  Bool, true, false, not, Option, none, some, List, [], ◌∷◌, if◌then◌else◌, Text, codes, is_empty,
  ◌==◌, list_eq, nat_eq, int_eq, of_ℕ, Json, null, num, str, obj, Props, end, get, as_string,
  as_record, or_else, is_present, Result, failed, done, fail_if, ◌>>=◌, ◌>>◌,
}
use mathlib.Core.Option
use llmrelay_service.Request.Errors.{
  CompatError, Thrown, refused, raised, create_error, Runtime, array, objects, from_list, assign,
  assign_some,
}
use llmrelay_service.Request.Items.{message, convert_input, or_other}
use llmrelay_service.Request.System.{merge_leading}
use llmrelay_service.Request.Tools.{convert_tools, convert_tool_choice, convert_text_format}
use llmrelay_service.Request.MiniMax.{is_minimax_target, sanitize_payload}

-- `REQUEST_DIRECT_FIELDS`
abbrev pub direct_fields : List Text
direct_fields =
    codes "model"
    ∷ codes "temperature"
    ∷ codes "top_p"
    ∷ codes "stop"
    ∷ codes "presence_penalty"
    ∷ codes "frequency_penalty"
    ∷ codes "logit_bias"
    ∷ codes "user"
    ∷ codes "seed"
    ∷ codes "stream"
    ∷ codes "stream_options"
    ∷ codes "store"
    ∷ codes "metadata"
    ∷ codes "service_tier"
    ∷ codes "parallel_tool_calls"
    ∷ codes "logprobs"
    ∷ codes "top_logprobs"
    ∷ []

-- The loop over the fields that are taken over
unfoldable pub copy_fields : List Text → Props → Props → Props
unfolding assign_some
copy_fields [] body payload = payload
copy_fields (name ∷ names) body payload =
    copy_fields names body (assign_some name (get name body) payload)

-- `body.n != null && body.n !== 1`
unfoldable pub asks_for_several : Option Json → Bool
asks_for_several none = false
asks_for_several (some null) = false
asks_for_several (some (num n)) = not (n == of_ℕ 1)
asks_for_several (some v) = true

-- The three tests at the start
unfoldable pub check_fields : Props → Result {0, 0} Thrown Unit
unfolding create_error asks_for_several
check_fields body =
    let reject = λ (name : Text) (message : Text). refused (create_error message (some name)) in
    fail_if (is_present (get (codes "previous_response_id") body)) (
      reject (codes "previous_response_id") (
        codes
          "previous_response_id is not supported by Chat Completions compatibility; pass prior turns explicitly in input."))
    >> fail_if (is_present (get (codes "conversation") body)) (
        reject (codes "conversation") (
          codes
            "conversation is not supported by Chat Completions compatibility; pass prior turns explicitly in input."))
    >> fail_if (asks_for_several (get (codes "n") body)) (
        reject (codes "n") (
          codes
            "Responses API does not support n > 1; Chat Completions compatibility only supports one generation."))

-- The instructions as a first message
unfoldable pub instruct : Option Text → List Props → List Props
instruct none ms = ms
instruct (some t) ms = if is_empty t then ms else message (codes "system") (str t) ∷ ms

abbrev pub has_some {ℓ} : {A : Type ℓ} → Option A → Bool
has_some none = false
has_some (some a) = true

-- The payload, from the messages, the tools and the format that the conversions gave
unfoldable pub build_payload : Props → List Props → Option (List Props) → Option Json → Props
unfolding copy_fields assign assign_some convert_tool_choice from_list
build_payload body messages tools format =
    let direct = copy_fields direct_fields body end in
    let spoken = assign (codes "messages") (array (objects messages)) direct in
    let bounded = assign_some (codes "max_tokens") (get (codes "max_output_tokens") body) spoken in
    let completed =
      assign_some (codes "max_completion_tokens") (get (codes "max_completion_tokens") body)
        bounded in
    let equipped =
      assign_some (codes "tools") (Option.map (λ ts. array (objects ts)) tools) completed in
    let chosen =
      assign_some (codes "tool_choice")
        (convert_tool_choice (get (codes "tool_choice") body) (has_some tools)) equipped in
    let formatted =
      assign_some (codes "response_format") (or_other format (get (codes "response_format") body))
        chosen in
    let reasoning = or_else (as_record (get (codes "reasoning") body)) end in
    assign_some (codes "reasoning_effort")
      (Option.map str (as_string (get (codes "effort") reasoning))) formatted

-- The `catch` around the conversion
unfoldable pub caught : Thrown → CompatError
unfolding create_error
caught (refused e) = e
caught (raised text) = create_error text none

-- `chatPayload`, or what is thrown on the way to it
unfoldable pub chat_payload : Runtime → Props → Result Thrown Props
unfolding check_fields convert_input instruct merge_leading convert_tools convert_text_format
    build_payload
chat_payload runtime body = do
  check_fields body
  messages ← convert_input runtime (get (codes "input") body)
  tools ← convert_tools runtime (get (codes "tools") body)
  format ← convert_text_format runtime (get (codes "text") body)
  done (
      build_payload body
        (merge_leading runtime (instruct (as_string (get (codes "instructions") body)) messages))
        tools format)

module _ (runtime : Runtime) (target_url : Option Text) where
  -- `finalPayload`
  unfoldable pub final_payload : Props → Props → Props
  unfolding is_minimax_target sanitize_payload
  final_payload body chat =
      if is_minimax_target runtime body target_url then sanitize_payload chat else chat

  unfoldable pub answer : Props → Result Thrown Props → Result CompatError (Text × Text)
  unfolding caught final_payload
  answer body (failed thrown) = failed (caught thrown)
  answer body (done chat) =
      let payload = final_payload body chat in
      done (
        runtime.stringify (obj payload),
        or_else (as_string (get (codes "model") payload)) (codes "unknown"),
      )

  -- `convertResponsesRequestToChatCompletions` of the parsed body, `none` where `JSON.parse` throws:
  -- the new body and the model asked for
  unfoldable pub convert_request : Option Json → Result CompatError (Text × Text)
  unfolding answer chat_payload create_error
  convert_request none = failed (create_error (codes "Request body must be valid JSON.") none)
  convert_request (some (obj body)) = answer body (chat_payload runtime body)
  convert_request (some v) =
      failed (create_error (codes "Request body must be a JSON object.") none)
