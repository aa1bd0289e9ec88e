-- ===== src/Request/Items.antt =====
-- The items of `input` as chat messages.
use llmrelay_service.Base.{
  ℕ, Option, none, some, List, [], ◌∷◌, ◌++◌, if◌then◌else◌, Text, codes, ◌==◌, list_eq, nat_eq,
  of_ℕ, Json, null, str, arr, obj, elems, Props, end, prop, get, as_string, or_else, Result, done,
  each_from, ◌>>=◌,
}
use mathlib.Core.Option
use llmrelay_service.Responses.Batch.{normalize_arguments}
pub use llmrelay_service.Routing.Routes.{truthy}
use llmrelay_service.Request.Errors.{
  to_text, Thrown, refuse, Runtime, indexed, is_text, array, from_list, assign, assign_some,
}
use llmrelay_service.Request.Content.{normalize_role, convert_content, present}

-- A message of a role with its content
abbrev pub message : Text → Json → Props
message role content = prop (codes "role") (str role) (prop (codes "content") content end)

-- `a ?? b`
abbrev pub or_other {ℓ} : {A : Type ℓ} → Option A → Option A → Option A
or_other none b = b
or_other (some a) b = some a

-- `input[${index}]` and a field of it
abbrev pub input_at : Runtime → ℕ → Text
unfolding indexed
input_at runtime index = indexed runtime (codes "input") index

-- `Array.isArray(value)` with the value
abbrev pub as_array : Option Json → Option Json
as_array (some (arr vs)) = some (arr vs)
as_array _ = none

module _ (runtime : Runtime) (index : ℕ) where
  -- The message of a call of a function, in `convertFunctionCallItemToChatMessage`
  unfoldable pub call_message : Text → Text → Props → Props
  unfolding from_list assign
  call_message call_id name item =
      let fn = prop (codes "name") (str name) (
        prop (codes "arguments")
          (str (normalize_arguments runtime.stringify (get (codes "arguments") item))) end) in
      assign (codes "tool_calls")
        (array (
          obj (
            prop (codes "id") (str call_id)
              (prop (codes "type") (str (codes "function")) (prop (codes "function") (obj fn) end)))
          ∷ []))
        (message (codes "assistant") null)

  unfoldable pub named_call : Text → Props → Option Text → Result Thrown Props
  unfolding call_message
  named_call call_id item none =
      refuse (codes "Responses function_call item requires a name.")
        (input_at runtime index ++ codes ".name")
  named_call call_id item (some name) = done (call_message call_id name item)

  -- `convertFunctionCallItemToChatMessage`
  unfoldable pub convert_function_call : Props → Result Thrown Props
  unfolding named_call
  convert_function_call item =
      let call_id =
        or_else
          (or_other (as_string (get (codes "call_id") item)) (as_string (get (codes "id") item)))
          (codes "call_" ++ runtime.number_text (of_ℕ index)) in
      named_call call_id item (truthy (as_string (get (codes "name") item)))

  unfoldable pub output_of : Props → Option Text → Result Thrown Props
  output_of item none =
      refuse (codes "Responses function_call_output item requires call_id.")
        (input_at runtime index ++ codes ".call_id")
  output_of item (some call_id) = done (
      prop (codes "role") (str (codes "tool")) (
        prop (codes "tool_call_id") (str call_id) (
          prop (codes "content")
            (str (normalize_arguments runtime.stringify (get (codes "output") item))) end)))

  -- `convertFunctionCallOutputItemToChatMessage`
  unfoldable pub convert_function_call_output : Props → Result Thrown Props
  unfolding output_of
  convert_function_call_output item =
      output_of item (truthy (as_string (get (codes "call_id") item)))

  -- The end of `convertResponsesInputItemToChatMessage`: what a message of a role takes over
  unfoldable pub finish_message : Props → Text → Json → Props
  unfolding assign assign_some
  finish_message item role content =
      let call_id = truthy (
        or_other (as_string (get (codes "tool_call_id") item))
          (as_string (get (codes "call_id") item))) in
      let tool = if role == codes "tool" then Option.map str call_id else none in
      let calls =
        if role == codes "assistant" then as_array (get (codes "tool_calls") item) else none in
      assign_some (codes "tool_calls") calls
        (assign_some (codes "tool_call_id") tool (message role content))

  unfoldable pub convert_message_item : Props → Text → Result Thrown Props
  unfolding finish_message convert_content
  convert_message_item item role =
      convert_content runtime role (input_at runtime index ++ codes ".content")
        (get (codes "content") item)
      >>= λ content. done (finish_message item role content)

  -- `convertResponsesInputItemToChatMessage` for an object
  unfoldable pub convert_record_item : Props → Result Thrown (Option Props)
  unfolding is_text convert_function_call convert_function_call_output convert_message_item
      normalize_role
  convert_record_item item =
      let type = get (codes "type") item in
      if is_text (codes "reasoning") type
      then done none
      else if is_text (codes "function_call") type
      then (convert_function_call item >>= λ m. done (some m))
      else if is_text (codes "function_call_output") type
      then (convert_function_call_output item >>= λ m. done (some m))
      else if is_text (codes "item_reference") type
      then refuse
          (codes
            "Responses item_reference requires server-side state and is not supported by Chat Completions compatibility.")
          (input_at runtime index)
      else (convert_message_item item (normalize_role (get (codes "role") item)) >>= λ m.
          done (some m))

  -- `convertResponsesInputItemToChatMessage`
  unfoldable pub convert_item : Json → Result Thrown (Option Props)
  unfolding convert_record_item
  convert_item (str t) = done (some (message (codes "user") (str t)))
  convert_item (obj item) = convert_record_item item
  convert_item v = to_text runtime v >>= λ t. done (some (message (codes "user") (str t)))

-- `convertResponsesInputToChatMessages`
unfoldable pub convert_input : Runtime → Option Json → Result Thrown (List Props)
unfolding convert_item each_from
convert_input runtime (some (str t)) = done (message (codes "user") (str t) ∷ [])
convert_input runtime (some (arr items)) =
    each_from (convert_item runtime) 0 (elems items) >>= λ messages. done (present messages)
convert_input runtime _ =
    refuse
      (codes
        "Responses request requires input to be a string or an array for Chat Completions compatibility.")
      (codes "input")
