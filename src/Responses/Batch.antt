-- ===== src/Responses/Batch.antt =====
-- The conversion of a whole Chat Completions answer: `convertChatCompletionToResponsePayload` and
-- what it calls. `stringify` is `JSON.stringify`, `uuid` what `crypto.randomUUID()` returns, `now`
-- is `Math.floor(Date.now() / 1000)`.
use llmrelay_service.Base.{
  ℕ, suc, Option, none, some, List, [], ◌∷◌, ◌++◌, map, if◌then◌else◌, Text, codes, concat,
  is_empty, length, ◌==◌, list_eq, nat_eq, ℤ, of_ℕ, Json, null, str, obj, arr, Props, end, get,
  elems, record_or_empty, array_or_empty, as_string, as_number, or_else,
}
use llmrelay_service.Think.{message, reasoning, Segment, split_think_tagged_text}
use llmrelay_service.Responses.Items.{
  completed, output_text, reasoning_text, refusal, Item, message_item, reasoning_item,
  function_call, Response, status_from_finish_reason, convert_usage, to_response_id,
  generated_item_id, collect_output_text, non_empty,
}

-- `part.type === 'text'` with the text, or the empty text
abbrev text_part : Props → Text
text_part part = elim (as_string (get (codes "type") part)) [
  | none ↦ []
  | some type ↦
      if type == codes "text" then or_else (as_string (get (codes "text") part)) [] else []
]

abbrev part_content : Json → Text
part_content (str t) = t
part_content (obj part) = text_part part
part_content _ = []

-- `extractChatMessageTextContent`
unfoldable pub extract_text_content : Option Json → Text
extract_text_content (some (str t)) = t
extract_text_content (some (arr parts)) = concat (map part_content (elems parts))
extract_text_content _ = []

-- `normalizeFunctionArguments`
abbrev pub normalize_arguments : (Json → Text) → Option Json → Text
normalize_arguments stringify (some (str t)) = t
normalize_arguments stringify none = []
normalize_arguments stringify (some null) = []
normalize_arguments stringify (some v) = stringify v

-- The first element of a list
abbrev first_record : List Json → Props
first_record (obj ps ∷ _) = ps
first_record _ = end

module _ (number_text : ℤ → Text) (stringify : Json → Text) where
  -- The item of a segment, in `convertChatMessageToResponseItems`
  unfoldable pub segment_item : Text → List Json → ℕ → Segment → Item
  segment_item response_id annotations index segment = elim segment.kind [
    | reasoning ↦
        reasoning_item (generated_item_id (codes "rs") response_id (number_text (of_ℕ index)))
          (reasoning_text segment.text ∷ [])
    | message ↦
        message_item (generated_item_id (codes "msg") response_id (number_text (of_ℕ index)))
          completed (output_text segment.text annotations ∷ [])
  ]

  unfoldable pub segment_items : Text → List Json → ℕ → List Segment → List Item
  unfolding segment_item
  segment_items response_id annotations index [] = []
  segment_items response_id annotations index (segment ∷ segments) =
      segment_item response_id annotations index segment
      ∷ segment_items response_id annotations (suc index) segments

  -- `convertChatMessageToResponseItems`
  unfoldable pub convert_message : Props → Text → List Item
  unfolding segment_items split_think_tagged_text extract_text_content
  convert_message msg response_id =
      let declined = or_else (as_string (get (codes "refusal") msg)) [] in
      if is_empty declined
      then segment_items response_id (array_or_empty (get (codes "annotations") msg)) 0
          (split_think_tagged_text (extract_text_content (get (codes "content") msg)))
      else message_item (generated_item_id (codes "msg") response_id (number_text (of_ℕ 0)))
          completed (refusal declined ∷ [])
        ∷ []

  -- A tool call with a name becomes one item, any other value none.
  tool_call_item : Text → ℕ → Json → List Item
  tool_call_item response_id index (obj tool_call) =
      let fn = record_or_empty (get (codes "function") tool_call) in
      let name = or_else (as_string (get (codes "name") fn)) [] in
      let item =
        function_call (generated_item_id (codes "fc") response_id (number_text (of_ℕ index)))
          (or_else (as_string (get (codes "id") tool_call))
            (generated_item_id (codes "call") response_id (number_text (of_ℕ index))))
          name (normalize_arguments stringify (get (codes "arguments") fn)) in
      if is_empty name then [] else item ∷ []
  tool_call_item response_id index _ = []

  -- `convertChatToolCallsToResponseItems`, from the index `startIndex + offset` on
  unfoldable pub convert_tool_calls : Text → ℕ → List Json → List Item
  unfolding tool_call_item
  convert_tool_calls response_id index [] = []
  convert_tool_calls response_id index (tool_call ∷ tool_calls) =
      tool_call_item response_id index tool_call
      ++ convert_tool_calls response_id (suc index) tool_calls

  -- `convertChatCompletionToResponsePayload`; `none` where it throws.
  unfoldable pub convert_completion : Text → ℤ → Json → Option Response
  unfolding convert_message convert_tool_calls to_response_id status_from_finish_reason
      convert_usage
  convert_completion uuid now (obj chat) =
      let id = to_response_id uuid (get (codes "id") chat) in
      let choice = first_record (array_or_empty (get (codes "choices") chat)) in
      let msg = record_or_empty (get (codes "message") choice) in
      let (status, details) = status_from_finish_reason (get (codes "finish_reason") choice) in
      let items = convert_message msg id in
      let output =
        items
        ++ convert_tool_calls id (length items) (array_or_empty (get (codes "tool_calls") msg)) in
      some (record {
        id = id;
        created_at = or_else (as_number (get (codes "created") chat)) now;
        status = status;
        incomplete_details = details;
        model = or_else (as_string (get (codes "model") chat)) [];
        output = output;
        usage = convert_usage (get (codes "usage") chat);
        output_text = non_empty (collect_output_text output);
      })
  convert_completion uuid now _ = none
