-- ===== src/Responses/Chunks.antt =====
-- What a chunk of the upstream's stream and its end do to the state: `appendToolCallDelta`,
-- `processChatCompletionChunk` and `finalizeStream`.
use llmrelay_service.Base.{
  ℕ, suc, true, none, some, List, [], ◌∷◌, ◌++◌, map, if◌then◌else◌, Text, codes, length, is_empty,
  lookup, insert, ℤ, int_eq, of_ℕ, Json, Props, end, get, record_or_empty, array_or_empty,
  as_string, as_number, as_record, is_present, or_else, obj,
}
use llmrelay_service.Think.{consume_chunk, flush}
use llmrelay_service.Responses.Items.{
  Item, function_call, status_from_finish_reason, generated_item_id, collect_output_text, non_empty,
}
use llmrelay_service.Responses.Stream.{
  ToolCall, Event, item_added, item_done, response_completed, done, Stream, output_item, skeleton,
  finalize_active, ensure_created, append_text_deltas, create_empty,
}

abbrev no_call : ToolCall
no_call = record { id = []; name = []; arguments = [] }

-- The body of the loop of `appendToolCallDelta`
append_tool_call : List (ℤ × ToolCall) → Json → List (ℤ × ToolCall)
unfolding lookup insert
append_tool_call calls (obj item) =
    let index = or_else (as_number (get (codes "index") item)) (of_ℕ (length calls)) in
    let existing = or_else (lookup index calls) no_call in
    let fn = record_or_empty (get (codes "function") item) in
    insert index
      (record existing {
        id = or_else (as_string (get (codes "id") item)) existing.id;
        name = existing.name ++ or_else (as_string (get (codes "name") fn)) [];
        arguments = existing.arguments ++ or_else (as_string (get (codes "arguments") fn)) [];
      })
      calls
append_tool_call calls _ = calls

-- `appendToolCallDelta`
unfoldable pub append_tool_calls : List (ℤ × ToolCall) → List Json → List (ℤ × ToolCall)
unfolding append_tool_call
append_tool_calls calls [] = calls
append_tool_calls calls (item ∷ items) = append_tool_calls (append_tool_call calls item) items

-- `choice.finish_reason`, and the tool calls of `choice.delta`
abbrev pub note_choice : Stream → Props → Props → Stream
note_choice s choice delta = record s {
  finish_reason =
      if is_present (get (codes "finish_reason") choice)
      then get (codes "finish_reason") choice
      else s.finish_reason;
  tool_calls = append_tool_calls s.tool_calls (array_or_empty (get (codes "tool_calls") delta));
}

-- `chunk.usage`, where it is an object
abbrev pub note_usage : Stream → Props → Stream
note_usage s chunk = elim (as_record (get (codes "usage") chunk)) [
  | none ↦ s
  | some u ↦ record s { usage = some (obj u) }
]

-- `functionCallItemsForStream`, from the output index `at` on
unfoldable pub function_call_items : (ℤ → Text) → Text → List (ℤ × ToolCall) → ℕ → List Item
function_call_items number_text response_id [] at = []
function_call_items number_text response_id ((index, call) ∷ calls) at =
    function_call (generated_item_id (codes "fc") response_id (number_text (of_ℕ at)))
      (if is_empty call.id
        then generated_item_id (codes "call") response_id (number_text index)
        else call.id)
      call.name call.arguments
    ∷ function_call_items number_text response_id calls (suc at)

-- The two events of each function call.
unfoldable pub call_events : ℕ → List Item → List Event
call_events at [] = []
call_events at (item ∷ items) = item_added at item ∷ item_done at item ∷ call_events (suc at) items

module _ (number_text : ℤ → Text) (uuid : Text) where
  -- A content delta goes through the tag parser, and what it lets through into the items.
  unfoldable pub append_content : Stream → Text → Stream
  append_content s content =
      let (parser, segments) = consume_chunk s.parser content in
      append_text_deltas number_text uuid (record s { parser = parser }) segments

  -- The body of the loop over `chunk.choices`
  unfoldable pub process_choice : Stream → Json → Stream
  unfolding append_content append_tool_calls
  process_choice s (obj choice) =
      let delta = record_or_empty (get (codes "delta") choice) in
      let content = or_else (as_string (get (codes "content") delta)) [] in
      let noted = note_choice s choice delta in
      if is_empty content then noted else append_content noted content
  process_choice s _ = s

  unfoldable pub process_choices : Stream → List Json → Stream
  unfolding process_choice
  process_choices s [] = s
  process_choices s (choice ∷ choices) = process_choices (process_choice s choice) choices

  -- `processChatCompletionChunk`
  unfoldable pub process_chunk : Stream → Props → Stream
  unfolding process_choices ensure_created
  process_chunk s chunk =
      process_choices (note_usage (ensure_created number_text uuid s chunk) chunk)
        (array_or_empty (get (codes "choices") chunk))

  -- `finalizeStream` from the end of the text on
  unfoldable pub complete : Stream → Stream
  unfolding function_call_items call_events skeleton
  complete s =
      let texts = map output_item s.items in
      let calls = function_call_items number_text s.response_id s.tool_calls (length texts) in
      let output = texts ++ calls in
      let status = (status_from_finish_reason s.finish_reason).0 in
      let response = record (skeleton s status output) {
        output_text = non_empty (collect_output_text output);
      } in
      record s {
        queue =
            s.queue
            ++ (call_events (length texts) calls ++ (response_completed response ∷ done ∷ []));
      }

  -- The part of `finalizeStream` that empties the tag parser and closes the last item
  unfoldable pub close_text : Stream → Stream
  unfolding finalize_active
  close_text s =
      let (parser, trailing) = flush s.parser in
      finalize_active (append_text_deltas number_text uuid (record s { parser = parser }) trailing)

  -- `finalizeStream`
  unfoldable pub finalize_stream : Stream → Stream
  unfolding close_text complete
  finalize_stream s =
      if s.finalized
      then s
      else complete
          (close_text (ensure_created number_text uuid (record s { finalized = true }) end))

  unfoldable pub process_chunks : Stream → List Props → Stream
  unfolding process_chunk
  process_chunks s [] = s
  process_chunks s (chunk ∷ chunks) = process_chunks (process_chunk s chunk) chunks

  -- A stream of chunks that starts at the time `now`, and its end.
  unfoldable pub stream_chunks : ℤ → List Props → Stream
  unfolding process_chunks finalize_stream create_empty
  stream_chunks now chunks = finalize_stream (process_chunks (create_empty now) chunks)
