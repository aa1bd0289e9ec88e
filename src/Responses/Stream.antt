-- ===== src/Responses/Stream.antt =====
-- The stream state machine: `StreamState` and the functions that change it. `controller.enqueue`
-- appends to the field `queue`, and mutation of an item in `state.items` is a write at its index.
-- Parameters: `number_text` is `String(n)` of a number, `uuid` what `crypto.randomUUID()` returns.
use llmrelay_service.Base.{
  ℕ, Bool, true, false, Option, none, some, List, [], ◌∷◌, ◌++◌, if◌then◌else◌, Text, codes, length,
  get_elem?, set, is_empty, ℤ, int_eq, of_ℕ, Json, null, Props, end, get, as_string, as_number,
  or_else,
}
use llmrelay_service.Think.{Kind, message, reasoning, Segment, Parser, initial, same_kind}
use llmrelay_service.Responses.Items.{
  Status, in_progress, completed, incomplete, Reason, Part, output_text, reasoning_text, Item,
  message_item, reasoning_item, Response, status_from_finish_reason, convert_usage, to_response_id,
  generated_item_id,
}

-- `StreamToolCallState`
pub record ToolCall : Type 0 where
  pub id : Text
  pub name : Text
  pub arguments : Text

-- `StreamOutputItemState`
pub record StreamItem : Type 0 where
  pub kind : Kind
  pub output_index : ℕ
  pub id : Text
  pub text : Text
  pub finalized : Bool

-- The events that are enqueued, each with the fields that vary.
pub data Event : Type 0 where
  response_created : Response → Event
  -- `response.output_item.added`: output index, item
  item_added : ℕ → Item → Event
  -- `response.content_part.added`: item id, output index, part
  part_added : Text → ℕ → Part → Event
  -- `response.output_text.delta` and `response.reasoning_text.delta`: item id, output index, delta
  text_delta : Kind → Text → ℕ → Text → Event
  -- `response.output_text.done` and `response.reasoning_text.done`: item id, output index, text
  text_done : Kind → Text → ℕ → Text → Event
  -- `response.content_part.done`: item id, output index, part
  part_done : Text → ℕ → Part → Event
  -- `response.output_item.done`: output index, item
  item_done : ℕ → Item → Event
  response_completed : Response → Event
  -- the end mark of the stream
  done : Event
  -- a block that is no JSON, passed on as it is
  raw : Text → Event

pub record Stream : Type 0 where
  pub response_id : Text
  pub model : Text
  pub created_at : ℤ
  pub created : Bool
  pub finalized : Bool
  pub finish_reason : Option Json
  pub usage : Option Json
  pub tool_calls : List (ℤ × ToolCall)
  pub items : List StreamItem
  pub active : Option ℕ
  pub parser : Parser
  pub queue : List Event

-- `createEmptyStreamState`; `now` is `Math.floor(Date.now() / 1000)`.
unfoldable pub create_empty : ℤ → Stream
create_empty now = record {
  response_id = [];
  model = [];
  created_at = now;
  created = false;
  finalized = false;
  finish_reason = some null;
  usage = some null;
  tool_calls = [];
  items = [];
  active = none;
  parser = initial;
  queue = [];
}

abbrev pub enqueue : Stream → Event → Stream
enqueue s e = record s { queue = s.queue ++ e ∷ [] }

-- `responseContentPartForStreamItem`
abbrev pub content_part : StreamItem → Part
content_part item = elim item.kind [
  | reasoning ↦ reasoning_text item.text
  | message ↦ output_text item.text []
]

-- `responseOutputItemForStream`
abbrev pub output_item : StreamItem → Item
output_item item = elim item.kind [
  | reasoning ↦ reasoning_item item.id (content_part item ∷ [])
  | message ↦ message_item item.id completed (content_part item ∷ [])
]

-- `responseOutputItemAddedForStream`
abbrev pub output_item_added : StreamItem → Item
output_item_added item = elim item.kind [
  | reasoning ↦ reasoning_item item.id []
  | message ↦ message_item item.id in_progress []
]

-- `streamResponseSkeleton` in the states `completed` and `incomplete`
abbrev ended_skeleton : Stream → Status → List Item → Option Reason → Response
ended_skeleton s status output details = record {
  id = s.response_id;
  created_at = s.created_at;
  status = status;
  incomplete_details = details;
  model = s.model;
  output = output;
  usage = convert_usage s.usage;
  output_text = none;
}

-- `streamResponseSkeleton`; the response id is set wherever it is called.
unfoldable pub skeleton : Stream → Status → List Item → Response
unfolding status_from_finish_reason
skeleton s in_progress output = record {
  id = s.response_id;
  created_at = s.created_at;
  status = in_progress;
  incomplete_details = none;
  model = s.model;
  output = output;
  usage = none;
  output_text = none;
}
skeleton s completed output = ended_skeleton s completed output none
skeleton s incomplete output =
    ended_skeleton s incomplete output (status_from_finish_reason s.finish_reason).1

abbrev pub get_active : Stream → Option (ℕ × StreamItem)
get_active s = elim s.active [
  | none ↦ none
  | some i ↦ elim (get_elem? s.items i) [ none ↦ none | some item ↦ some (i, item) ]
]

-- The three events that close an item.
abbrev pub close_events : StreamItem → List Event
close_events item =
    text_done item.kind item.id item.output_index item.text
    ∷ part_done item.id item.output_index (content_part item)
    ∷ item_done item.output_index (output_item item)
    ∷ []

-- `finalizeActiveStreamItem`
unfoldable pub finalize_active : Stream → Stream
finalize_active s = elim (get_active s) [
  | none ↦ s
  | some (i, item) ↦ if item.finalized then s else record s {
    queue = s.queue ++ close_events item;
    items = set s.items i (record item { finalized = true });
    active = none;
  }
]

abbrev pub prefix_of : Kind → Text
prefix_of reasoning = codes "rs"
prefix_of message = codes "msg"

module _ (number_text : ℤ → Text) (uuid : Text) where
  -- `ensureStreamCreated`: the identity of the response, then the first event.
  unfoldable pub identify : Stream → Props → Stream
  identify s chunk = record s {
    response_id =
        if is_empty s.response_id
        then to_response_id uuid (get (codes "id") chunk)
        else s.response_id;
    model =
        if is_empty s.model
        then or_else (as_string (get (codes "model") chunk)) s.model
        else s.model;
    created_at = or_else (as_number (get (codes "created") chunk)) s.created_at;
  }

  unfoldable pub announce : Stream → Stream
  announce s =
      if s.created
      then s
      else enqueue (record s { created = true })
          (response_created (skeleton (record s { created = true }) in_progress []))

  unfoldable pub ensure_created : Stream → Props → Stream
  unfolding identify announce
  ensure_created s chunk = announce (identify s chunk)

  -- The part of `ensureStreamItemStarted` that opens a new item.
  unfoldable pub open_item : Stream → Kind → Stream
  open_item s kind =
      let index = length s.items in
      let item : StreamItem = record {
        kind = kind;
        output_index = index;
        id = generated_item_id (prefix_of kind) s.response_id (number_text (of_ℕ index));
        text = [];
        finalized = false;
      } in
      record s {
        items = s.items ++ item ∷ [];
        active = some index;
        queue =
            s.queue
            ++ item_added index (output_item_added item)
              ∷ part_added item.id index (content_part item)
              ∷ [];
      }

  -- `ensureStreamItemStarted` behind `ensureStreamCreated`, with the index of the returned item
  unfoldable pub start_item : Stream → Kind → Stream × ℕ
  unfolding open_item finalize_active
  start_item s kind = elim (get_active s) [
    | none ↦ (open_item s kind, length s.items)
    | some (i, item) ↦
        if item.finalized
        then (open_item s kind, length s.items)
        else if same_kind item.kind kind
        then (s, i)
        else (open_item (finalize_active s) kind, length (finalize_active s).items)
  ]

  -- `ensureStreamItemStarted`
  unfoldable pub ensure_item_started : Stream → Kind → Stream × ℕ
  unfolding start_item ensure_created
  ensure_item_started s kind = start_item (ensure_created s end) kind

  -- `item.text += text`, and the delta event
  unfoldable pub extend_item : Stream × ℕ → Kind → Text → Stream
  extend_item (s, i) kind text = elim (get_elem? s.items i) [
    | none ↦ s
    | some item ↦ record s {
      items = set s.items i (record item { text = item.text ++ text });
      queue = s.queue ++ text_delta kind item.id item.output_index text ∷ [];
    }
  ]

  -- `appendStreamTextDelta`
  unfoldable pub append_text_delta : Stream → Segment → Stream
  unfolding extend_item ensure_item_started
  append_text_delta s segment =
      if is_empty segment.text
      then s
      else extend_item (ensure_item_started s segment.kind) segment.kind segment.text

  unfoldable pub append_text_deltas : Stream → List Segment → Stream
  unfolding append_text_delta
  append_text_deltas s [] = s
  append_text_deltas s (segment ∷ segments) =
      append_text_deltas (append_text_delta s segment) segments
