-- ===== src/Responses/Items.antt =====
-- The values that both conversions build: output items, usage, status, identifiers.
use llmrelay_service.Base.{
  ℕ, Bool, Option, none, some, List, [], ◌∷◌, ◌++◌, if◌then◌else◌, ◌&&◌, ◌||◌, leb, Text, codes,
  concat, starts_with, drop, is_empty, ◌==◌, list_eq, nat_eq, ℤ, pos, ◌+ℤ◌, Json, str, Props, get,
  record_or_empty, as_number, as_record, or_else, map,
}

-- `status` of the response object
pub data Status : Type 0 where
  in_progress completed incomplete : Status

-- `incomplete_details.reason`
pub data Reason : Type 0 where
  max_output_tokens content_filter : Reason

-- A content part with its text; `output_text` has its annotations too.
pub data Part : Type 0 where
  output_text : Text → List Json → Part
  reasoning_text refusal : Text → Part

pub data Item : Type 0 where
  -- id, status, content
  message_item : Text → Status → List Part → Item
  -- id, content
  reasoning_item : Text → List Part → Item
  -- id, call id, name, arguments
  function_call : Text → Text → Text → Text → Item

pub record Usage : Type 0 where
  pub input_tokens : ℤ
  pub output_tokens : ℤ
  pub total_tokens : ℤ
  pub cached_tokens : ℤ
  pub reasoning_tokens : ℤ

-- The fields of a response object that vary.
pub record Response : Type 0 where
  pub id : Text
  pub created_at : ℤ
  pub status : Status
  pub incomplete_details : Option Reason
  pub model : Text
  pub output : List Item
  pub usage : Option Usage
  pub output_text : Option Text

-- `statusFromFinishReason`
unfoldable pub status_from_finish_reason : Option Json → Status × Option Reason
status_from_finish_reason (some (str r)) =
    if r == codes "length"
    then (incomplete, some max_output_tokens)
    else if r == codes "content_filter"
    then (incomplete, some content_filter)
    else (completed, none)
status_from_finish_reason _ = (completed, none)

-- The first of two names that holds a number, or 0.
abbrev number_of : Text → Text → Props → ℤ
number_of first second usage =
    or_else (as_number (get first usage)) (or_else (as_number (get second usage)) (pos 0))

-- The first of two names that holds an object, or the empty one.
abbrev details_of : Text → Text → Props → Props
details_of first second usage =
    or_else (as_record (get first usage)) (record_or_empty (get second usage))

-- `convertChatUsageToResponsesUsage`
unfoldable pub convert_usage : Option Json → Option Usage
convert_usage usage = elim (as_record usage) [
  | none ↦ none
  | some u ↦
      let input = number_of (codes "input_tokens") (codes "prompt_tokens") u in
      let output = number_of (codes "output_tokens") (codes "completion_tokens") u in
      let prompt = details_of (codes "input_tokens_details") (codes "prompt_tokens_details") u in
      let completion =
        details_of (codes "output_tokens_details") (codes "completion_tokens_details") u in
      some (record {
        input_tokens = input;
        output_tokens = output;
        total_tokens = or_else (as_number (get (codes "total_tokens") u)) (input +ℤ output);
        cached_tokens = or_else (as_number (get (codes "cached_tokens") prompt)) (pos 0);
        reasoning_tokens = or_else (as_number (get (codes "reasoning_tokens") completion)) (pos 0);
      })
]

-- `toResponseId`; `uuid` is what `crypto.randomUUID()` returns.
unfoldable pub to_response_id : Text → Option Json → Text
to_response_id uuid (some (str (c ∷ id))) =
    if starts_with (codes "resp_") (c ∷ id) then c ∷ id else codes "resp_" ++ c ∷ id
to_response_id uuid _ = if starts_with (codes "resp_") uuid then uuid else codes "resp_" ++ uuid

-- `[A-Za-z0-9_-]`
unfoldable pub is_id_char : ℕ → Bool
is_id_char c =
    (leb b'A' c && leb c b'Z')
    || (leb b'a' c && leb c b'z')
    || (leb b'0' c && leb c b'9')
    || c == b'_'
    || c == b'-'

-- `generatedItemId`; `number` is `String(index)`.
unfoldable pub generated_item_id : Text → Text → Text → Text
unfolding is_id_char
generated_item_id prefix response_id number =
    let bare =
      if starts_with (codes "resp_") response_id then drop 5 response_id else response_id in
    prefix ++ codes "_" ++ map (λ c. if is_id_char c then c else b'_') bare ++ codes "_" ++ number

-- `collectOutputText`
abbrev part_text : Part → Text
part_text (output_text t annotations) = t
part_text _ = []

abbrev item_text : Item → Text
item_text (message_item _ _ parts) = concat (map part_text parts)
item_text (reasoning_item _ parts) = concat (map part_text parts)
item_text (function_call _ _ _ _) = []

unfoldable pub collect_output_text : List Item → Text
collect_output_text items = concat (map item_text items)

-- `if (outputText) response.output_text = outputText`
abbrev pub non_empty : Text → Option Text
non_empty t = if is_empty t then none else some t
