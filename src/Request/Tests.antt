-- ===== src/Request/Tests.antt =====
-- Sample requests, tests of the conversion on them, and the properties at them.
use llmrelay_service.Base.{
  false, none, some, List, [], ◌∷◌, ◌++◌, ◌≡◌, refl, Text, codes, list_beq, list_eq, nat_eq, pos,
  Json, num, str, arr, obj, Elems, nil, cons, elems, Props, end, prop, get, as_string, or_else,
  failed, done, succeeds, contains,
}
use llmrelay_service.Request.Errors.{CompatError, refused, create_error, Runtime}
use llmrelay_service.Request.Items.{message, convert_input, input_at}
use llmrelay_service.Request.System.{merge_leading}
use llmrelay_service.Request.MiniMax.{sanitize_payload}
use llmrelay_service.Request.Payload.{chat_payload, convert_request}
use llmrelay_service.Request.Accepted.Convertible.{is_convertible, item_convertible}
use llmrelay_service.Request.Accepted.{convert_request-succeeds}
use llmrelay_service.Request.Refusals.Refused.{IsAbout}
use llmrelay_service.Request.Refusals.{First, convert_input-First}
use llmrelay_service.Request.Merging.{leading, following, unite, merge_leading_lem}
use llmrelay_service.Request.Fields.{Gives, convert_request-model}
use llmrelay_service.Request.Tooling.Sanitized.{accepted_fields, IsRatio}
use llmrelay_service.Request.Tooling.{IsTooled, chat_payload-IsTooled, sanitize_payload-fields}

-- A run time whose texts are marks
abbrev sample_runtime : Runtime
sample_runtime = record {
  number_text = λ n. codes "1";
  to_string = λ v. done (codes "text");
  stringify = λ v. codes "{}";
  hostname = λ url. none;
}

abbrev field : Text → Text → Props → Props
field name value ps = prop name (str value) ps

abbrev user_item : Json
user_item = obj (field (codes "role") (codes "user") (field (codes "content") (codes "hi") end))

abbrev reference_item : Json
reference_item = obj (field (codes "type") (codes "item_reference") end)

abbrev sample_tool : Json
sample_tool = obj (field (codes "type") (codes "function") (field (codes "name") (codes "f") end))

abbrev sample_body : Props
sample_body = field (codes "model") (codes "gpt") (
    field (codes "instructions") (codes "be brief") (
      prop (codes "input") (arr (cons user_item nil))
        (prop (codes "tools") (arr (cons sample_tool nil)) end)))

abbrev refused_items : Elems
refused_items = cons user_item (cons reference_item nil)

abbrev reference_error : CompatError
reference_error = record {
  status = 400;
  message =
      codes
        "Responses item_reference requires server-side state and is not supported by Chat Completions compatibility.";
  code = none;
  param = some (codes "input[1]");
}

abbrev system_messages : List Props
system_messages =
    message (codes "system") (str (codes "a"))
    ∷ message (codes "system") (str (codes "b"))
    ∷ message (codes "user") (str (codes "c"))
    ∷ []

-- The two system messages become one.
merged :
    merge_leading sample_runtime system_messages
    ≡ message (codes "system") (str (codes "a\n\nb"))
      ∷ message (codes "user") (str (codes "c"))
      ∷ []
unfolding merge_leading list_beq get
merged = refl

converted :
    convert_request sample_runtime none (some (obj sample_body)) ≡ done (codes "{}", codes "gpt")
unfolding convert_request list_beq get
converted = refl

merge_leading_lem_example :
    merge_leading sample_runtime system_messages
    ≡ unite sample_runtime (leading system_messages) ++ following system_messages
merge_leading_lem_example = merge_leading_lem sample_runtime system_messages

convert_request-succeeds_example :
    succeeds (convert_request sample_runtime none (some (obj sample_body)))
    ≡ is_convertible sample_runtime sample_body
convert_request-succeeds_example = convert_request-succeeds sample_runtime none sample_body

convert_request-model_example :
    Gives
      (λ r. r.1 ≡ or_else (as_string (get (codes "model") sample_body)) (codes "unknown"))
      (convert_request sample_runtime none (some (obj sample_body)))
convert_request-model_example = convert_request-model sample_runtime none sample_body

chat_payload-IsTooled_example : Gives IsTooled (chat_payload sample_runtime sample_body)
chat_payload-IsTooled_example = chat_payload-IsTooled sample_runtime sample_body

abbrev sample_chat : Props
sample_chat =
    field (codes "model") (codes "minimax-1")
      (prop (codes "temperature") (num (pos 1)) (prop (codes "seed") (num (pos 3)) end))

sanitize_payload-fields_example :
    ((k : Text) → contains k accepted_fields ≡ false → get k (sanitize_payload sample_chat) ≡ none)
    × IsRatio (get (codes "temperature") (sanitize_payload sample_chat))
sanitize_payload-fields_example = sanitize_payload-fields sample_chat

refused_reference :
    convert_input sample_runtime (some (arr refused_items)) ≡ failed (refused reference_error)
unfolding convert_input list_beq get create_error
refused_reference = refl

convert_input-First_example :
    First
      (item_convertible sample_runtime)
      (λ i. IsAbout (input_at sample_runtime i) reference_error)
      0
      (elems refused_items)
convert_input-First_example =
    convert_input-First sample_runtime refused_items reference_error refused_reference
