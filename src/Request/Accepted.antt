-- ===== src/Request/Accepted.antt =====
-- Exactly the convertible requests are converted.
pub mod Convertible
pub mod Input
mod Tools
use llmrelay_service.Base.{
  ℕ, suc, Bool, true, false, not, Option, none, some, List, [], ◌∷◌, ◌++◌, if◌then◌else◌, ◌&&◌,
  ◌||◌, ◌≡◌, refl, ap, ◌∙◌, Text, codes, is_empty, list_eq, nat_eq, Json, null, str, num, bool, arr,
  obj, elems, Props, get, as_string, as_record, is_present, all, arith, Result, failed, done,
  succeeds, succeeds-bind, succeeds-map, succeeds-if, each_from, ◌>>=◌,
}
use llmrelay_service.Request.Errors.{to_text, Thrown, Runtime, is_text, indexed}
use llmrelay_service.Request.Content.{
  convert_image, convert_image_url, convert_record_part, convert_part, convert_content, is_image,
  is_plain, content_string, normalize_role, record_content,
}
use llmrelay_service.Request.Items.{
  truthy, named_call, convert_function_call, output_of, convert_function_call_output,
  convert_message_item, convert_record_item, convert_item, convert_input, input_at, finish_message,
}
use llmrelay_service.Request.Tools.{
  flat_tool, record_tool, convert_tool, convert_tools, optional_string, refuse_format,
  record_format, format_of, convert_text_format,
}
use llmrelay_service.Request.Payload.{
  asks_for_several, check_fields, chat_payload, answer, convert_request,
}
use llmrelay_service.Request.Accepted.Convertible.{fields_convertible, is_convertible}
use llmrelay_service.Request.Accepted.Input.{input_lem}
use llmrelay_service.Request.Accepted.Tools.{tools_lem, format_lem}

check_fields_lem : (body : Props) → succeeds (check_fields body) ≡ fields_convertible body
unfolding check_fields fields_convertible
check_fields_lem body = ground arith

chat_payload_lem :
    (runtime : Runtime) (body : Props)
    → succeeds (chat_payload runtime body) ≡ is_convertible runtime body
unfolding chat_payload is_convertible
chat_payload_lem runtime body =
    succeeds-bind (check_fields body) _ _ (λ _ _.
      succeeds-bind (convert_input runtime (get (codes "input") body)) _ _ (λ _ _.
        succeeds-bind (convert_tools runtime (get (codes "tools") body)) _ _
          (λ _ _. succeeds-map (convert_text_format runtime (get (codes "text") body)) _)))
    ∙ rw
        (
          check_fields_lem body,
          input_lem runtime (get (codes "input") body),
          tools_lem runtime (get (codes "tools") body),
          format_lem runtime (get (codes "text") body),
        )
        refl

answer_lem :
    (runtime : Runtime) (target_url : Option Text) (body : Props) (r : Result Thrown Props)
    → succeeds (answer runtime target_url body r) ≡ succeeds r
unfolding answer
answer_lem runtime target_url body (failed e) = refl
answer_lem runtime target_url body (done p) = refl

-- A parsed body that is an object is converted exactly if it names no earlier response, no
-- conversation and no more than one answer, its input, tools and format are convertible, and every
-- value that must be made a string can be; any other object is answered with an error.
pub convert_request-succeeds :
    (runtime : Runtime) (target_url : Option Text) (body : Props)
    → succeeds (convert_request runtime target_url (some (obj body))) ≡ is_convertible runtime body
unfolding convert_request
convert_request-succeeds runtime target_url body =
    answer_lem runtime target_url body (chat_payload runtime body) ∙ chat_payload_lem runtime body
