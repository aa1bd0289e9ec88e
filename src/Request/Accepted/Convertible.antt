-- ===== src/Request/Accepted/Convertible.antt =====
-- Which requests are convertible, stated without the conversion
use llmrelay_service.Base.{
  Bool, true, false, not, Option, none, some, if◌then◌else◌, ◌&&◌, ◌||◌, codes, is_empty, list_eq,
  nat_eq, Json, null, str, num, bool, arr, obj, elems, Props, get, is_present, all, succeeds,
}
use llmrelay_service.Request.Errors.{to_text, Runtime, is_text}
use llmrelay_service.Request.Content.{is_image, is_plain}
use llmrelay_service.Request.Payload.{asks_for_several}

-- A text field that is there and not empty
unfoldable pub filled : Option Json → Bool
filled (some (str t)) = not (is_empty t)
filled _ = false

unfoldable pub is_record : Option Json → Bool
is_record (some (obj ps)) = true
is_record _ = false

unfoldable pub is_string : Option Json → Bool
is_string (some (str t)) = true
is_string _ = false

-- A part of a content: no file, and an image has a link.
unfoldable pub part_convertible : Json → Bool
unfolding is_text is_image is_plain is_string is_record
part_convertible (obj ps) =
    let type = get (codes "type") ps in
    is_plain type
    || is_text (codes "refusal") type
    || (if is_image type
        then is_string (get (codes "image_url") ps) || is_record (get (codes "image_url") ps)
        else not (is_text (codes "input_file") type))
part_convertible _ = true

module _ (runtime : Runtime) where
  -- A content: parts that are, or what has a text.
  unfoldable pub content_convertible : Option Json → Bool
  unfolding part_convertible is_string
  content_convertible (some (arr parts)) = all part_convertible (elems parts)
  content_convertible (some (obj ps)) =
      is_string (get (codes "text") ps) || succeeds (to_text runtime (obj ps))
  content_convertible (some (num n)) = succeeds (to_text runtime (num n))
  content_convertible (some (bool b)) = succeeds (to_text runtime (bool b))
  content_convertible _ = true

  -- An item of the input: calls are named, their outputs name a call, nothing refers to a server.
  unfoldable pub item_convertible : Json → Bool
  unfolding content_convertible is_text filled
  item_convertible (str t) = true
  item_convertible (obj item) =
      let type = get (codes "type") item in
      if is_text (codes "reasoning") type
      then true
      else if is_text (codes "function_call") type
      then filled (get (codes "name") item)
      else if is_text (codes "function_call_output") type
      then filled (get (codes "call_id") item)
      else not (is_text (codes "item_reference") type)
        && content_convertible (get (codes "content") item)
  item_convertible v = succeeds (to_text runtime v)

  unfoldable pub input_convertible : Option Json → Bool
  unfolding item_convertible
  input_convertible (some (str t)) = true
  input_convertible (some (arr items)) = all item_convertible (elems items)
  input_convertible _ = false

-- A tool: one that is no function, has its function, or has a name.
unfoldable pub tool_convertible : Json → Bool
unfolding is_text is_record filled
tool_convertible (obj tool) =
    not (is_text (codes "function") (get (codes "type") tool))
    || is_record (get (codes "function") tool)
    || filled (get (codes "name") tool)
tool_convertible _ = false

unfoldable pub tools_convertible : Option Json → Bool
unfolding tool_convertible
tools_convertible none = true
tools_convertible (some null) = true
tools_convertible (some (arr tools)) = all tool_convertible (elems tools)
tools_convertible _ = false

unfoldable pub type_convertible : Option Json → Bool
unfolding is_text
type_convertible (some (obj format)) =
    let type = get (codes "type") format in
    is_text (codes "text") type
    || is_text (codes "json_object") type
    || is_text (codes "json_schema") type
type_convertible _ = true

unfoldable pub format_convertible : Option Json → Bool
unfolding type_convertible
format_convertible (some (obj text)) = type_convertible (get (codes "format") text)
format_convertible _ = true

-- No earlier response, no conversation, and one answer.
unfoldable pub fields_convertible : Props → Bool
fields_convertible body =
    not (is_present (get (codes "previous_response_id") body))
    && not (is_present (get (codes "conversation") body))
    && not (asks_for_several (get (codes "n") body))

unfoldable pub is_convertible : Runtime → Props → Bool
unfolding fields_convertible input_convertible tools_convertible format_convertible
is_convertible runtime body =
    fields_convertible body
    && (input_convertible runtime (get (codes "input") body)
        && (tools_convertible (get (codes "tools") body)
            && format_convertible (get (codes "text") body)))
