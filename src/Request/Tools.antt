-- ===== src/Request/Tools.antt =====
-- Tools, the choice among them, and the format of the answer.
use llmrelay_service.Base.{
  ℕ, Bool, Option, none, some, List, [], ◌∷◌, ◌++◌, if◌then◌else◌, Text, codes, Json, null, bool,
  str, arr, obj, elems, Props, end, prop, get, as_string, as_record, or_else, Result, done,
  each_from, ◌>>=◌,
}
use mathlib.Core.Option
use llmrelay_service.Request.Errors.{to_text, Thrown, refuse, Runtime, indexed, is_text}
use llmrelay_service.Request.Items.{truthy, or_other}

-- `...(value !== undefined ? { name: value } : {})` before further properties
abbrev pub optional : Text → Option Json → Props → Props
optional name none ps = ps
optional name (some v) ps = prop name v ps

-- `typeof value === 'boolean'` with the value
abbrev pub as_bool : Option Json → Option Json
as_bool (some (bool b)) = some (bool b)
as_bool _ = none

-- `{ type: 'function', function: fn }`
abbrev pub function_object : Props → Props
function_object fn =
    prop (codes "type") (str (codes "function")) (prop (codes "function") (obj fn) end)

module _ (runtime : Runtime) (index : ℕ) where
  tool_at : Text
  unfolding indexed
  tool_at = indexed runtime (codes "tools") index

  -- The function of a tool that has its fields itself
  unfoldable pub flat_function : Text → Props → Props
  flat_function name tool = prop (codes "name") (str name) (
      optional (codes "description") (Option.map str (as_string (get (codes "description") tool))) (
        optional (codes "parameters") (Option.map obj (as_record (get (codes "parameters") tool)))
          (optional (codes "strict") (as_bool (get (codes "strict") tool)) end)))

  unfoldable pub flat_tool : Props → Option Text → Result Thrown (List Props)
  unfolding flat_function tool_at
  flat_tool tool none = refuse (codes "Function tool requires a name.") (tool_at ++ codes ".name")
  flat_tool tool (some name) = done (function_object (flat_function name tool) ∷ [])

  unfoldable pub record_tool : Props → Option Props → Result Thrown (List Props)
  unfolding flat_tool
  record_tool tool (some fn) = done (function_object fn ∷ [])
  record_tool tool none = flat_tool tool (truthy (as_string (get (codes "name") tool)))

  -- The body of the loop of `convertResponsesToolsToChatTools`
  unfoldable pub convert_tool : Json → Result Thrown (List Props)
  unfolding record_tool is_text tool_at
  convert_tool (obj tool) =
      if is_text (codes "function") (get (codes "type") tool)
      then record_tool tool (as_record (get (codes "function") tool))
      else done []
  convert_tool v = refuse (codes "Each tool must be an object.") tool_at

abbrev pub flatten {ℓ} : {A : Type ℓ} → List (List A) → List A
flatten [] = []
flatten (xs ∷ xss) = xs ++ flatten xss

-- `list.length > 0 ? list : undefined`
abbrev pub non_empty_list {ℓ} : {A : Type ℓ} → List A → Option (List A)
non_empty_list [] = none
non_empty_list (x ∷ xs) = some (x ∷ xs)

-- `convertResponsesToolsToChatTools`
unfoldable pub convert_tools : Runtime → Option Json → Result Thrown (Option (List Props))
unfolding convert_tool each_from
convert_tools runtime none = done none
convert_tools runtime (some null) = done none
convert_tools runtime (some (arr tools)) =
    each_from (convert_tool runtime) 0 (elems tools) >>= λ converted.
    done (non_empty_list (flatten converted))
convert_tools runtime (some v) = refuse (codes "tools must be an array.") (codes "tools")

unfoldable pub named_choice : Option Text → Option Json
named_choice none = none
named_choice (some name) = some (obj (function_object (prop (codes "name") (str name) end)))

-- `convertResponsesToolChoiceToChat`, where chat tools are there
unfoldable pub choose_tool : Option Json → Option Json
unfolding is_text named_choice
choose_tool (some (str t)) = some (str t)
choose_tool (some (obj choice)) =
    let nested = as_record (get (codes "function") choice) in
    let name =
      or_other (as_string (get (codes "name") choice))
        (as_string (get (codes "name") (or_else nested end))) in
    if is_text (codes "function") (get (codes "type") choice)
    then named_choice (truthy name)
    else none
choose_tool _ = none

-- `convertResponsesToolChoiceToChat`
unfoldable pub convert_tool_choice : Option Json → Bool → Option Json
unfolding choose_tool
convert_tool_choice choice has_tools = if has_tools then choose_tool choice else none

-- The schema of a format, in `convertResponsesTextFormatToChatResponseFormat`
unfoldable pub schema_format : Props → Json
schema_format source =
    let name = or_else (as_string (get (codes "name") source)) (codes "Output") in
    let schema =
      or_else (as_record (get (codes "schema") source))
        (prop (codes "type") (str (codes "object")) end) in
    obj (
      prop (codes "type") (str (codes "json_schema")) (
        prop (codes "json_schema")
          (obj (
            prop (codes "name") (str name) (
              optional (codes "strict") (as_bool (get (codes "strict") source))
                (prop (codes "schema") (obj schema) end))))
          end))

module _ (runtime : Runtime) where
  -- `String(value)` of a value that may be missing
  unfoldable pub optional_string : Option Json → Result Thrown Text
  optional_string none = done (codes "undefined")
  optional_string (some v) = to_text runtime v

  unfoldable pub refuse_format : Text → Result Thrown (Option Json)
  refuse_format type =
      refuse (codes "Unsupported Responses text.format type \"" ++ type ++ codes "\".")
        (codes "text.format.type")

  unfoldable pub record_format : Props → Result Thrown (Option Json)
  unfolding is_text schema_format optional_string refuse_format
  record_format format =
      let type = get (codes "type") format in
      if is_text (codes "text") type
      then done none
      else if is_text (codes "json_object") type
      then done (some (obj (prop (codes "type") (str (codes "json_object")) end)))
      else if is_text (codes "json_schema") type
      then done
          (some (schema_format (or_else (as_record (get (codes "json_schema") format)) format)))
      else (optional_string type >>= refuse_format)

  unfoldable pub format_of : Option Json → Result Thrown (Option Json)
  unfolding record_format
  format_of (some (obj format)) = record_format format
  format_of _ = done none

  -- `convertResponsesTextFormatToChatResponseFormat`
  unfoldable pub convert_text_format : Option Json → Result Thrown (Option Json)
  unfolding format_of
  convert_text_format (some (obj text)) = format_of (get (codes "format") text)
  convert_text_format _ = done none
