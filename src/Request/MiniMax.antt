-- ===== src/Request/MiniMax.antt =====
-- What is left of a request for a MiniMax upstream. The texts are lower-cased over ASCII: no other
-- character has a lower case that is part of the names looked for.
use llmrelay_service.Base.{
  ◌+◌, ◌*◌, ◌/◌, Bool, true, false, not, Option, none, some, List, [], ◌∷◌, if◌then◌else◌, ◌&&◌,
  ◌||◌, leb, Text, codes, starts_with, index_of, is_empty, map, ◌==◌, list_eq, nat_eq, ltb, pos,
  one, Json, num, str, arr, obj, elems, Props, end, prop, get, as_string, as_record,
}
use mathlib.Core.Option
use llmrelay_service.Request.Errors.{Runtime, is_text, array, objects, from_list, assign_some}
use llmrelay_service.Request.Items.{or_other, as_array}
use llmrelay_service.Request.Tools.{function_object, non_empty_list, flatten, as_bool}

unfoldable pub to_lower : Text → Text
to_lower = map (λ c. if leb b'A' c && leb c b'Z' then c + 32 else c)

-- `text.includes('minimax')`
unfoldable pub mentions_minimax : Text → Bool
unfolding index_of to_lower
mentions_minimax t = elim (index_of (codes "minimax") (to_lower t)) [ none ↦ false | some i ↦ true ]

-- `/^(codex-)?minimax-/i.test(model)`
unfoldable pub is_minimax_model : Text → Bool
unfolding starts_with to_lower
is_minimax_model model =
    starts_with (codes "minimax-") (to_lower model)
    || starts_with (codes "codex-minimax-") (to_lower model)

unfoldable pub is_minimax_url : Runtime → Option Text → Bool
unfolding mentions_minimax
is_minimax_url runtime none = false
is_minimax_url runtime (some url) = not (is_empty url) && elim (runtime.hostname url) [
  | some host ↦ mentions_minimax host
  | none ↦ mentions_minimax url
]

abbrev is_minimax_name : Option Text → Bool
unfolding is_minimax_model
is_minimax_name none = false
is_minimax_name (some model) = is_minimax_model model

-- `isMiniMaxChatCompatTarget`
unfoldable pub is_minimax_target : Runtime → Props → Option Text → Bool
unfolding is_minimax_name is_minimax_url
is_minimax_target runtime body target_url =
    is_minimax_name (as_string (get (codes "model") body)) || is_minimax_url runtime target_url

-- `const { [name]: _, ...rest } = record`
unfoldable pub without : Text → Props → Props
without name end = end
without name (prop other v ps) =
    let rest = without name ps in if other == name then rest else prop other v rest

-- The body of the loop of `sanitizeMiniMaxTools`
unfoldable pub sanitize_function : Option Props → List Props
unfolding without
sanitize_function none = []
sanitize_function (some fn) = function_object (without (codes "strict") fn) ∷ []

unfoldable pub sanitize_tool : Json → List Props
unfolding is_text sanitize_function
sanitize_tool (obj tool) =
    if is_text (codes "function") (get (codes "type") tool)
    then sanitize_function (as_record (get (codes "function") tool))
    else []
sanitize_tool _ = []

-- `sanitizeMiniMaxTools`
unfoldable pub sanitize_tools : Option Json → Option (List Props)
unfolding sanitize_tool
sanitize_tools (some (arr tools)) = non_empty_list (flatten (map sanitize_tool (elems tools)))
sanitize_tools _ = none

-- `numberInRange(value, 0, 1)`
unfoldable pub number_in_range : Option Json → Option Json
unfolding one
number_in_range (some (num (pos n))) = if leb n 0 || ltb one n then none else some (num (pos n))
number_in_range _ = none

-- `positiveInteger`
unfoldable pub positive_integer : Option Json → Option Json
unfolding one
positive_integer (some (num (pos n))) = if ltb n one then none else some (num (pos (n / one * one)))
positive_integer _ = none

abbrev pub as_text : Option Json → Option Json
as_text o = Option.map str (as_string o)

-- `sanitizeMiniMaxChatPayload`
unfoldable pub sanitize_payload : Props → Props
unfolding assign_some positive_integer number_in_range sanitize_tools from_list
sanitize_payload chat =
    assign_some (codes "tools")
      (Option.map (λ tools. array (objects tools)) (sanitize_tools (get (codes "tools") chat)))
      (assign_some (codes "top_p") (number_in_range (get (codes "top_p") chat)) (
        assign_some (codes "temperature") (number_in_range (get (codes "temperature") chat)) (
          assign_some (codes "max_completion_tokens")
            (or_other (positive_integer (get (codes "max_completion_tokens") chat))
              (positive_integer (get (codes "max_tokens") chat)))
            (assign_some (codes "stream") (as_bool (get (codes "stream") chat)) (
              assign_some (codes "messages") (as_array (get (codes "messages") chat))
                (assign_some (codes "model") (as_text (get (codes "model") chat)) end))))))
