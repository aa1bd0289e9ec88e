-- ===== src/Request/Accepted/Tools.antt =====
-- The tools and the format
use llmrelay_service.Base.{
  ℕ, false, Option, none, some, [], ◌∷◌, ◌||◌, ◌≡◌, refl, ◌∙◌, Text, codes, list_eq, nat_eq, Json,
  null, str, num, bool, arr, obj, elems, Props, get, as_string, as_record, arith, Result, failed,
  done, succeeds, succeeds-map, each_from, ◌>>=◌,
}
use llmrelay_service.Request.Errors.{Thrown, Runtime}
use llmrelay_service.Request.Items.{truthy}
use llmrelay_service.Request.Tools.{
  flat_tool, record_tool, convert_tool, convert_tools, optional_string, refuse_format,
  record_format, format_of, convert_text_format,
}
use llmrelay_service.Request.Accepted.Convertible.{
  filled, is_record, tool_convertible, tools_convertible, type_convertible, format_convertible,
}
use llmrelay_service.Request.Accepted.Input.{each_from-succeeds}

module _ (runtime : Runtime) where
  flat_lem :
      (n : ℕ) (tool : Props) (name : Option Json)
      → succeeds (flat_tool runtime n tool (truthy (as_string name))) ≡ filled name
  unfolding flat_tool filled
  flat_lem n tool none = refl
  flat_lem n tool (some null) = refl
  flat_lem n tool (some (num _)) = refl
  flat_lem n tool (some (bool _)) = refl
  flat_lem n tool (some (arr _)) = refl
  flat_lem n tool (some (obj _)) = refl
  flat_lem n tool (some (str [])) = refl
  flat_lem n tool (some (str (c ∷ t))) = refl

  record_tool_lem :
      (n : ℕ) (tool : Props) (fn : Option Json)
      → succeeds (record_tool runtime n tool (as_record fn))
        ≡ (is_record fn || filled (get (codes "name") tool))
  unfolding record_tool is_record
  record_tool_lem n tool none = flat_lem n tool (get (codes "name") tool)
  record_tool_lem n tool (some null) = flat_lem n tool (get (codes "name") tool)
  record_tool_lem n tool (some (num _)) = flat_lem n tool (get (codes "name") tool)
  record_tool_lem n tool (some (bool _)) = flat_lem n tool (get (codes "name") tool)
  record_tool_lem n tool (some (arr _)) = flat_lem n tool (get (codes "name") tool)
  record_tool_lem n tool (some (str _)) = flat_lem n tool (get (codes "name") tool)
  record_tool_lem n tool (some (obj _)) = refl

  tool_lem : (n : ℕ) (tool : Json) → succeeds (convert_tool runtime n tool) ≡ tool_convertible tool
  unfolding convert_tool tool_convertible
  tool_lem n null = refl
  tool_lem n (num _) = refl
  tool_lem n (bool _) = refl
  tool_lem n (str _) = refl
  tool_lem n (arr _) = refl
  tool_lem n (obj tool) = ground (arith, record_tool_lem n tool (get (codes "function") tool))

  pub tools_lem :
      (tools : Option Json) → succeeds (convert_tools runtime tools) ≡ tools_convertible tools
  unfolding convert_tools tools_convertible
  tools_lem none = refl
  tools_lem (some null) = refl
  tools_lem (some (str t)) = refl
  tools_lem (some (bool b)) = refl
  tools_lem (some (num n)) = refl
  tools_lem (some (obj ps)) = refl
  tools_lem (some (arr tools)) =
      succeeds-map (each_from (convert_tool runtime) 0 (elems tools)) _
      ∙ each_from-succeeds _ tool_convertible tool_lem 0 (elems tools)

  refuse_format_lem : (r : Result Thrown Text) → succeeds (r >>= refuse_format runtime) ≡ false
  unfolding refuse_format
  refuse_format_lem (failed e) = refl
  refuse_format_lem (done t) = refl

  type_lem : (format : Option Json) → succeeds (format_of runtime format) ≡ type_convertible format
  unfolding format_of type_convertible record_format
  type_lem none = refl
  type_lem (some null) = refl
  type_lem (some (str t)) = refl
  type_lem (some (bool b)) = refl
  type_lem (some (num n)) = refl
  type_lem (some (arr vs)) = refl
  type_lem (some (obj format)) =
      ground (arith, refuse_format_lem (optional_string runtime (get (codes "type") format)))

  pub format_lem :
      (text : Option Json) → succeeds (convert_text_format runtime text) ≡ format_convertible text
  unfolding convert_text_format format_convertible
  format_lem none = refl
  format_lem (some null) = refl
  format_lem (some (str t)) = refl
  format_lem (some (bool b)) = refl
  format_lem (some (num n)) = refl
  format_lem (some (arr vs)) = refl
  format_lem (some (obj text)) = type_lem (get (codes "format") text)
