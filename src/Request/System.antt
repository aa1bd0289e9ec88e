-- ===== src/Request/System.antt =====
-- The leading system messages as one.
use llmrelay_service.Base.{
  Bool, not, Option, none, some, List, [], ◌∷◌, if◌then◌else◌, ◌&&◌, Text, codes, is_empty, join,
  filter, map, Json, str, arr, obj, elems, Props, get, as_string,
}
use llmrelay_service.Responses.Batch.{normalize_arguments}
use llmrelay_service.Request.Errors.{Runtime, is_text}
use llmrelay_service.Request.Items.{message}

-- `message.role === 'system'`
unfoldable pub is_system : Props → Bool
unfolding is_text
is_system m = is_text (codes "system") (get (codes "role") m)

module _ (runtime : Runtime) where
  system_record : Json → Option Text → Text
  system_record part (some t) = t
  system_record part none = normalize_arguments runtime.stringify (some part)

  -- The text of a part, in `contentToSystemText`
  system_part : Json → Text
  unfolding system_record
  system_part (str t) = t
  system_part (obj ps) = system_record (obj ps) (as_string (get (codes "text") ps))
  system_part v = normalize_arguments runtime.stringify (some v)

  -- `contentToSystemText`
  unfoldable pub content_to_system_text : Option Json → Text
  unfolding system_part filter join
  content_to_system_text (some (str t)) = t
  content_to_system_text (some (arr parts)) =
      join (codes "\n\n") (filter (λ t. not (is_empty t)) (map system_part (elems parts)))
  content_to_system_text v = normalize_arguments runtime.stringify v

  -- The loop over the leading system messages: their texts that are not empty, and what follows
  unfoldable pub collect_system : List Props → List Text × List Props
  unfolding is_system content_to_system_text
  collect_system [] = ([], [])
  collect_system (m ∷ ms) =
      let text = content_to_system_text (get (codes "content") m) in
      let (texts, rest) = collect_system ms in
      if is_system m then (if is_empty text then texts else text ∷ texts, rest) else ([], m ∷ ms)

  -- The one message that stands for the leading ones
  unfoldable pub merge_all : List Text × List Props → List Props
  unfolding join
  merge_all (texts, rest) = message (codes "system") (str (join (codes "\n\n") texts)) ∷ rest

  -- `mergeLeadingSystemMessages`
  unfoldable pub merge_leading : List Props → List Props
  unfolding is_system collect_system merge_all
  merge_leading (a ∷ b ∷ ms) =
      if is_system a && is_system b then merge_all (collect_system (a ∷ b ∷ ms)) else a ∷ b ∷ ms
  merge_leading ms = ms
