-- ===== src/Request/Content.antt =====
-- Roles and content of the messages.
use llmrelay_service.Base.{
  Bool, Option, none, some, List, [], ◌∷◌, ◌||◌, if◌then◌else◌, Text, codes, concat, ◌==◌, list_eq,
  nat_eq, Json, null, str, arr, obj, elems, Props, end, prop, get, as_string, map, each, Result,
  done, each_from, ◌>>=◌,
}
use mathlib.Core.Option
use llmrelay_service.Request.Errors.{to_text, Thrown, refuse, Runtime, indexed, is_text, array}

-- `normalizeChatRole`
unfoldable pub normalize_role : Option Json → Text
unfolding is_text
normalize_role role =
    if is_text (codes "developer") role
    then codes "system"
    else if is_text (codes "system") role
    then codes "system"
    else if is_text (codes "user") role
    then codes "user"
    else if is_text (codes "assistant") role
    then codes "assistant"
    else if is_text (codes "tool") role
    then codes "tool"
    else codes "user"

-- `createChatTextPart`
unfoldable pub text_part : Text → Json
text_part t = obj (prop (codes "type") (str (codes "text")) (prop (codes "text") (str t) end))

-- `convertImageUrl`
unfoldable pub convert_image_url : Option Json → Option Json
convert_image_url (some (str t)) = some (obj (prop (codes "url") (str t) end))
convert_image_url (some (obj ps)) = some (obj ps)
convert_image_url _ = none

unfoldable pub image_part : Json → Json
image_part url =
    obj (prop (codes "type") (str (codes "image_url")) (prop (codes "image_url") url end))

unfoldable pub convert_image : Text → Option Json → Result Thrown (Option Json)
unfolding image_part
convert_image param none =
    refuse (codes "Responses image content requires image_url to be a string or object.") param
convert_image param (some url) = done (some (image_part url))

-- The tests that `convertResponsesContentPartToChat` makes of the type of a part
unfoldable pub is_image : Option Json → Bool
unfolding is_text
is_image type = is_text (codes "input_image") type || is_text (codes "image_url") type

unfoldable pub is_plain : Option Json → Bool
unfolding is_text
is_plain type =
    is_text (codes "input_text") type
    || is_text (codes "output_text") type
    || is_text (codes "text") type

-- `convertResponsesContentPartToChat` for an object
unfoldable pub convert_record_part : Text → Props → Result Thrown (Option Json)
unfolding convert_image convert_image_url text_part is_text is_image is_plain
convert_record_part param ps =
    let type = get (codes "type") ps in
    if is_plain type
    then done (Option.map text_part (as_string (get (codes "text") ps)))
    else if is_text (codes "refusal") type
    then done (Option.map text_part (as_string (get (codes "refusal") ps)))
    else if is_image type
    then convert_image param (convert_image_url (get (codes "image_url") ps))
    else if is_text (codes "input_file") type
    then refuse (codes "Responses input_file content cannot be represented by Chat Completions.")
        param
    else done (Option.map text_part (as_string (get (codes "text") ps)))

-- `convertResponsesContentPartToChat`
unfoldable pub convert_part : Text → Json → Result Thrown (Option Json)
unfolding convert_record_part
convert_part param (str t) = done (some (str t))
convert_part param (obj ps) = convert_record_part param ps
convert_part param _ = done none

-- `.filter((part) => part != null)`
abbrev pub present {ℓ} : {A : Type ℓ} → List (Option A) → List A
present [] = []
present (none ∷ os) = present os
present (some a ∷ os) = a ∷ present os

-- The text of a converted part, if it is one of text
unfoldable pub text_of_part : Json → Option Text
unfolding is_text
text_of_part (str t) = some t
text_of_part (obj ps) =
    if is_text (codes "text") (get (codes "type") ps)
    then as_string (get (codes "text") ps)
    else none
text_of_part _ = none

unfoldable pub as_part : Json → Json
unfolding text_part
as_part (str t) = text_part t
as_part v = v

-- The last statements of `convertResponsesContentToChat`: one text, or the list of parts
unfoldable pub join_parts : List Json → Json
unfolding text_of_part as_part each
join_parts parts = elim (each text_of_part parts) [
  | some texts ↦ str (concat texts)
  | none ↦ array (map as_part parts)
]

module _ (runtime : Runtime) where
  -- `String(content)`
  unfoldable pub content_string : Json → Result Thrown Json
  content_string v = to_text runtime v >>= λ t. done (str t)

  -- The content of an object, which has its text or is made a string
  unfoldable pub record_content : Props → Option Text → Result Thrown Json
  unfolding content_string
  record_content ps (some t) = done (str t)
  record_content ps none = content_string (obj ps)

  -- `convertResponsesContentToChat`
  unfoldable pub convert_content : Text → Text → Option Json → Result Thrown Json
  unfolding content_string record_content join_parts each_from convert_part indexed
  convert_content role param (some (str t)) = done (str t)
  convert_content role param none = done (if role == codes "assistant" then null else str [])
  convert_content role param (some null) = done (if role == codes "assistant" then null else str [])
  convert_content role param (some (arr parts)) =
      each_from (λ index part. convert_part (indexed runtime param index) part) 0 (elems parts)
      >>= λ converted. done (join_parts (present converted))
  convert_content role param (some (obj ps)) = record_content ps (as_string (get (codes "text") ps))
  convert_content role param (some v) = content_string v
