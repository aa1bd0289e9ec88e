-- ===== src/Request/Tooling.antt =====
-- The tools of the payload and the choice among them, and the fields that MiniMax accepts.
pub mod Sanitized
use llmrelay_service.Base.{
  ℕ, suc, ◌≤◌, ◌<◌, Bool, true, false, Option, none, some, List, [], ◌∷◌, ◌++◌, if◌then◌else◌, ◌||◌,
  ◌≡◌, refl, ap, ◌∙◌, ◌⊎◌, inl, inr, Text, codes, ◌==◌, list_eq, list_beq, nat_eq, arith,
  Bool-cases, contains, leb, ltb, pos, negsuc, one, Json, null, bool, num, str, arr, obj, Props,
  end, get, as_string, as_record, elems, done, each_from, All,
}
use mathlib.Core.Option
use llmrelay_service.Request.Errors.{Runtime, assign_some, array, objects, is_text}
use llmrelay_service.Request.Items.{truthy, convert_input, or_other, as_array}
use llmrelay_service.Request.Tools.{
  function_object, flat_tool, record_tool, convert_tool, flatten, non_empty_list, convert_tools,
  convert_tool_choice, convert_text_format, as_bool,
}
use llmrelay_service.Request.MiniMax.{
  sanitize_payload, number_in_range, positive_integer, as_text, sanitize_tools,
}
use llmrelay_service.Request.Payload.{
  direct_fields, build_payload, chat_payload, check_fields, has_some,
}
use llmrelay_service.Request.Fields.{
  Gives, fails, gives, bind-Gives, any-Gives, get-assign_some_self, get-assign_some_other,
  get-assign_other, get-copy_other, or_other_end, neither,
}
use llmrelay_service.Request.Tooling.Sanitized.{
  accepted_fields, IsRatio, number_in_range-IsRatio, get-sanitized_other, get-sanitized_temperature,
}

-- A tool of Chat Completions: a function with its description
unfoldable pub IsFunctionTool : Props → Type 0
IsFunctionTool tool = (fn : Props) × (tool ≡ function_object fn)

All-append {ℓ κ} :
    {A : Type ℓ} (P : A → Type κ) (xs ys : List A) → All P xs → All P ys → All P (xs ++ ys)
All-append P [] ys h k = k
All-append P (x ∷ xs) ys (p, h) k = (p, All-append P xs ys h k)

-- The tools that are sent are functions, and at least one.
AreTools : Option (List Props) → Type 0
AreTools none = Unit
AreTools (some []) = ⊥
AreTools (some (tool ∷ tools)) = All IsFunctionTool (tool ∷ tools)

module _ (runtime : Runtime) where
  tool-All : (n : ℕ) (tool : Json) → Gives (All IsFunctionTool) (convert_tool runtime n tool)
  unfolding convert_tool IsFunctionTool
  tool-All n null = fails
  tool-All n (bool _) = fails
  tool-All n (num _) = fails
  tool-All n (str _) = fails
  tool-All n (arr _) = fails
  tool-All n (obj tool) = if_gives (is_text (codes "function") (get (codes "type") tool))
    where
      named_gives :
          (name : Option Text) → Gives (All IsFunctionTool) (flat_tool runtime n tool name)
      named_gives none = fails
      named_gives (some name) = gives ((_, refl), tt)

      record_gives :
          (fn : Option Props) → Gives (All IsFunctionTool) (record_tool runtime n tool fn)
      record_gives none = named_gives (truthy (as_string (get (codes "name") tool)))
      record_gives (some fn) = gives ((fn, refl), tt)

      if_gives :
          (b : Bool)
          → Gives (All IsFunctionTool) (
              if b
              then record_tool runtime n tool (as_record (get (codes "function") tool))
              else done [])
      if_gives true = record_gives (as_record (get (codes "function") tool))
      if_gives false = gives tt

  tools-All :
      (n : ℕ) (tools : List Json)
      → Gives (λ ts. All IsFunctionTool (flatten ts)) (each_from (convert_tool runtime) n tools)
  unfolding each_from
  tools-All n [] = gives tt
  tools-All n (tool ∷ tools) =
      bind-Gives (convert_tool runtime n tool) _ (tool-All n tool) (λ first h.
        bind-Gives (each_from (convert_tool runtime) (suc n) tools) _ (tools-All (suc n) tools)
          (λ rest k. gives (All-append IsFunctionTool first (flatten rest) h k)))

  some-AreTools : (ts : List Props) → All IsFunctionTool ts → AreTools (non_empty_list ts)
  unfolding AreTools
  some-AreTools [] h = tt
  some-AreTools (t ∷ ts) h = h

  convert_tools-AreTools : (tools : Option Json) → Gives AreTools (convert_tools runtime tools)
  unfolding convert_tools AreTools
  convert_tools-AreTools none = gives tt
  convert_tools-AreTools (some null) = gives tt
  convert_tools-AreTools (some (bool _)) = fails
  convert_tools-AreTools (some (num _)) = fails
  convert_tools-AreTools (some (str _)) = fails
  convert_tools-AreTools (some (obj _)) = fails
  convert_tools-AreTools (some (arr tools)) =
      bind-Gives (each_from (convert_tool runtime) 0 (elems tools)) _ (tools-All 0 (elems tools))
        (λ ts h. gives (some-AreTools (flatten ts) h))

-- The payload has no tools and no choice among them, or an array of functions.
unfoldable pub IsTooled : Props → Type 0
IsTooled payload =
    ((get (codes "tools") payload ≡ none) × (get (codes "tool_choice") payload ≡ none))
    ⊎ ((tool : Props) × ((tools : List Props) × ((get (codes "tools") payload
              ≡ some (array (objects (tool ∷ tools))))
            × All IsFunctionTool (tool ∷ tools))))

get-payload_tools :
    (body : Props) (ms : List Props) (tools : Option (List Props)) (format : Option Json)
    → get (codes "tools") (build_payload body ms tools format)
      ≡ Option.map (λ ts. array (objects ts)) tools
unfolding build_payload contains list_beq
get-payload_tools body ms tools format =
    get-assign_some_other (codes "tools") (codes "reasoning_effort") _ _ refl
    ∙ get-assign_some_other (codes "tools") (codes "response_format") _ _ refl
    ∙ get-assign_some_other (codes "tools") (codes "tool_choice") _ _ refl
    ∙ get-assign_some_self (codes "tools") (Option.map (λ ts. array (objects ts)) tools) _
    ∙ ap (or_other (Option.map (λ ts. array (objects ts)) tools)) (
        get-assign_some_other (codes "tools") (codes "max_completion_tokens") _ _ refl
        ∙ get-assign_some_other (codes "tools") (codes "max_tokens") _ _ refl
        ∙ get-assign_other (codes "tools") (codes "messages") _ _ refl
        ∙ get-copy_other (codes "tools") direct_fields body end refl)
    ∙ or_other_end (codes "tools") (Option.map (λ ts. array (objects ts)) tools)

get-payload_choice :
    (body : Props) (ms : List Props) (tools : Option (List Props)) (format : Option Json)
    → get (codes "tool_choice") (build_payload body ms tools format)
      ≡ convert_tool_choice (get (codes "tool_choice") body) (has_some tools)
unfolding build_payload contains list_beq
get-payload_choice body ms tools format =
    let choice = convert_tool_choice (get (codes "tool_choice") body) (has_some tools) in
    get-assign_some_other (codes "tool_choice") (codes "reasoning_effort") _ _ refl
    ∙ get-assign_some_other (codes "tool_choice") (codes "response_format") _ _ refl
    ∙ get-assign_some_self (codes "tool_choice") choice _
    ∙ ap (or_other choice) (
        get-assign_some_other (codes "tool_choice") (codes "tools") _ _ refl
        ∙ get-assign_some_other (codes "tool_choice") (codes "max_completion_tokens") _ _ refl
        ∙ get-assign_some_other (codes "tool_choice") (codes "max_tokens") _ _ refl
        ∙ get-assign_other (codes "tool_choice") (codes "messages") _ _ refl
        ∙ get-copy_other (codes "tool_choice") direct_fields body end refl)
    ∙ or_other_end (codes "tool_choice") choice

build_payload-IsTooled :
    (body : Props) (ms : List Props) (tools : Option (List Props)) (format : Option Json)
    → AreTools tools
    → IsTooled (build_payload body ms tools format)
unfolding IsTooled AreTools convert_tool_choice
build_payload-IsTooled body ms none format h =
    inl (get-payload_tools body ms none format, get-payload_choice body ms none format)
build_payload-IsTooled body ms (some []) format h = absurd h
build_payload-IsTooled body ms (some (t ∷ ts)) format h =
    inr (t, (ts, (get-payload_tools body ms (some (t ∷ ts)) format, h)))

-- A payload that is built has functions as tools, or no tools and then no choice among them.
pub chat_payload-IsTooled :
    (runtime : Runtime) (body : Props) → Gives IsTooled (chat_payload runtime body)
unfolding chat_payload
chat_payload-IsTooled runtime body =
    bind-Gives (check_fields body) _ (any-Gives (check_fields body)) (λ _ _.
      bind-Gives (convert_input runtime (get (codes "input") body)) _
        (any-Gives (convert_input runtime (get (codes "input") body)))
        (λ ms _.
          bind-Gives (convert_tools runtime (get (codes "tools") body)) _
            (convert_tools-AreTools runtime (get (codes "tools") body))
            (λ tools h.
              bind-Gives (convert_text_format runtime (get (codes "text") body)) _
                (any-Gives (convert_text_format runtime (get (codes "text") body)))
                (λ format _. gives (build_payload-IsTooled body _ tools format h)))))

-- What is left of a payload for MiniMax has only the fields that MiniMax accepts, and a temperature
-- only above 0 and up to 1.
pub sanitize_payload-fields :
    (chat : Props)
    → ((k : Text) → contains k accepted_fields ≡ false → get k (sanitize_payload chat) ≡ none)
      × IsRatio (get (codes "temperature") (sanitize_payload chat))
sanitize_payload-fields chat = (
  (λ k h. get-sanitized_other k chat h),
  rw (get-sanitized_temperature chat) (number_in_range-IsRatio (get (codes "temperature") chat)),
)
