-- ===== src/Request/Tooling/Sanitized.antt =====
-- What is left of a field of a payload for MiniMax
use llmrelay_service.Base.{
  ℕ, ◌≤◌, ◌<◌, true, false, Option, none, some, List, [], ◌∷◌, if◌then◌else◌, ◌||◌, ◌≡◌, refl, ap,
  ◌∙◌, ◌⊎◌, inl, inr, Text, codes, ◌==◌, list_eq, list_beq, nat_eq, arith, Bool-cases, contains,
  leb, ltb, pos, negsuc, one, Json, null, bool, num, str, arr, obj, Props, end, get,
}
use mathlib.Core.Option
use llmrelay_service.Request.Errors.{assign_some, array, objects}
use llmrelay_service.Request.Items.{or_other, as_array}
use llmrelay_service.Request.Tools.{as_bool}
use llmrelay_service.Request.MiniMax.{
  sanitize_payload, number_in_range, positive_integer, as_text, sanitize_tools,
}
use llmrelay_service.Request.Fields.{
  get-assign_some_self, get-assign_some_other, or_other_end, neither,
}

abbrev pub accepted_fields : List Text
accepted_fields =
    codes "tools"
    ∷ codes "top_p"
    ∷ codes "temperature"
    ∷ codes "max_completion_tokens"
    ∷ codes "stream"
    ∷ codes "messages"
    ∷ codes "model"
    ∷ []

-- A number above 0 and up to 1
unfoldable pub IsRatio : Option Json → Type 0
IsRatio none = Unit
IsRatio (some (num (pos n))) = (0 < n) × (n ≤ one)
IsRatio (some v) = ⊥

ratio_within : {n : ℕ} → (leb n 0 || ltb one n) ≡ false → (0 < n) × (n ≤ one)
ratio_within h = ground arith

pub number_in_range-IsRatio : (o : Option Json) → IsRatio (number_in_range o)
unfolding IsRatio number_in_range
number_in_range-IsRatio none = tt
number_in_range-IsRatio (some null) = tt
number_in_range-IsRatio (some (bool _)) = tt
number_in_range-IsRatio (some (str _)) = tt
number_in_range-IsRatio (some (arr _)) = tt
number_in_range-IsRatio (some (obj _)) = tt
number_in_range-IsRatio (some (num (negsuc _))) = tt
number_in_range-IsRatio (some (num (pos n))) = ratio_lem (Bool-cases (leb n 0 || ltb one n))
  where
    ratio_lem :
        ((leb n 0 || ltb one n) ≡ true) ⊎ ((leb n 0 || ltb one n) ≡ false)
        → IsRatio (if leb n 0 || ltb one n then none else some (num (pos n)))
    ratio_lem (inl out) = rw out tt
    ratio_lem (inr within) = rw within (ratio_within within)

pub get-sanitized_other :
    (k : Text) (chat : Props)
    → contains k accepted_fields ≡ false
    → get k (sanitize_payload chat) ≡ none
unfolding sanitize_payload contains get
get-sanitized_other k chat h =
    let model = as_text (get (codes "model") chat) in
    let messages = as_array (get (codes "messages") chat) in
    let stream = as_bool (get (codes "stream") chat) in
    let tokens =
      or_other (positive_integer (get (codes "max_completion_tokens") chat))
        (positive_integer (get (codes "max_tokens") chat)) in
    let temperature = number_in_range (get (codes "temperature") chat) in
    let top_p = number_in_range (get (codes "top_p") chat) in
    let tools = Option.map (λ ts. array (objects ts)) (sanitize_tools (get (codes "tools") chat)) in
    let p1 = assign_some (codes "model") model end in
    let p2 = assign_some (codes "messages") messages p1 in
    let p3 = assign_some (codes "stream") stream p2 in
    let p4 = assign_some (codes "max_completion_tokens") tokens p3 in
    let p5 = assign_some (codes "temperature") temperature p4 in
    let p6 = assign_some (codes "top_p") top_p p5 in
    let (h7, r7) = neither (codes "tools" == k) _ h in
    let (h6, r6) = neither (codes "top_p" == k) _ r7 in
    let (h5, r5) = neither (codes "temperature" == k) _ r6 in
    let (h4, r4) = neither (codes "max_completion_tokens" == k) _ r5 in
    let (h3, r3) = neither (codes "stream" == k) _ r4 in
    let (h2, r2) = neither (codes "messages" == k) _ r3 in
    let (h1, r1) = neither (codes "model" == k) _ r2 in
    get-assign_some_other k (codes "tools") tools p6 h7
    ∙ get-assign_some_other k (codes "top_p") top_p p5 h6
    ∙ get-assign_some_other k (codes "temperature") temperature p4 h5
    ∙ get-assign_some_other k (codes "max_completion_tokens") tokens p3 h4
    ∙ get-assign_some_other k (codes "stream") stream p2 h3
    ∙ get-assign_some_other k (codes "messages") messages p1 h2
    ∙ get-assign_some_other k (codes "model") model end h1

pub get-sanitized_temperature :
    (chat : Props)
    → get (codes "temperature") (sanitize_payload chat)
      ≡ number_in_range (get (codes "temperature") chat)
unfolding sanitize_payload list_beq get
get-sanitized_temperature chat =
    let k = codes "temperature" in
    let model = as_text (get (codes "model") chat) in
    let messages = as_array (get (codes "messages") chat) in
    let stream = as_bool (get (codes "stream") chat) in
    let tokens =
      or_other (positive_integer (get (codes "max_completion_tokens") chat))
        (positive_integer (get (codes "max_tokens") chat)) in
    let temperature = number_in_range (get (codes "temperature") chat) in
    let top_p = number_in_range (get (codes "top_p") chat) in
    let tools = Option.map (λ ts. array (objects ts)) (sanitize_tools (get (codes "tools") chat)) in
    let p1 = assign_some (codes "model") model end in
    let p2 = assign_some (codes "messages") messages p1 in
    let p3 = assign_some (codes "stream") stream p2 in
    let p4 = assign_some (codes "max_completion_tokens") tokens p3 in
    let p5 = assign_some (codes "temperature") temperature p4 in
    let p6 = assign_some (codes "top_p") top_p p5 in
    get-assign_some_other k (codes "tools") tools p6 refl
    ∙ get-assign_some_other k (codes "top_p") top_p p5 refl
    ∙ get-assign_some_self k temperature p4
    ∙ ap (or_other temperature) (
        get-assign_some_other k (codes "max_completion_tokens") tokens p3 refl
        ∙ get-assign_some_other k (codes "stream") stream p2 refl
        ∙ get-assign_some_other k (codes "messages") messages p1 refl
        ∙ get-assign_some_other k (codes "model") model end refl)
    ∙ or_other_end k temperature

-- What is left of a payload for MiniMax has no field but the seven accepted ones, and a temperature
