-- ===== src/Request/Accepted/Input.antt =====
-- The input: its items and their contents are converted exactly if they are convertible.
use llmrelay_service.Base.{
  ℕ, suc, Bool, true, false, not, Option, none, some, List, [], ◌∷◌, ◌++◌, if◌then◌else◌, ◌&&◌,
  ◌||◌, ◌≡◌, refl, ap, ◌∙◌, Text, codes, list_eq, nat_eq, Json, null, str, num, bool, arr, obj,
  elems, Props, get, as_string, all, arith, Result, failed, done, succeeds, succeeds-bind,
  succeeds-map, succeeds-if, each_from, ◌>>=◌,
}
use llmrelay_service.Request.Errors.{to_text, Thrown, Runtime, indexed}
use llmrelay_service.Request.Content.{
  convert_image, convert_image_url, convert_record_part, convert_part, convert_content,
  content_string, normalize_role, record_content,
}
use llmrelay_service.Request.Items.{
  truthy, named_call, convert_function_call, output_of, convert_function_call_output,
  convert_message_item, convert_record_item, convert_item, convert_input, input_at, finish_message,
}
use llmrelay_service.Request.Accepted.Convertible.{
  filled, is_record, is_string, part_convertible, content_convertible, item_convertible,
  input_convertible,
}

-- A loop succeeds if its body does for each element.
pub each_from-succeeds {ℓ κ μ} :
    {E : Type ℓ} {A : Type κ} {B : Type μ} (f : ℕ → A → Result E B) (p : A → Bool)
    → ((n : ℕ) (a : A) → succeeds (f n a) ≡ p a)
    → (n : ℕ) (xs : List A) → succeeds (each_from f n xs) ≡ all p xs
unfolding each_from
each_from-succeeds f p h n [] = refl
each_from-succeeds f p h n (x ∷ xs) =
    succeeds-bind (f n x) _ (all p xs) (λ y e.
      succeeds-map (each_from f (suc n) xs) (λ ys. y ∷ ys) ∙ each_from-succeeds f p h (suc n) xs)
    ∙ ap (λ b. b && all p xs) (h n x)

image_lem :
    (param : Text) (url : Option Json)
    → succeeds (convert_image param (convert_image_url url)) ≡ (is_string url || is_record url)
unfolding convert_image_url convert_image is_record is_string
image_lem param none = refl
image_lem param (some null) = refl
image_lem param (some (num n)) = refl
image_lem param (some (bool b)) = refl
image_lem param (some (arr vs)) = refl
image_lem param (some (str t)) = refl
image_lem param (some (obj ps)) = refl

part_lem : (param : Text) (part : Json) → succeeds (convert_part param part) ≡ part_convertible part
unfolding convert_part convert_record_part part_convertible
part_lem param (str t) = refl
part_lem param null = refl
part_lem param (num n) = refl
part_lem param (bool b) = refl
part_lem param (arr vs) = refl
part_lem param (obj ps) = ground (arith, image_lem param (get (codes "image_url") ps))

module _ (runtime : Runtime) where
  record_content_lem :
      (ps : Props) (text : Option Json)
      → succeeds (record_content runtime ps (as_string text))
        ≡ (is_string text || succeeds (to_text runtime (obj ps)))
  unfolding record_content content_string is_string
  record_content_lem ps none = succeeds-map (to_text runtime (obj ps)) str
  record_content_lem ps (some null) = succeeds-map (to_text runtime (obj ps)) str
  record_content_lem ps (some (num n)) = succeeds-map (to_text runtime (obj ps)) str
  record_content_lem ps (some (bool b)) = succeeds-map (to_text runtime (obj ps)) str
  record_content_lem ps (some (arr vs)) = succeeds-map (to_text runtime (obj ps)) str
  record_content_lem ps (some (obj qs)) = succeeds-map (to_text runtime (obj ps)) str
  record_content_lem ps (some (str t)) = refl

  content_lem :
      (role param : Text) (content : Option Json)
      → succeeds (convert_content runtime role param content) ≡ content_convertible runtime content
  unfolding convert_content content_convertible content_string
  content_lem role param none = refl
  content_lem role param (some null) = refl
  content_lem role param (some (str t)) = refl
  content_lem role param (some (bool b)) = succeeds-map (to_text runtime (bool b)) str
  content_lem role param (some (num n)) = succeeds-map (to_text runtime (num n)) str
  content_lem role param (some (obj ps)) = record_content_lem ps (get (codes "text") ps)
  content_lem role param (some (arr parts)) =
      succeeds-map
        (each_from (λ index part. convert_part (indexed runtime param index) part) 0 (elems parts))
        _
      ∙ each_from-succeeds _ part_convertible (λ n part. part_lem (indexed runtime param n) part) 0
          (elems parts)

  call_lem :
      (n : ℕ) (call_id : Text) (item : Props) (name : Option Json)
      → succeeds (named_call runtime n call_id item (truthy (as_string name))) ≡ filled name
  unfolding named_call filled
  call_lem n call_id item none = refl
  call_lem n call_id item (some null) = refl
  call_lem n call_id item (some (num _)) = refl
  call_lem n call_id item (some (bool _)) = refl
  call_lem n call_id item (some (arr _)) = refl
  call_lem n call_id item (some (obj _)) = refl
  call_lem n call_id item (some (str [])) = refl
  call_lem n call_id item (some (str (c ∷ t))) = refl

  output_lem :
      (n : ℕ) (item : Props) (call_id : Option Json)
      → succeeds (output_of runtime n item (truthy (as_string call_id))) ≡ filled call_id
  unfolding output_of filled
  output_lem n item none = refl
  output_lem n item (some null) = refl
  output_lem n item (some (num _)) = refl
  output_lem n item (some (bool _)) = refl
  output_lem n item (some (arr _)) = refl
  output_lem n item (some (obj _)) = refl
  output_lem n item (some (str [])) = refl
  output_lem n item (some (str (c ∷ t))) = refl

  some_lem :
      (r : Result Thrown Props) (b : Bool)
      → succeeds r ≡ b
      → succeeds (r >>= λ m. done (some m)) ≡ b
  some_lem r b h = succeeds-map r some ∙ h

  reference_lem :
      (b : Bool) (e : Thrown) (r : Result Thrown (Option Props)) (c : Bool)
      → succeeds r ≡ c
      → succeeds (if b then failed e else r) ≡ (not b && c)
  reference_lem true e r c h = refl
  reference_lem false e r c h = h

  message_item_lem :
      (n : ℕ) (item : Props) (role : Text)
      → succeeds (convert_message_item runtime n item role)
        ≡ content_convertible runtime (get (codes "content") item)
  unfolding convert_message_item
  message_item_lem n item role =
      let param = input_at runtime n ++ codes ".content" in
      let content = get (codes "content") item in
      succeeds-map (convert_content runtime role param content) (finish_message runtime n item role)
      ∙ content_lem role param content

  record_item_lem :
      (n : ℕ) (item : Props)
      → succeeds (convert_record_item runtime n item) ≡ item_convertible runtime (obj item)
  unfolding convert_record_item item_convertible convert_function_call convert_function_call_output
  record_item_lem n item = succeeds-if _ _ _ _ _ refl (
      succeeds-if _ _ _ _ _ (some_lem _ _ (call_lem n _ item (get (codes "name") item))) (
        succeeds-if _ _ _ _ _ (some_lem _ _ (output_lem n item (get (codes "call_id") item))) (
          reference_lem _ _ _ _
            (some_lem _ _ (message_item_lem n item (normalize_role (get (codes "role") item)))))))

  pub item_lem :
      (n : ℕ) (item : Json) → succeeds (convert_item runtime n item) ≡ item_convertible runtime item
  unfolding convert_item item_convertible
  item_lem n (str t) = refl
  item_lem n null = succeeds-map (to_text runtime null) _
  item_lem n (num k) = succeeds-map (to_text runtime (num k)) _
  item_lem n (bool b) = succeeds-map (to_text runtime (bool b)) _
  item_lem n (arr vs) = succeeds-map (to_text runtime (arr vs)) _
  item_lem n (obj item) = record_item_lem n item

  pub input_lem :
      (input : Option Json)
      → succeeds (convert_input runtime input) ≡ input_convertible runtime input
  unfolding convert_input input_convertible
  input_lem none = refl
  input_lem (some null) = refl
  input_lem (some (str t)) = refl
  input_lem (some (bool b)) = refl
  input_lem (some (num n)) = refl
  input_lem (some (obj ps)) = refl
  input_lem (some (arr items)) =
      succeeds-map (each_from (convert_item runtime) 0 (elems items)) _
      ∙ each_from-succeeds _ (item_convertible runtime) item_lem 0 (elems items)
