-- ===== src/Request/Refusals.antt =====
-- Which item a refused input is refused for.
pub mod Refused
use llmrelay_service.Base.{
  ℕ, suc, Bool, true, false, Option, none, some, List, [], ◌∷◌, ◌++◌, if◌then◌else◌, ◌≡◌, refl, sym,
  subst, ap, ◌∙◌, inl, inr, Text, codes, starts_with, starts_with_self, starts_with_more, list_eq,
  nat_eq, Json, null, str, num, bool, arr, obj, elems, Elems, Props, get, as_string, arith, Result,
  failed, done, succeeds, each_from, ◌>>=◌, bind_fails, failed_injective,
}
use llmrelay_service.Request.Errors.{
  CompatError, to_text, raising, Thrown, refused, raised, create_error, Runtime, is_text, indexed,
}
use llmrelay_service.Request.Content.{
  convert_image, convert_image_url, convert_record_part, convert_part, convert_content,
  content_string, record_content, normalize_role, is_plain, is_image,
}
use llmrelay_service.Request.Items.{
  truthy, named_call, convert_function_call, output_of, convert_function_call_output,
  convert_message_item, convert_record_item, convert_item, convert_input, input_at, message,
}
use llmrelay_service.Request.Accepted.Convertible.{item_convertible}
use llmrelay_service.Request.Accepted.Input.{item_lem}
use llmrelay_service.Request.Refusals.Refused.{
  Throws, throws, returns, IsAbout, Names, named, starts_with_all, bind-Throws, if_Throws,
  each-Throws,
}

-- What holds of what is thrown, if anything is.

module _ (runtime : Runtime) (prefix : Text) where
  to_text-Throws : (v : Json) → Throws (Names prefix) (to_text runtime v)
  unfolding to_text raising Names
  to_text-Throws v = raising_throws (runtime.to_string v)
    where
      raising_throws : (r : Result Text Text) → Throws (Names prefix) (raising r)
      raising_throws (failed message) = throws tt
      raising_throws (done t) = returns

  image-Throws :
      (param : Text) (url : Option Json)
      → starts_with prefix param ≡ true
      → Throws (Names prefix) (convert_image param url)
  unfolding convert_image
  image-Throws param none h = throws (named prefix _ param h)
  image-Throws param (some url) h = returns

  part-Throws :
      (param : Text) (part : Json)
      → starts_with prefix param ≡ true
      → Throws (Names prefix) (convert_part param part)
  unfolding convert_part convert_record_part
  part-Throws param (str t) h = returns
  part-Throws param null h = returns
  part-Throws param (num n) h = returns
  part-Throws param (bool b) h = returns
  part-Throws param (arr vs) h = returns
  part-Throws param (obj ps) h =
      let type = get (codes "type") ps in
      if_Throws _ (is_plain type) _ _ returns (
        if_Throws _ (is_text (codes "refusal") type) _ _ returns (
          if_Throws _ (is_image type) _ _
            (image-Throws param (convert_image_url (get (codes "image_url") ps)) h)
            (if_Throws _ (is_text (codes "input_file") type) _ _ (throws (named prefix _ param h))
              returns)))

  string-Throws : (v : Json) → Throws (Names prefix) (content_string runtime v)
  unfolding content_string
  string-Throws v = bind-Throws _ (to_text runtime v) _ (to_text-Throws v) (λ t. returns)

  content-Throws :
      (role param : Text) (content : Option Json)
      → starts_with prefix param ≡ true
      → Throws (Names prefix) (convert_content runtime role param content)
  unfolding convert_content record_content indexed
  content-Throws role param none h = returns
  content-Throws role param (some null) h = returns
  content-Throws role param (some (str t)) h = returns
  content-Throws role param (some (num n)) h = string-Throws (num n)
  content-Throws role param (some (bool b)) h = string-Throws (bool b)
  content-Throws role param (some (obj ps)) h = record_throws (as_string (get (codes "text") ps))
    where
      record_throws : (t : Option Text) → Throws (Names prefix) (record_content runtime ps t)
      record_throws none = string-Throws (obj ps)
      record_throws (some t) = returns
  content-Throws role param (some (arr parts)) h =
      bind-Throws _
        (each_from (λ index part. convert_part (indexed runtime param index) part) 0 (elems parts))
        _
        (each-Throws _ _ (λ n part. part-Throws (indexed runtime param n) part (indexed_lem n)) 0
          (elems parts))
        (λ converted. returns)
    where
      indexed_lem : (n : ℕ) → starts_with prefix (indexed runtime param n) ≡ true
      indexed_lem n =
          starts_with_more prefix _ _
            (starts_with_more prefix _ _ (starts_with_more prefix param _ h))

module _ (runtime : Runtime) (n : ℕ) where
  call-Throws :
      (call_id : Text) (item : Props) (name : Option Text)
      → Throws (Names (input_at runtime n)) (named_call runtime n call_id item name)
  unfolding named_call
  call-Throws call_id item none = throws (named _ _ _ (starts_with_self (input_at runtime n) _))
  call-Throws call_id item (some name) = returns

  output-Throws :
      (item : Props) (call_id : Option Text)
      → Throws (Names (input_at runtime n)) (output_of runtime n item call_id)
  unfolding output_of
  output-Throws item none = throws (named _ _ _ (starts_with_self (input_at runtime n) _))
  output-Throws item (some call_id) = returns

  message-Throws :
      (item : Props) (role : Text)
      → Throws (Names (input_at runtime n)) (convert_message_item runtime n item role)
  unfolding convert_message_item
  message-Throws item role =
      bind-Throws _
        (convert_content runtime role (input_at runtime n ++ codes ".content")
          (get (codes "content") item))
        _
        (content-Throws runtime (input_at runtime n) role _ (get (codes "content") item)
          (starts_with_self (input_at runtime n) _))
        (λ content. returns)

  some-Throws :
      (r : Result Thrown Props)
      → Throws (Names (input_at runtime n)) r
      → Throws (Names (input_at runtime n)) (r >>= λ m. done (some m))
  some-Throws (failed e) (throws h) = throws h
  some-Throws (done m) h = returns

  user-Throws :
      (v : Json)
      → Throws
          (Names (input_at runtime n))
          (to_text runtime v >>= λ t. done (some (message (codes "user") (str t))))
  user-Throws v = bind-Throws _ (to_text runtime v) _ (to_text-Throws runtime _ v) (λ t. returns)

  record_item-Throws :
      (item : Props) → Throws (Names (input_at runtime n)) (convert_record_item runtime n item)
  unfolding convert_record_item convert_function_call convert_function_call_output
  record_item-Throws item =
      let type = get (codes "type") item in
      let role = normalize_role (get (codes "role") item) in
      if_Throws _ (is_text (codes "reasoning") type) _ _ returns (
        if_Throws _ (is_text (codes "function_call") type) _ _
          (some-Throws (convert_function_call runtime n item)
            (call-Throws _ item (truthy (as_string (get (codes "name") item)))))
          (if_Throws _ (is_text (codes "function_call_output") type) _ _
            (some-Throws (convert_function_call_output runtime n item)
              (output-Throws item (truthy (as_string (get (codes "call_id") item)))))
            (if_Throws _ (is_text (codes "item_reference") type) _ _
              (throws (named _ _ (input_at runtime n) (starts_with_all (input_at runtime n))))
              (some-Throws (convert_message_item runtime n item role) (message-Throws item role)))))

  item-Throws : (item : Json) → Throws (Names (input_at runtime n)) (convert_item runtime n item)
  unfolding convert_item
  item-Throws (str t) = returns
  item-Throws null = user-Throws null
  item-Throws (num k) = user-Throws (num k)
  item-Throws (bool b) = user-Throws (bool b)
  item-Throws (arr vs) = user-Throws (arr vs)
  item-Throws (obj item) = record_item-Throws item

-- The first element that is not good, counted from a number on, and what is said of its number
pub data First {ℓ} {A : Type ℓ} (good : A → Bool) (P : ℕ → Type 0) : ℕ → List A → Type ℓ where
  here : {n : ℕ} {x : A} {xs : List A} → good x ≡ false → P n → First good P n (x ∷ xs)
  later :
      {n : ℕ} {x : A} {xs : List A}
      → good x ≡ true
      → First good P (suc n) xs
      → First good P n (x ∷ xs)

each_from-First {ℓ κ μ} :
    {E : Type ℓ} {A : Type κ} {B : Type μ} (f : ℕ → A → Result E B) (good : A → Bool)
    (P : ℕ → E → Type 0)
    → ((n : ℕ) (x : A) → succeeds (f n x) ≡ good x)
    → ((n : ℕ) (x : A) (e : E) → f n x ≡ failed e → P n e)
    → (n : ℕ) (xs : List A) (e : E) → each_from f n xs ≡ failed e
    → First good (λ k. P k e) n xs
unfolding each_from
each_from-First f good P h k n [] e r = cc
each_from-First f good P h k n (x ∷ xs) e r = elim (bind_fails (f n x) _ e r) [
  | inl stop ↦ here (sym (h n x) ∙ ap succeeds stop) (k n x e stop)
  | inr (y, (go, r')) ↦ elim (bind_fails (each_from f (suc n) xs) _ e r') [
    | inl stop ↦
        later (sym (h n x) ∙ ap succeeds go) (each_from-First f good P h k (suc n) xs e stop)
    | inr (ys, (_, done_fails)) ↦ cc
  ]
]

Throws_lem :
    (P : Thrown → Type 0) (A : Type 0) (r : Result Thrown A) (e : Thrown)
    → Throws P r
    → r ≡ failed e
    → P e
Throws_lem P A (failed e') e (throws h) same = subst P (failed_injective A e' e same) h
Throws_lem P A (done a) e h same = cc

-- If an input that is an array is refused, then with the status 400 and for its first item that is
-- not convertible, whose index the error's `param` begins with.
pub convert_input-First :
    (runtime : Runtime) (items : Elems) (e : CompatError)
    → convert_input runtime (some (arr items)) ≡ failed (refused e)
    → First (item_convertible runtime) (λ i. IsAbout (input_at runtime i) e) 0 (elems items)
unfolding convert_input Names
convert_input-First runtime items e r =
    elim (bind_fails (each_from (convert_item runtime) 0 (elems items)) _ (refused e) r) [
      | inl stop ↦
          each_from-First (convert_item runtime) (item_convertible runtime)
            (λ i e. Names (input_at runtime i) e) (item_lem runtime)
            (λ n item e h.
              Throws_lem _ _ (convert_item runtime n item) e (item-Throws runtime n item) h)
            0 (elems items) (refused e) stop
      | inr (ms, (_, done_fails)) ↦ cc
    ]
