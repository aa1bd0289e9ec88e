-- ===== src/Request/Fields.antt =====
-- The fields of the payload.
use llmrelay_service.Base.{
  Bool, true, false, Option, none, some, List, [], ◌∷◌, if◌then◌else◌, ◌||◌, ◌≡◌, refl, sym, subst,
  ap, ◌∙◌, inl, inr, Text, codes, ◌==◌, ==-eq, ==_self, list_eq, list_beq, nat_eq, Bool-cases,
  if_true, contains, drop, Json, null, bool, num, str, arr, obj, Props, end, prop, get, as_string,
  or_else, Result, failed, done, ◌>>=◌,
}
use llmrelay_service.Request.Errors.{Thrown, Runtime, assign, assign_some}
use llmrelay_service.Request.Items.{or_other, convert_input}
use llmrelay_service.Request.Tools.{convert_tools, convert_text_format}
use llmrelay_service.Request.MiniMax.{sanitize_payload, as_text, is_minimax_target}
use llmrelay_service.Request.Payload.{
  copy_fields, direct_fields, build_payload, chat_payload, answer, final_payload, convert_request,
  check_fields,
}

get-assign_self : (name : Text) (v : Json) (ps : Props) → get name (assign name v ps) ≡ some v
unfolding get assign
get-assign_self name v end = if_true _ _ _ (==_self name)
get-assign_self name v (prop other held ps) = elim (Bool-cases (other == name)) [
  | inl same ↦ rw same (if_true _ _ _ (==_self name))
  | inr new ↦ rw (new, new) (get-assign_self name v ps)
]

pub get-assign_other :
    (k name : Text) (v : Json) (ps : Props)
    → (name == k) ≡ false
    → get k (assign name v ps) ≡ get k ps
unfolding get assign
get-assign_other k name v end h = rw h refl
get-assign_other k name v (prop other held ps) h = elim (Bool-cases (other == name)) [
  | inl same ↦ rw (same, h, subst (λ o. (o == k) ≡ false) (sym ((==-eq other name).0 same)) h) refl
  | inr new ↦
      rw new (ap (λ r. if other == k then some held else r) (get-assign_other k name v ps h))
]

pub get-assign_some_self :
    (name : Text) (o : Option Json) (ps : Props)
    → get name (assign_some name o ps) ≡ or_other o (get name ps)
unfolding assign_some
get-assign_some_self name none ps = refl
get-assign_some_self name (some v) ps = get-assign_self name v ps

pub get-assign_some_other :
    (k name : Text) (o : Option Json) (ps : Props)
    → (name == k) ≡ false
    → get k (assign_some name o ps) ≡ get k ps
unfolding assign_some
get-assign_some_other k name none ps h = refl
get-assign_some_other k name (some v) ps h = get-assign_other k name v ps h

pub neither : (a b : Bool) → (a || b) ≡ false → (a ≡ false) × (b ≡ false)
neither true b h = cc
neither false b h = (refl, h)

pub or_other_end : (k : Text) (o : Option Json) → or_other o (get k end) ≡ o
unfolding get
or_other_end k none = refl
or_other_end k (some v) = refl

-- A field that is not among those taken over is not changed.
pub get-copy_other :
    (k : Text) (names : List Text) (body ps : Props)
    → contains k names ≡ false
    → get k (copy_fields names body ps) ≡ get k ps
unfolding copy_fields contains
get-copy_other k [] body ps h = refl
get-copy_other k (name ∷ names) body ps h =
    let (first, rest) = neither (name == k) (contains k names) h in
    get-copy_other k names body (assign_some name (get name body) ps) rest
    ∙ get-assign_some_other k name (get name body) ps first

-- The model is the first field taken over, and no later one.
get-copy_model :
    (body ps : Props)
    → get (codes "model") (copy_fields direct_fields body ps)
      ≡ or_other (get (codes "model") body) (get (codes "model") ps)
unfolding copy_fields contains list_beq get
get-copy_model body ps =
    get-copy_other (codes "model") (drop 1 direct_fields) body
      (assign_some (codes "model") (get (codes "model") body) ps) later_lem
    ∙ get-assign_some_self (codes "model") (get (codes "model") body) ps
  where
    later_lem : contains (codes "model") (drop 1 direct_fields) ≡ false
    later_lem = refl

pub get-payload_model :
    (body : Props) (ms : List Props) (tools : Option (List Props)) (format : Option Json)
    → get (codes "model") (build_payload body ms tools format) ≡ get (codes "model") body
unfolding build_payload contains list_beq
get-payload_model body ms tools format =
    get-assign_some_other (codes "model") (codes "reasoning_effort") _ _ refl
    ∙ get-assign_some_other (codes "model") (codes "response_format") _ _ refl
    ∙ get-assign_some_other (codes "model") (codes "tool_choice") _ _ refl
    ∙ get-assign_some_other (codes "model") (codes "tools") _ _ refl
    ∙ get-assign_some_other (codes "model") (codes "max_completion_tokens") _ _ refl
    ∙ get-assign_some_other (codes "model") (codes "max_tokens") _ _ refl
    ∙ get-assign_other (codes "model") (codes "messages") _ _ refl
    ∙ get-copy_model body end
    ∙ or_other_end (codes "model") (get (codes "model") body)

-- What holds of a result, if there is one
pub data Gives {ℓ κ} {E : Type ℓ} {A : Type κ} (Q : A → Type 0) : Result E A → Type (ℓ ⊔ κ) where
  fails : {e : E} → Gives Q (failed e)
  gives : {a : A} → Q a → Gives Q (done a)

pub bind-Gives {ℓ κ μ} :
    {E : Type ℓ} {A : Type κ} {B : Type μ} {P : A → Type 0} {Q : B → Type 0} (r : Result E A)
    (f : A → Result E B)
    → Gives P r
    → ((a : A) → P a → Gives Q (f a))
    → Gives Q (r >>= f)
bind-Gives (failed e) f h k = fails
bind-Gives (done a) f (gives h) k = k a h

pub any-Gives {ℓ κ} : {E : Type ℓ} {A : Type κ} (r : Result E A) → Gives (λ a. Unit {0}) r
any-Gives (failed e) = fails
any-Gives (done a) = gives tt

-- The payload keeps the model of the body.
chat_payload-model :
    (runtime : Runtime) (body : Props)
    → Gives (λ p. get (codes "model") p ≡ get (codes "model") body) (chat_payload runtime body)
unfolding chat_payload
chat_payload-model runtime body =
    bind-Gives (check_fields body) _ (any-Gives (check_fields body)) (λ _ _.
      bind-Gives (convert_input runtime (get (codes "input") body)) _
        (any-Gives (convert_input runtime (get (codes "input") body)))
        (λ ms _.
          bind-Gives (convert_tools runtime (get (codes "tools") body)) _
            (any-Gives (convert_tools runtime (get (codes "tools") body)))
            (λ tools _.
              bind-Gives (convert_text_format runtime (get (codes "text") body)) _
                (any-Gives (convert_text_format runtime (get (codes "text") body)))
                (λ format _. gives (get-payload_model body _ tools format)))))

get-sanitized_model :
    (chat : Props)
    → get (codes "model") (sanitize_payload chat) ≡ as_text (get (codes "model") chat)
unfolding sanitize_payload contains list_beq
get-sanitized_model chat =
    get-assign_some_other (codes "model") (codes "tools") _ _ refl
    ∙ get-assign_some_other (codes "model") (codes "top_p") _ _ refl
    ∙ get-assign_some_other (codes "model") (codes "temperature") _ _ refl
    ∙ get-assign_some_other (codes "model") (codes "max_completion_tokens") _ _ refl
    ∙ get-assign_some_other (codes "model") (codes "stream") _ _ refl
    ∙ get-assign_some_other (codes "model") (codes "messages") _ _ refl
    ∙ get-assign_some_self (codes "model") (as_text (get (codes "model") chat)) end
    ∙ or_other_end (codes "model") (as_text (get (codes "model") chat))

as_string-as_text : (o : Option Json) → as_string (as_text o) ≡ as_string o
as_string-as_text none = refl
as_string-as_text (some null) = refl
as_string-as_text (some (bool b)) = refl
as_string-as_text (some (num n)) = refl
as_string-as_text (some (str t)) = refl
as_string-as_text (some (arr vs)) = refl
as_string-as_text (some (obj ps)) = refl

final_payload-model :
    (runtime : Runtime) (url : Option Text) (body chat : Props)
    → as_string (get (codes "model") (final_payload runtime url body chat))
      ≡ as_string (get (codes "model") chat)
unfolding final_payload
final_payload-model runtime url body chat = elim (Bool-cases (is_minimax_target runtime body url)) [
  | inl target ↦
      rw target
        (ap as_string (get-sanitized_model chat) ∙ as_string-as_text (get (codes "model") chat))
  | inr other ↦ rw other refl
]

-- If a body is converted, the model that the gateway goes on with is the body's, or `unknown` where
-- it names none, also for a MiniMax upstream.
pub convert_request-model :
    (runtime : Runtime) (url : Option Text) (body : Props)
    → Gives
        (λ r. r.1 ≡ or_else (as_string (get (codes "model") body)) (codes "unknown"))
        (convert_request runtime url (some (obj body)))
unfolding convert_request answer
convert_request-model runtime url body =
    answer_lem (chat_payload runtime body) (chat_payload-model runtime body)
  where
    answer_lem :
        (r : Result Thrown Props)
        → Gives (λ p. get (codes "model") p ≡ get (codes "model") body) r
        → Gives
            (λ a. a.1 ≡ or_else (as_string (get (codes "model") body)) (codes "unknown"))
            (answer runtime url body r)
    answer_lem (failed e) h = fails
    answer_lem (done chat) (gives h) =
        gives (rw (final_payload-model runtime url body chat, h) refl)
