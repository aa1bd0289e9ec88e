-- ===== src/ApiKeys/Filter.antt =====
-- Which models a key may ask for.
use llmrelay_service.Base.Tests.{◌==◌ as nat_beq}
use llmrelay_service.Base.{
  ◌-◌, Bool, true, false, not, ◌&&◌, ◌||◌, Option, none, some, List, [], ◌∷◌, ◌++◌, ◌≡◌, ◌↔◌, refl,
  sym, subst, ap, ◌∙◌, inl, inr, Text, codes, starts_with, starts_with_self, length-append, ◌+◌,
  ends_with, take, length, trim, is_empty, ◌==◌, drop, leb, list_beq, list_beq_iff,
  take-append-drop, ends_with-drop, ==-eq, ==_self, list_eq, nat_eq, any, filter, map, dedupe,
  contains, contains-dedupe, IsDistinct, dedupe-IsDistinct, Json, str, arr, obj, num, bool, null,
  elems, arith, Bool-cases, if◌then◌else◌,
}

-- One pattern, in `isModelAllowed`
unfoldable pub matches : Text → Text → Bool
unfolding ends_with starts_with
matches model pattern =
    if ends_with (codes "*") pattern
    then starts_with (take (length pattern - 1) pattern) model
    else model == pattern

-- `isModelAllowed`
unfoldable pub is_model_allowed : Text → List Text → Bool
unfolding matches
is_model_allowed model patterns = any (matches model) patterns

-- The elements that are texts
abbrev texts : List Json → List Text
texts [] = []
texts (str t ∷ vs) = t ∷ texts vs
texts (v ∷ vs) = texts vs

-- `parseAllowedModels` of the parsed column, `none` where it is empty or no JSON
unfoldable pub parse_allowed_models : Option Json → List Text
unfolding trim dedupe filter
parse_allowed_models (some (arr vs)) =
    dedupe (filter (λ t. not (is_empty t)) (map trim (texts (elems vs))))
parse_allowed_models _ = []

any_found :
    (p : Text → Bool) (xs : List Text)
    → any p xs ≡ true
    → (x : Text) × ((contains x xs ≡ true) × (p x ≡ true))
unfolding contains
any_found p [] h = cc
any_found p (x ∷ xs) h = elim (Bool-cases (p x)) [
  | inl holds ↦ (x, (rw (==_self x) refl, holds))
  | inr fails ↦
      let (y, (i, e)) = any_found p xs (rest_true fails h) in (y, (rw i (or_true (x == y)), e))
]
  where
    rest_true : p x ≡ false → (p x || any p xs) ≡ true → any p xs ≡ true
    rest_true fails h = ground (arith, fails, h)

    or_true : (b : Bool) → (b || true) ≡ true
    or_true true = refl
    or_true false = refl

any_of :
    (p : Text → Bool) (x : Text) (xs : List Text)
    → contains x xs ≡ true
    → p x ≡ true
    → any p xs ≡ true
unfolding contains
any_of p x [] h e = cc
any_of p x (y ∷ xs) h e = elim (Bool-cases (y == x)) [
  | inl same ↦ rw ((==-eq y x).0 same, e) refl
  | inr other ↦ rw (any_of p x xs (rest_true other h) e) (or_true (p y))
]
  where
    rest_true : (y == x) ≡ false → ((y == x) || contains x xs) ≡ true → contains x xs ≡ true
    rest_true other h = subst (λ b. (b || contains x xs) ≡ true) other h

    or_true : (b : Bool) → (b || true) ≡ true
    or_true true = refl
    or_true false = refl

-- What a pattern means: its part before a last `*` begins the model, or it is the model.
pub data Admits (model : Text) : Text → Type 0 where
  by_prefix : (prefix rest : Text) → model ≡ prefix ++ rest → Admits model (prefix ++ codes "*")
  by_name :
      (pattern : Text)
      → ends_with (codes "*") pattern ≡ false
      → model ≡ pattern
      → Admits model pattern

starts_with_rest : (t s : Text) → starts_with t s ≡ true → (rest : Text) × (s ≡ t ++ rest)
unfolding starts_with
starts_with_rest [] s h = (s, refl)
starts_with_rest (c ∷ t) [] h = cc
starts_with_rest (c ∷ t) (d ∷ s) h =
    let (rest, e) = starts_with_rest t s (ground (arith, h)) in
    (rest, subst (λ k. d ∷ s ≡ k ∷ (t ++ rest)) (sym (same_head h)) (ap (λ u. d ∷ u) e))
  where
    same_head : (nat_beq c d && starts_with t s) ≡ true → c ≡ d
    same_head h = ground (arith, h)

length-drop-append : (t r : Text) → drop (length t) (t ++ r) ≡ r
length-drop-append [] r = refl
length-drop-append (c ∷ t) r = length-drop-append t r

length-take-append : (t r : Text) → take (length t) (t ++ r) ≡ t
length-take-append [] r = refl
length-take-append (c ∷ t) r = ap (λ u. c ∷ u) (length-take-append t r)

-- What a text that ends with `*` is made of
ends_with_star :
    (s : Text) → ends_with (codes "*") s ≡ true → s ≡ take (length s - 1) s ++ codes "*"
unfolding ends_with
ends_with_star s h =
    sym (take-append-drop (length s - 1) s)
    ∙ ap (λ u. take (length s - 1) s ++ u)
        ((list_beq_iff (drop (length s - 1) s) (codes "*")).0 (last_same h))
  where
    last_same :
        (leb 1 (length s) && list_beq (drop (length s - 1) s) (codes "*")) ≡ true
        → list_beq (drop (length s - 1) s) (codes "*") ≡ true
    last_same h = ground (arith, h)

matches-Admits : (model pattern : Text) → matches model pattern ≡ true → Admits model pattern
unfolding matches
matches-Admits model pattern h = elim (Bool-cases (ends_with (codes "*") pattern)) [
  | inl star ↦
      let prefix = take (length pattern - 1) pattern in
      let (rest, e) =
        starts_with_rest prefix model
          (subst (λ b. (if b then starts_with prefix model else model == pattern) ≡ true) star h) in
      subst (Admits model) (sym (ends_with_star pattern star)) (by_prefix prefix rest e)
  | inr plain ↦ by_name pattern plain (
      (==-eq model pattern).0 (
        subst
          (λ b.
            (if b then starts_with (take (length pattern - 1) pattern) model else model == pattern)
            ≡ true)
          plain h))
]

star_length : (prefix : Text) → length (prefix ++ codes "*") ≡ length prefix + 1
star_length prefix = length-append prefix (codes "*")

star_ends : (prefix : Text) → ends_with (codes "*") (prefix ++ codes "*") ≡ true
star_ends prefix =
    ends_with-drop (codes "*") (prefix ++ codes "*") (length prefix)
      (omega (arith, star_length prefix)) (length-drop-append prefix (codes "*"))

star_prefix :
    (prefix : Text) → take (length (prefix ++ codes "*") - 1) (prefix ++ codes "*") ≡ prefix
star_prefix prefix =
    ap (λ n. take n (prefix ++ codes "*")) (omega (arith, star_length prefix))
    ∙ length-take-append prefix (codes "*")

Admits-matches : (model pattern : Text) → Admits model pattern → matches model pattern ≡ true
unfolding matches
Admits-matches model _ (by_name pattern plain e) = rw plain (rw e (==_self pattern))
Admits-matches model _ (by_prefix prefix rest e) =
    rw (star_ends prefix, star_prefix prefix, e) (starts_with_self prefix rest)

-- A model is allowed exactly if one of the patterns admits it: as the part before a last `*` that
-- the model begins with, or as its name.
pub is_model_allowed_iff :
    (model : Text) (patterns : List Text)
    → (is_model_allowed model patterns ≡ true)
      ↔ ((pattern : Text) × ((contains pattern patterns ≡ true) × Admits model pattern))
unfolding is_model_allowed
is_model_allowed_iff model patterns = (
  (λ h.
      let (pattern, (i, e)) = any_found (matches model) patterns h in
      (pattern, (i, matches-Admits model pattern e))),
  (λ (pattern, (i, a)). any_of (matches model) pattern patterns i (Admits-matches model pattern a)),
)

filter-NoEmpty : (ts : List Text) → contains [] (filter (λ t. not (is_empty t)) ts) ≡ false
unfolding filter contains list_beq
filter-NoEmpty [] = refl
filter-NoEmpty ([] ∷ ts) = filter-NoEmpty ts
filter-NoEmpty ((c ∷ t) ∷ ts) = filter-NoEmpty ts

-- What a stored list of models becomes holds no text twice and not the empty text, whatever the
-- column holds.
parse_allowed_models-IsDistinct :
    (column : Option Json)
    → IsDistinct (parse_allowed_models column) × (contains [] (parse_allowed_models column) ≡ false)
unfolding parse_allowed_models contains
parse_allowed_models-IsDistinct (some (arr vs)) = (
  dedupe-IsDistinct _,
  contains-dedupe [] (filter (λ t. not (is_empty t)) (map trim (texts (elems vs))))
      ∙ filter-NoEmpty (map trim (texts (elems vs))),
)
parse_allowed_models-IsDistinct none = (tt, refl)
parse_allowed_models-IsDistinct (some (obj fs)) = (tt, refl)
parse_allowed_models-IsDistinct (some (str t)) = (tt, refl)
parse_allowed_models-IsDistinct (some (num n)) = (tt, refl)
parse_allowed_models-IsDistinct (some (bool b)) = (tt, refl)
parse_allowed_models-IsDistinct (some null) = (tt, refl)
