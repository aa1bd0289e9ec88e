-- ===== src/Failover/Rules.antt =====
-- What the rules for custom fallbacks are after normalisation.
use llmrelay_service.Base.{
  ℕ, suc, ◌+◌, ◌≤◌, ◌≡◌, refl, subst, ◌∙◌, inl, inr, Bool, true, false, ◌||◌, Option, none, some,
  List, [], ◌∷◌, ◌++◌, map, Text, codes, length, ◌==◌, ==-eq, list_eq, nat_eq, Comparable, lookup,
  insert, contains, dedupe, dedupe_from, dedupe-IsDistinct, IsDistinct, and_then, put_first, each,
  All, or_else, if◌then◌else◌, Bool-cases, ltb, arith, Json, get, elems,
}
use mathlib.Core.Option
use llmrelay_service.Failover.{
  normalize_model_name, check_fallbacks, normalize_fallbacks, merge_rule, add_rule, add_rules,
}

-- What holds of the result if there is one.
abbrev pub Holds {ℓ κ} : {A : Type ℓ} → (A → Type κ) → Option A → Type κ
Holds P none = Unit
Holds P (some a) = P a

abbrev pub Anything {ℓ} : {A : Type ℓ} → A → Type 0
Anything a = Unit

pub anything {ℓ} : {A : Type ℓ} (o : Option A) → Holds Anything o
anything none = tt
anything (some a) = tt

pub and_then-Holds {ℓ κ μ ν} :
    {A : Type ℓ} {B : Type κ} (P : A → Type μ) (Q : B → Type ν) (o : Option A) (f : A → Option B)
    → Holds P o
    → ((a : A) → P a → Holds Q (f a))
    → Holds Q (and_then o f)
and_then-Holds P Q none f h k = tt
and_then-Holds P Q (some a) f h k = k a h

pub map-Holds {ℓ κ μ ν} :
    {A : Type ℓ} {B : Type κ} (P : A → Type μ) (Q : B → Type ν) (o : Option A) (f : A → B)
    → Holds P o
    → ((a : A) → P a → Q (f a))
    → Holds Q (Option.map f o)
map-Holds P Q none f h k = tt
map-Holds P Q (some a) f h k = k a h

put_first-Holds {ℓ μ} :
    {A : Type ℓ} (P : A → Type μ) (o : Option A) (rest : Option (List A))
    → Holds P o
    → Holds (All P) rest
    → Holds (All P) (put_first o rest)
put_first-Holds P none rest h k = tt
put_first-Holds P (some a) none h k = tt
put_first-Holds P (some a) (some l) h k = (h, k)

pub each-Holds {ℓ κ μ} :
    {A : Type ℓ} {B : Type κ} (P : B → Type μ) (f : A → Option B) (xs : List A)
    → ((a : A) → Holds P (f a))
    → Holds (All P) (each f xs)
unfolding each
each-Holds P f [] h = tt
each-Holds P f (x ∷ xs) h = put_first-Holds P (f x) (each f xs) (h x) (each-Holds P f xs h)

pub choose-Holds {ℓ μ} :
    {A : Type ℓ} (P : A → Type μ) (b : Bool) (x y : Option A)
    → Holds P x
    → Holds P y
    → Holds P (if b then x else y)
choose-Holds P true x y h k = h
choose-Holds P false x y h k = k

module _ {ℓ κ} {K : Type ℓ} {V : Type κ} ⦃e : Comparable K⦄ where
  insert-All {μ} :
      (Q : V → Type μ) (k : K) (v : V) (m : List (K × V))
      → All (λ (r : K × V). Q r.1) m
      → Q v
      → All (λ (r : K × V). Q r.1) (insert k v m)
  unfolding insert
  insert-All Q k v [] h q = (q, tt)
  insert-All Q k v ((other, held) ∷ rest) (p, h) q = elim (Bool-cases (other == k)) [
    | inl same ↦ rw same (q, h)
    | inr new ↦ rw new (p, insert-All Q k v rest h q)
  ]

  lookup-Holds {μ} :
      (Q : V → Type μ) (k : K) (m : List (K × V))
      → All (λ (r : K × V). Q r.1) m
      → Holds Q (lookup k m)
  unfolding lookup
  lookup-Holds Q k [] h = tt
  lookup-Holds Q k ((other, held) ∷ rest) (p, h) =
      choose-Holds Q (other == k) (some held) (lookup k rest) p (lookup-Holds Q k rest h)

  abbrev pub keys : List (K × V) → List K
  keys m = map (λ (r : K × V). r.0) m

  contains-insert :
      (x k : K) (v : V) (m : List (K × V))
      → contains x (keys (insert k v m)) ≡ (contains x (keys m) || k == x)
  unfolding contains insert
  contains-insert x k v [] = ground arith
  contains-insert x k v ((other, held) ∷ rest) =
      ground (arith, contains-insert x k v rest, ==-eq other k, ==-eq other x, ==-eq k x)

  insert-IsDistinct :
      (k : K) (v : V) (m : List (K × V)) → IsDistinct (keys m) → IsDistinct (keys (insert k v m))
  unfolding insert contains
  insert-IsDistinct k v [] h = (refl, tt)
  insert-IsDistinct k v ((other, held) ∷ rest) (n, h) = elim (Bool-cases (other == k)) [
    | inl same ↦ rw same (n, h)
    | inr new ↦ rw new (
      contains-insert other k v rest ∙ ground (arith, n, new, ==-eq other k, ==-eq k other),
      insert-IsDistinct k v rest h,
    )
  ]

  length-insert : (k : K) (v : V) (m : List (K × V)) → length (insert k v m) ≤ suc (length m)
  unfolding insert
  length-insert k v [] = omega arith
  length-insert k v ((other, held) ∷ rest) = elim (Bool-cases (other == k)) [
    | inl same ↦ rw same (omega arith)
    | inr new ↦ rw new (omega (arith, length-insert k v rest))
  ]

-- A rule has fallbacks, each once.
abbrev pub IsRule : List Text → Type 0
IsRule fallbacks = (1 ≤ length fallbacks) × IsDistinct fallbacks

-- At most `n` models, each once, and with such rules.
abbrev pub AreRules : ℕ → List (Text × List Text) → Type 0
AreRules n rules =
    (length rules ≤ n) × IsDistinct (keys rules) × All (λ (r : Text × List Text). IsRule r.1) rules

length-dedupe : (xs : List Text) → 1 ≤ length xs → 1 ≤ length (dedupe xs)
unfolding dedupe dedupe_from contains
length-dedupe [] h = h
length-dedupe (x ∷ xs) h = omega arith

length-later : (xs ys : List Text) → 1 ≤ length ys → 1 ≤ length (xs ++ ys)
length-later [] ys h = h
length-later (x ∷ xs) ys h = omega arith

check_fallbacks-Holds : (names : List Text) → Holds (λ l. 1 ≤ length l) (check_fallbacks names)
unfolding check_fallbacks
check_fallbacks-Holds names =
    elim (Bool-cases (ltb (length (dedupe names)) 1 || ltb 50 (length (dedupe names)))) [
      | inl e ↦ rw e tt
      | inr e ↦ rw e (ground (arith, e))
    ]

normalize_fallbacks-Holds : (o : Option Json) → Holds (λ l. 1 ≤ length l) (normalize_fallbacks o)
unfolding normalize_fallbacks
normalize_fallbacks-Holds none = tt
normalize_fallbacks-Holds (some (Json.arr vs)) =
    and_then-Holds Anything (λ l. 1 ≤ length l)
      (each (λ v. normalize_model_name (some v)) (elems vs)) check_fallbacks
      (anything (each (λ v. normalize_model_name (some v)) (elems vs)))
      (λ l u. check_fallbacks-Holds l)
normalize_fallbacks-Holds (some Json.null) = tt
normalize_fallbacks-Holds (some (Json.bool b)) = tt
normalize_fallbacks-Holds (some (Json.num n)) = tt
normalize_fallbacks-Holds (some (Json.str s)) = tt
normalize_fallbacks-Holds (some (Json.obj ps)) = tt

merge_rule-AreRules :
    (n : ℕ) (rules : List (Text × List Text)) (model : Text) (fallbacks : List Text)
    → AreRules n rules
    → 1 ≤ length fallbacks
    → AreRules (suc n) (merge_rule rules model fallbacks)
unfolding merge_rule
merge_rule-AreRules n rules model fallbacks (few, once, good) h =
    let merged = dedupe (or_else (lookup model rules) [] ++ fallbacks) in
    (
      omega (arith, length-insert model merged rules),
      insert-IsDistinct model merged rules once,
      insert-All IsRule model merged rules good (
        length-dedupe _ (length-later (or_else (lookup model rules) []) fallbacks h),
        dedupe-IsDistinct _,
      ),
    )

add_rule-Holds :
    (n : ℕ) (rules : List (Text × List Text)) (item : Json)
    → AreRules n rules
    → Holds (AreRules (suc n)) (add_rule rules item)
unfolding add_rule
add_rule-Holds n rules (Json.obj item) h =
    and_then-Holds Anything (AreRules (suc n)) (normalize_model_name (get (codes "model") item)) _
      (anything (normalize_model_name (get (codes "model") item)))
      (λ model u.
        map-Holds (λ l. 1 ≤ length l) (AreRules (suc n))
          (normalize_fallbacks (get (codes "fallbacks") item)) (merge_rule rules model)
          (normalize_fallbacks-Holds (get (codes "fallbacks") item))
          (λ fallbacks k. merge_rule-AreRules n rules model fallbacks h k))
add_rule-Holds n rules Json.null h = tt
add_rule-Holds n rules (Json.bool b) h = tt
add_rule-Holds n rules (Json.num x) h = tt
add_rule-Holds n rules (Json.str s) h = tt
add_rule-Holds n rules (Json.arr vs) h = tt

-- A list of rules adds at most one model for each entry.
pub add_rules-Holds :
    (n m : ℕ) (rules : List (Text × List Text)) (items : List Json)
    → n + length items ≡ m
    → AreRules n rules
    → Holds (AreRules m) (add_rules rules items)
unfolding add_rules
add_rules-Holds n m rules [] e h =
    let same : n ≡ m = omega arith in subst (λ i. AreRules i rules) same h
add_rules-Holds n m rules (item ∷ items) e h =
    let next_bound : suc n + length items ≡ m = omega arith in
    and_then-Holds (AreRules (suc n)) (AreRules m) (add_rule rules item)
      (λ next. add_rules next items) (add_rule-Holds n rules item h)
      (λ next k. add_rules-Holds (suc n) m next items next_bound k)
