-- ===== src/Base/Maps.antt =====
-- The JavaScript `Map`, `Set` and the array functions that the sources call with a test.
use mathlib.Core.Path.{◌≡◌, refl}
use mathlib.Core.Logic.{inl, inr}
use mathlib.Core.Bool.{Bool, true, false, ◌&&◌, ◌||◌, not}
use mathlib.Core.Option
use mathlib.Core.Option.{Option, none, some}
use mathlib.Core.List.{List, [], ◌∷◌}
use native.Mathlib.Omega.{arith}
use llmrelay_service.Base.Tests.{if◌then◌else◌, Bool-cases}
use llmrelay_service.Base.Keys.{Comparable, ◌==◌, ==-eq, ==_self}

module _ {ℓ κ} {K : Type ℓ} {V : Type κ} ⦃e : Comparable K⦄ where
  unfoldable pub lookup : K → List (K × V) → Option V
  lookup k [] = none
  lookup k ((other, held) ∷ rest) = if other == k then some held else lookup k rest

  -- `map.set(k, v)`
  unfoldable pub insert : K → V → List (K × V) → List (K × V)
  insert k v [] = (k, v) ∷ []
  insert k v ((other, held) ∷ rest) =
      if other == k then (other, v) ∷ rest else (other, held) ∷ insert k v rest

  -- `map.delete(k)`
  unfoldable pub erase : K → List (K × V) → List (K × V)
  erase k [] = []
  erase k ((j, w) ∷ m) = if j == k then erase k m else (j, w) ∷ erase k m

  pub lookup-insert :
      (k j : K) (v : V) (m : List (K × V))
      → lookup j (insert k v m) ≡ (if k == j then some v else lookup j m)
  unfolding lookup insert
  lookup-insert k j v [] = refl
  lookup-insert k j v ((other, held) ∷ rest) =
      ground (arith, lookup-insert k j v rest, ==-eq other j, ==-eq other k, ==-eq k j)

  pub lookup-insert_self : (k : K) (v : V) (m : List (K × V)) → lookup k (insert k v m) ≡ some v
  lookup-insert_self k v m = ground (arith, lookup-insert k k v m, ==_self k)

  pub lookup-erase :
      (k j : K) (m : List (K × V)) → lookup j (erase k m) ≡ (if k == j then none else lookup j m)
  unfolding lookup erase
  lookup-erase k j [] = ground arith
  lookup-erase k j ((i, w) ∷ m) =
      ground (arith, ==-eq k j, ==-eq i k, ==-eq i j, lookup-erase k j m)

  pub lookup-erase_self : (k : K) (m : List (K × V)) → lookup k (erase k m) ≡ none
  lookup-erase_self k m = ground (arith, lookup-erase k k m, ==_self k)

module _ {ℓ} {A : Type ℓ} where
  unfoldable pub filter : (A → Bool) → List A → List A
  filter p [] = []
  filter p (x ∷ xs) = if p x then x ∷ filter p xs else filter p xs

  -- `some` and `every` of an array
  abbrev pub any : (A → Bool) → List A → Bool
  any p [] = false
  any p (x ∷ xs) = p x || any p xs

  abbrev pub all : (A → Bool) → List A → Bool
  all p [] = true
  all p (x ∷ xs) = p x && all p xs

  unfoldable pub find : (A → Bool) → List A → Option A
  find p [] = none
  find p (x ∷ xs) = if p x then some x else find p xs

  -- A predicate on every element, by recursion.
  abbrev pub All {κ} : (A → Type κ) → List A → Type κ
  All P [] = Unit
  All P (x ∷ xs) = P x × All P xs

  -- Membership that shows where.
  pub data In (a : A) : List A → Type ℓ where
    here : {x : A} {xs : List A} → a ≡ x → In a (x ∷ xs)
    there : {x : A} {xs : List A} → In a xs → In a (x ∷ xs)

  pub All-lookup {κ} : (P : A → Type κ) (a : A) (xs : List A) → All P xs → In a xs → P a
  All-lookup P a [] _ i = elim i [ ]
  All-lookup P a (x ∷ xs) (p, ps) (here q) = rw q p
  All-lookup P a (x ∷ xs) (p, ps) (there i) = All-lookup P a xs ps i

  pub filter-All : (p : A → Bool) (xs : List A) → All (λ x. p x ≡ true) (filter p xs)
  unfolding filter
  filter-All p [] = tt
  filter-All p (x ∷ xs) = elim (Bool-cases (p x)) [
    | inl e ↦ rw e (e, filter-All p xs)
    | inr e ↦ rw e (filter-All p xs)
  ]

  pub All-filter {κ} :
      (P : A → Type κ) (p : A → Bool) (xs : List A) → All P xs → All P (filter p xs)
  unfolding filter
  All-filter P p [] h = tt
  All-filter P p (x ∷ xs) (h, hs) = elim (Bool-cases (p x)) [
    | inl e ↦ rw e (h, All-filter P p xs hs)
    | inr e ↦ rw e (All-filter P p xs hs)
  ]

  pub find_sound : (p : A → Bool) (xs : List A) (a : A) → find p xs ≡ some a → p a ≡ true
  unfolding find
  find_sound p [] a h = cc
  find_sound p (x ∷ xs) a h = elim (Bool-cases (p x)) [
    | inl e ↦ ground arith
    | inr e ↦ find_sound p xs a (ground arith)
  ]

module _ {ℓ} {A : Type ℓ} ⦃e : Comparable A⦄ where
  -- `includes`
  unfoldable pub contains : A → List A → Bool
  contains a [] = false
  contains a (x ∷ xs) = x == a || contains a xs

  -- `Array.from(new Set(xs))`: what stands in `seen` is left out.
  unfoldable pub dedupe_from : List A → List A → List A
  unfolding contains
  dedupe_from seen [] = []
  dedupe_from seen (x ∷ xs) =
      let fresh = x ∷ dedupe_from (x ∷ seen) xs in
      let again = dedupe_from seen xs in if contains x seen then again else fresh

  unfoldable pub dedupe : List A → List A
  unfolding dedupe_from
  dedupe xs = dedupe_from [] xs

  pub contains-dedupe_from :
      (a : A) (seen xs : List A)
      → contains a (dedupe_from seen xs) ≡ (contains a xs && not (contains a seen))
  unfolding dedupe_from contains
  contains-dedupe_from a seen [] = refl
  contains-dedupe_from a seen (x ∷ xs) =
      ground
        (arith, contains-dedupe_from a seen xs, contains-dedupe_from a (x ∷ seen) xs, ==-eq x a)

  contains-nil : (a : A) → contains a [] ≡ false
  unfolding contains
  contains-nil a = refl

  -- A `Set` has the elements of the list it is made from.
  pub contains-dedupe : (a : A) (xs : List A) → contains a (dedupe xs) ≡ contains a xs
  unfolding dedupe
  contains-dedupe a xs = ground (arith, contains-dedupe_from a [] xs, contains-nil a)

  -- No element is repeated.
  abbrev pub IsDistinct : List A → Type 0
  IsDistinct [] = Unit
  IsDistinct (x ∷ xs) = (contains x xs ≡ false) × IsDistinct xs

  dedupe_from-drops : (x : A) (seen xs : List A) → contains x (dedupe_from (x ∷ seen) xs) ≡ false
  unfolding contains
  dedupe_from-drops x seen xs = ground (arith, contains-dedupe_from x (x ∷ seen) xs, ==_self x)

  pub dedupe_from-IsDistinct : (seen xs : List A) → IsDistinct (dedupe_from seen xs)
  unfolding dedupe_from
  dedupe_from-IsDistinct seen [] = tt
  dedupe_from-IsDistinct seen (x ∷ xs) = elim (Bool-cases (contains x seen)) [
    | inl old ↦ rw old (dedupe_from-IsDistinct seen xs)
    | inr new ↦ rw new (dedupe_from-drops x seen xs, dedupe_from-IsDistinct (x ∷ seen) xs)
  ]

  pub dedupe-IsDistinct : (xs : List A) → IsDistinct (dedupe xs)
  unfolding dedupe
  dedupe-IsDistinct xs = dedupe_from-IsDistinct [] xs

-- A step that may throw, and what follows it
abbrev pub and_then {ℓ κ} : {A : Type ℓ} {B : Type κ} → Option A → (A → Option B) → Option B
and_then none f = none
and_then (some a) f = f a

abbrev pub put_first {ℓ} : {A : Type ℓ} → Option A → Option (List A) → Option (List A)
put_first none rest = none
put_first (some y) rest = Option.map (λ ys. y ∷ ys) rest

-- `xs.map(f)` where `f` may throw
unfoldable pub each {ℓ κ} : {A : Type ℓ} {B : Type κ} → (A → Option B) → List A → Option (List B)
each f [] = some []
each f (x ∷ xs) = put_first (f x) (each f xs)
