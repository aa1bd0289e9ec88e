-- ===== src/Base/Sorting.antt =====
-- `Array.prototype.sort` with a comparison: a stable sort. `before x y` says that `x` comes strictly
-- in front of `y`.
use mathlib.Core.Path.{◌≡◌, refl}
use mathlib.Core.Logic.{inl, inr}
use mathlib.Core.Bool.{Bool, true, false}
use mathlib.Core.List.{List, [], ◌∷◌}
use llmrelay_service.Base.Tests.{if◌then◌else◌, Bool-cases}
use llmrelay_service.Base.Maps.{All, In, here, there}

module _ {ℓ} {A : Type ℓ} (before : A → A → Bool) where
  -- Behind all that does not come after it
  unfoldable pub insert_sorted : A → List A → List A
  insert_sorted x [] = x ∷ []
  insert_sorted x (y ∷ ys) = if before x y then x ∷ y ∷ ys else y ∷ insert_sorted x ys

  sort_onto : List A → List A → List A
  sort_onto sorted [] = sorted
  sort_onto sorted (x ∷ xs) = sort_onto (insert_sorted x sorted) xs

  unfoldable pub sort_by : List A → List A
  unfolding sort_onto insert_sorted
  sort_by xs = sort_onto [] xs

  -- Nothing later in the list comes in front of an element.
  abbrev pub IsSorted : List A → Type 0
  IsSorted [] = Unit
  IsSorted (x ∷ xs) = All (λ y. before y x ≡ false) xs × IsSorted xs

  insert_sorted-All {κ} :
      (P : A → Type κ) (x : A) (ys : List A) → P x → All P ys → All P (insert_sorted x ys)
  unfolding insert_sorted
  insert_sorted-All P x [] p h = (p, tt)
  insert_sorted-All P x (y ∷ ys) p (q, h) = elim (Bool-cases (before x y)) [
    | inl e ↦ rw e (p, (q, h))
    | inr e ↦ rw e (q, insert_sorted-All P x ys p h)
  ]

  sort_onto-All {κ} :
      (P : A → Type κ) (sorted xs : List A) → All P sorted → All P xs → All P (sort_onto sorted xs)
  unfolding sort_onto
  sort_onto-All P sorted [] h k = h
  sort_onto-All P sorted (x ∷ xs) h (p, k) =
      sort_onto-All P (insert_sorted x sorted) xs (insert_sorted-All P x sorted p h) k

  -- What holds of all elements holds of all elements of the sorted list.
  pub sort_by-All {κ} : (P : A → Type κ) (xs : List A) → All P xs → All P (sort_by xs)
  unfolding sort_by
  sort_by-All P xs h = sort_onto-All P [] xs tt h

  module _ (asym : (x y : A) → before x y ≡ true → before y x ≡ false)
      (trans : (x y z : A) → before y x ≡ false → before z y ≡ false → before z x ≡ false) where
    later-All :
        (x y : A) (ys : List A)
        → before y x ≡ false
        → All (λ z. before z y ≡ false) ys
        → All (λ z. before z x ≡ false) ys
    later-All x y [] e h = tt
    later-All x y (z ∷ zs) e (p, h) = (trans x y z e p, later-All x y zs e h)

    insert_sorted-IsSorted : (x : A) (ys : List A) → IsSorted ys → IsSorted (insert_sorted x ys)
    unfolding insert_sorted
    insert_sorted-IsSorted x [] h = (tt, tt)
    insert_sorted-IsSorted x (y ∷ ys) (a, h) = elim (Bool-cases (before x y)) [
      | inl e ↦ rw e ((asym x y e, later-All x y ys (asym x y e) a), (a, h))
      | inr e ↦
          rw e (insert_sorted-All (λ z. before z y ≡ false) x ys e a, insert_sorted-IsSorted x ys h)
    ]

    sort_onto-IsSorted : (sorted xs : List A) → IsSorted sorted → IsSorted (sort_onto sorted xs)
    unfolding sort_onto
    sort_onto-IsSorted sorted [] h = h
    sort_onto-IsSorted sorted (x ∷ xs) h =
        sort_onto-IsSorted (insert_sorted x sorted) xs (insert_sorted-IsSorted x sorted h)

    pub sort_by-IsSorted : (xs : List A) → IsSorted (sort_by xs)
    unfolding sort_by
    sort_by-IsSorted xs = sort_onto-IsSorted [] xs tt

  insert_sorted-here : (x : A) (ys : List A) → In x (insert_sorted x ys)
  unfolding insert_sorted
  insert_sorted-here x [] = here refl
  insert_sorted-here x (y ∷ ys) = elim (Bool-cases (before x y)) [
    | inl e ↦ rw e (here refl)
    | inr e ↦ rw e (there (insert_sorted-here x ys))
  ]

  insert_sorted-there : (a x : A) (ys : List A) → In a ys → In a (insert_sorted x ys)
  unfolding insert_sorted
  insert_sorted-there a x [] i = elim i [ ]
  insert_sorted-there a x (y ∷ ys) (here e) = elim (Bool-cases (before x y)) [
    | inl f ↦ rw f (there (here e))
    | inr f ↦ rw f (here e)
  ]
  insert_sorted-there a x (y ∷ ys) (there i) = elim (Bool-cases (before x y)) [
    | inl f ↦ rw f (there (there i))
    | inr f ↦ rw f (there (insert_sorted-there a x ys i))
  ]

  sort_onto-left : (a : A) (sorted xs : List A) → In a sorted → In a (sort_onto sorted xs)
  unfolding sort_onto
  sort_onto-left a sorted [] i = i
  sort_onto-left a sorted (x ∷ xs) i =
      sort_onto-left a (insert_sorted x sorted) xs (insert_sorted-there a x sorted i)

  sort_onto-right : (a : A) (sorted xs : List A) → In a xs → In a (sort_onto sorted xs)
  unfolding sort_onto
  sort_onto-right a sorted [] i = elim i [ ]
  sort_onto-right a sorted (x ∷ xs) (here e) =
      rw e (sort_onto-left x (insert_sorted x sorted) xs (insert_sorted-here x sorted))
  sort_onto-right a sorted (x ∷ xs) (there i) = sort_onto-right a (insert_sorted x sorted) xs i

  -- Sorting loses no element.
  pub sort_by-In : (a : A) (xs : List A) → In a xs → In a (sort_by xs)
  unfolding sort_by
  sort_by-In a xs i = sort_onto-right a [] xs i
