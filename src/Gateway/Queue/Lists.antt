-- ===== src/Gateway/Queue/Lists.antt =====
-- Lists of routes: what filtering, taking and appending keep, and when a channel is in no pause
use llmrelay_service.Base.{
  ℕ, zero, suc, ◌+◌, ◌-◌, ◌≤◌, Bool, true, false, not, none, List, [], ◌∷◌, ◌++◌, if◌then◌else◌,
  ◌&&◌, ◌||◌, ◌≡◌, refl, subst, ap, inl, inr, Text, length, take, map, ◌==◌, list_eq, nat_eq, ltb,
  leb, arith, Bool-cases, contains, All, ==_self, In, here, there, filter, if_true, if_false,
}
use llmrelay_service.Cooldown.{Entries, get_remaining_ms}

pub disabled_none :
    (entries : Entries) (channel model : Text) (enabled : Bool) (now : ℕ)
    → enabled ≡ false
    → (get_remaining_ms entries channel model enabled now).1 ≡ none
unfolding get_remaining_ms
disabled_none entries channel model true now h = cc
disabled_none entries channel model false now h = refl

pub and_false_right : (a : Bool) → (a && false) ≡ false
and_false_right true = refl
and_false_right false = refl

or_assoc : (a b c : Bool) → (a || (b || c)) ≡ ((a || b) || c)
or_assoc true b c = refl
or_assoc false b c = refl

pub contains_append {ℓ} :
    {A : Type ℓ} (f : A → Text) (k : Text) (xs ys : List A)
    → contains k (map f (xs ++ ys)) ≡ (contains k (map f xs) || contains k (map f ys))
unfolding contains
contains_append f k [] ys = refl
contains_append f k (x ∷ xs) ys =
    rw (contains_append f k xs ys)
      (or_assoc (f x == k) (contains k (map f xs)) (contains k (map f ys)))

pub contains-In {ℓ} :
    {A : Type ℓ} (f : A → Text) (x : A) (xs : List A) → In x xs → contains (f x) (map f xs) ≡ true
unfolding contains
contains-In f x [] i = elim i [ ]
contains-In f x (y ∷ xs) (here e) = rw (e, ==_self (f y)) refl
contains-In f x (y ∷ xs) (there i) = rw (contains-In f x xs i) (or_true _)
  where
    or_true : (b : Bool) → (b || true) ≡ true
    or_true true = refl
    or_true false = refl

pub All-In {ℓ κ} :
    {A : Type ℓ} {P : A → Type κ} (xs : List A) → ((x : A) → In x xs → P x) → All P xs
All-In [] h = tt
All-In (x ∷ xs) h = (h x (here refl), All-In xs (λ y i. h y (there i)))

-- What holds of what a filter keeps and of what it drops holds of all.
pub All-by_filter {ℓ κ} :
    {A : Type ℓ} (P : A → Type κ) (p : A → Bool) (xs : List A)
    → All P (filter p xs)
    → ((x : A) → p x ≡ false → P x)
    → All P xs
unfolding filter
All-by_filter P p [] h k = tt
All-by_filter P p (x ∷ xs) h k = elim (Bool-cases (p x)) [
  | inl kept ↦
      let split = subst (All P) (if_true (p x) (x ∷ filter p xs) (filter p xs) kept) h in
      (split.0, All-by_filter P p xs split.1 k)
  | inr dropped ↦ (
    k x dropped,
    All-by_filter P p xs (subst (All P) (if_false (p x) (x ∷ filter p xs) (filter p xs) dropped) h)
        k,
  )
]

pub take_all {ℓ} : {A : Type ℓ} (k : ℕ) (xs : List A) → length xs ≤ k → take k xs ≡ xs
take_all zero [] h = refl
take_all zero (x ∷ xs) h = absurd (omega arith)
take_all (suc k) [] h = refl
take_all (suc k) (x ∷ xs) h = ap (λ ys. x ∷ ys) (take_all k xs (omega arith))

take_nil {ℓ} : {A : Type ℓ} (k : ℕ) → take {A = A} k [] ≡ []
take_nil zero = refl
take_nil (suc k) = refl

pub no_limit : (m f k : ℕ) → leb m 0 ≡ true → m ≤ f + k
no_limit m f k h = ground arith

pub not-false : (b : Bool) → not b ≡ false → b ≡ true
not-false true h = refl
not-false false h = cc

pub shorter : (a b : ℕ) → leb a b ≡ false → b ≤ a
shorter a b h = ground arith

-- Taking what is left of a limit, if there is something and something to take
pub guard_take {ℓ} :
    {A : Type ℓ} (m f : ℕ) (xs : List A)
    → (if ltb f m && ltb 0 (length xs) then take (m - f) xs else []) ≡ take (m - f) xs
guard_take m f [] = rw (and_false_right (ltb f m), take_nil (m - f)) refl
guard_take m f (x ∷ xs) = elim (Bool-cases (ltb f m)) [
  | inl less ↦ rw (less, positive (length xs)) refl
  | inr full ↦ rw (full, nothing_left full) refl
]
  where
    positive : (n : ℕ) → ltb 0 (suc n) ≡ true
    positive n = ground arith

    nothing_left : ltb f m ≡ false → m - f ≡ 0
    nothing_left h = ground arith
