-- ===== src/Routing/Selection.antt =====
-- Which channels serve a model, and in which order.
use mathlib.Core.Bool.{false≢true}
use llmrelay_service.Base.{
  ◌&&◌, ◌||◌, ◌≡◌, refl, sym, ap, subst, ◌∙◌, ◌↔◌, ◌⊎◌, inl, inr, Bool, true, false, not, Option,
  List, [], ◌∷◌, Text, arith, if◌then◌else◌, Bool-cases, ◌==◌, ==-eq, ==_self, list_eq, nat_eq,
  int_eq, ℤ, pos, negsuc, ltb_ℤ, or_else, filter, All, All-filter, filter-All, All-lookup, In, here,
  there, sort_by, sort_by-All, sort_by-In, IsSorted, sort_by-IsSorted,
}
use llmrelay_service.Routing.Types.{Upstream, ConfigEntry, Tables}
use llmrelay_service.Routing.Tables.{is_enabled, is_direct_routing_entry}
use llmrelay_service.Routing.Routes.{
  has_type, lists_model, comes_before, serves, find_routes_by_model,
}

module _ {ℓ} {A : Type ℓ} where
  pub In-filter : (p : A → Bool) (a : A) (xs : List A) → In a xs → p a ≡ true → In a (filter p xs)
  unfolding filter
  In-filter p a [] i e = elim i [ ]
  In-filter p a (x ∷ xs) (here q) e = elim (Bool-cases (p x)) [
    | inl h ↦ rw h (here q)
    | inr h ↦ let same : p a ≡ p x = ap p q in absurd (false≢true (sym h ∙ (sym same ∙ e)))
  ]
  In-filter p a (x ∷ xs) (there i) e = elim (Bool-cases (p x)) [
    | inl h ↦ rw h (there (In-filter p a xs i e))
    | inr h ↦ rw h (In-filter p a xs i e)
  ]

  pub All-In {κ} : (P : A → Type κ) (ys : List A) → ((y : A) → In y ys → P y) → All P ys
  All-In P [] f = tt
  All-In P (y ∷ ys) f = (f y (here refl), All-In P ys (λ z i. f z (there i)))

  IsSorted-filter :
      (before : A → A → Bool) (p : A → Bool) (xs : List A)
      → IsSorted before xs
      → IsSorted before (filter p xs)
  unfolding filter
  IsSorted-filter before p [] h = tt
  IsSorted-filter before p (x ∷ xs) (h, hs) = elim (Bool-cases (p x)) [
    | inl e ↦ rw e (All-filter (λ y. before y x ≡ false) p xs h, IsSorted-filter before p xs hs)
    | inr e ↦ rw e (IsSorted-filter before p xs hs)
  ]

pub In-found :
    (locale_before : Text → Text → Bool) (tables : Tables) (model : Text)
    (expected : Option Upstream) (include_explicit_only : Bool) (c : Text × ConfigEntry)
    → In c (find_routes_by_model locale_before tables model expected include_explicit_only)
      ↔ (In c tables.provider_configs × (serves model expected include_explicit_only c ≡ true))
unfolding find_routes_by_model
In-found locale_before tables model expected include_explicit_only c =
    let p = serves model expected include_explicit_only in
    let before = comes_before locale_before in
    let configs = tables.provider_configs in
    (
      λ i. (
        All-lookup (λ x. In x configs) c (filter p (sort_by before configs))
            (All-filter (λ x. In x configs) p (sort_by before configs)
              (sort_by-All before (λ x. In x configs) configs
                (All-In (λ x. In x configs) configs (λ y i. i))))
            i,
        All-lookup (λ x. p x ≡ true) c (filter p (sort_by before configs))
            (filter-All p (sort_by before configs)) i,
      ),
      λ h. In-filter p c (sort_by before configs) (sort_by-In before c configs h.0) h.1,
    )

all_four :
    (a b c d : Bool) → (a && b && c && d) ≡ true → (a ≡ true) × (b ≡ true) × (c ≡ true) × (d ≡ true)
all_four a b c d h = ground arith

from_four : (a b c d : Bool) → a ≡ true → b ≡ true → c ≡ true → d ≡ true → (a && b && c && d) ≡ true
from_four a b c d h i j k = ground arith

-- `findRoutesByModel` finds exactly the configured channels that are enabled, that are reached
-- without naming them unless the option includes the others, that have the type if one is asked
-- for, and that list the model.
pub find_routes_by_model_exact :
    (locale_before : Text → Text → Bool) (tables : Tables) (model : Text)
    (expected : Option Upstream) (include_explicit_only : Bool) (c : Text × ConfigEntry)
    → In c (find_routes_by_model locale_before tables model expected include_explicit_only) ↔ (
        In c tables.provider_configs
        × (is_enabled c.1 ≡ true)
        × ((include_explicit_only || is_direct_routing_entry c.1) ≡ true)
        × (has_type expected c.1 ≡ true)
        × (lists_model model c.1 ≡ true))
find_routes_by_model_exact locale_before tables model expected include_explicit_only c =
    let direct = include_explicit_only || is_direct_routing_entry c.1 in
    let found = In-found locale_before tables model expected include_explicit_only c in
    (
      λ i.
          let (configured, served) = found.0 i in
          let (enabled, reached, typed, listed) =
            all_four (is_enabled c.1) direct (has_type expected c.1) (lists_model model c.1)
              served in
          (configured, enabled, reached, typed, listed),
      λ h.
          let (configured, enabled, reached, typed, listed) = h in
          found.1 (
            configured,
            from_four (is_enabled c.1) direct (has_type expected c.1) (lists_model model c.1)
                enabled reached typed listed,
          ),
    )

lt_asym : (p q : ℤ) → ltb_ℤ q p ≡ true → ltb_ℤ p q ≡ false
lt_asym p q h = ground arith

lt_total : (p q : ℤ) → ltb_ℤ q p ≡ false → ltb_ℤ p q ≡ false → p ≡ q
lt_total (pos a) (pos b) h k = ground arith
lt_total (pos a) (negsuc b) h k = ground arith
lt_total (negsuc a) (pos b) h k = ground arith
lt_total (negsuc a) (negsuc b) h k = ground arith

lt_irrefl : (p : ℤ) → ltb_ℤ p p ≡ false
lt_irrefl p = ground arith

lt_trans : (p q r : ℤ) → ltb_ℤ p q ≡ true → ltb_ℤ q r ≡ true → ltb_ℤ p r ≡ true
lt_trans p q r h k = ground arith

differ : (p q : ℤ) → ltb_ℤ p q ≡ true → (q == p) ≡ false
differ p q h = elim (Bool-cases (q == p)) [
  | inl e ↦
      let same : ltb_ℤ p q ≡ ltb_ℤ p p = ap (λ z. ltb_ℤ p z) ((==-eq q p).0 e) in
      absurd (false≢true (sym (lt_irrefl p) ∙ (sym same ∙ h)))
  | inr e ↦ e
]

Eq_sym : (p q : ℤ) → (p == q) ≡ false → (q == p) ≡ false
Eq_sym p q h = elim (Bool-cases (q == p)) [
  | inl e ↦ absurd (false≢true (sym h ∙ (==-eq p q).1 (sym ((==-eq q p).0 e))))
  | inr e ↦ e
]

-- The comparison by priority first
abbrev by_priority : ℤ → ℤ → Bool → Bool
by_priority p q l = if not (q == p) then ltb_ℤ q p else l

by_priority_lt : (p q : ℤ) (l : Bool) → ltb_ℤ q p ≡ true → by_priority p q l ≡ true
by_priority_lt p q l h = ground (arith, differ q p h, Eq_sym p q, h)

by_priority_gt : (p q : ℤ) (l : Bool) → ltb_ℤ p q ≡ true → by_priority p q l ≡ false
by_priority_gt p q l h = ground (arith, differ p q h, lt_asym q p h)

by_priority_eq : (p : ℤ) (l : Bool) → by_priority p p l ≡ l
by_priority_eq p l = ground (arith, ==_self p)

by_priority_same : (p q : ℤ) (l : Bool) → p ≡ q → by_priority p q l ≡ l
by_priority_same p q l h = rw h (by_priority_eq q l)

-- Priorities compare one of three ways.
data Compared (p q : ℤ) : Type 0 where
  less : ltb_ℤ p q ≡ true → Compared p q
  same : p ≡ q → Compared p q
  more : ltb_ℤ q p ≡ true → Compared p q

compared : (p q : ℤ) → Compared p q
compared p q = elim (Bool-cases (ltb_ℤ p q)) [
  | inl h ↦ less h
  | inr h ↦ elim (Bool-cases (ltb_ℤ q p)) [ inl k ↦ more k | inr k ↦ same (lt_total p q k h) ]
]

by_priority_trans :
    (p q r : ℤ) (l m n : Bool)
    → (l ≡ false → m ≡ false → n ≡ false)
    → by_priority q p l ≡ false
    → by_priority r q m ≡ false
    → by_priority r p n ≡ false
by_priority_trans p q r l m n h e f = elim (compared q p) [
  | more a ↦ absurd (false≢true (sym e ∙ by_priority_lt q p l a))
  | less a ↦ elim (compared r q) [
    | more b ↦ absurd (false≢true (sym f ∙ by_priority_lt r q m b))
    | less b ↦ by_priority_gt r p n (lt_trans r q p b a)
    | same b ↦ by_priority_gt r p n (subst (λ z. ltb_ℤ z p ≡ true) (sym b) a)
  ]
  | same a ↦ elim (compared r q) [
    | more b ↦ absurd (false≢true (sym f ∙ by_priority_lt r q m b))
    | less b ↦ by_priority_gt r p n (subst (λ z. ltb_ℤ r z ≡ true) a b)
    | same b ↦
        by_priority_same r p n (b ∙ a)
        ∙ h (sym (by_priority_same q p l a) ∙ e) (sym (by_priority_same r q m b) ∙ f)
  ]
]

module _ (locale_before : Text → Text → Bool) where
  before_asym :
      ((a b : Text) → locale_before a b ≡ true → locale_before b a ≡ false)
      → (x y : Text × ConfigEntry) → comes_before locale_before x y ≡ true
      → comes_before locale_before y x ≡ false
  unfolding comes_before
  before_asym asym x y e =
      let p = or_else x.1.priority (pos 0) in
      let q = or_else y.1.priority (pos 0) in
      elim (compared p q) [
        | less h ↦ absurd (false≢true (sym (by_priority_gt p q (locale_before x.0 y.0) h) ∙ e))
        | more h ↦ by_priority_gt q p (locale_before y.0 x.0) h
        | same h ↦
            by_priority_same q p (locale_before y.0 x.0) (sym h)
            ∙ asym x.0 y.0 (sym (by_priority_same p q (locale_before x.0 y.0) h) ∙ e)
      ]

  before_trans :
      ((a b c : Text)
        → locale_before b a ≡ false
        → locale_before c b ≡ false
        → locale_before c a ≡ false)
      → (x y z : Text × ConfigEntry) → comes_before locale_before y x ≡ false
      → comes_before locale_before z y ≡ false
      → comes_before locale_before z x ≡ false
  unfolding comes_before
  before_trans trans x y z e f =
      by_priority_trans (or_else x.1.priority (pos 0)) (or_else y.1.priority (pos 0))
        (or_else z.1.priority (pos 0)) (locale_before y.0 x.0) (locale_before z.0 y.0)
        (locale_before z.0 x.0) (trans x.0 y.0 z.0) e f

-- A channel may stand in front of another: its priority is higher, or they agree and its name does
-- not come after the other's. A channel without a priority has 0.
unfoldable pub MayPrecede : (Text → Text → Bool) → Text × ConfigEntry → Text × ConfigEntry → Type 0
MayPrecede locale_before x y =
    (ltb_ℤ (or_else y.1.priority (pos 0)) (or_else x.1.priority (pos 0)) ≡ true)
    ⊎ ((or_else x.1.priority (pos 0) ≡ or_else y.1.priority (pos 0))
        × (locale_before y.0 x.0 ≡ false))

-- Every channel may stand in front of all later ones.
abbrev pub IsRanked : (Text → Text → Bool) → List (Text × ConfigEntry) → Type 0
IsRanked locale_before [] = Unit
IsRanked locale_before (x ∷ xs) = All (MayPrecede locale_before x) xs × IsRanked locale_before xs

module _ (locale_before : Text → Text → Bool) where
  may_precede :
      (x y : Text × ConfigEntry)
      → comes_before locale_before y x ≡ false
      → MayPrecede locale_before x y
  unfolding comes_before MayPrecede
  may_precede x y e =
      let p = or_else y.1.priority (pos 0) in
      let q = or_else x.1.priority (pos 0) in
      elim (compared p q) [
        | less h ↦ inl h
        | more h ↦ absurd (false≢true (sym e ∙ by_priority_lt p q (locale_before y.0 x.0) h))
        | same h ↦ inr (sym h, sym (by_priority_same p q (locale_before y.0 x.0) h) ∙ e)
      ]

  All-after :
      (x : Text × ConfigEntry) (ys : List (Text × ConfigEntry))
      → All (λ y. comes_before locale_before y x ≡ false) ys
      → All (MayPrecede locale_before x) ys
  All-after x [] h = tt
  All-after x (y ∷ ys) (e, h) = (may_precede x y e, All-after x ys h)

  sorted-IsRanked :
      (xs : List (Text × ConfigEntry))
      → IsSorted (comes_before locale_before) xs
      → IsRanked locale_before xs
  sorted-IsRanked [] h = tt
  sorted-IsRanked (x ∷ xs) (h, hs) = (All-after x xs h, sorted-IsRanked xs hs)

-- The channels that `findRoutesByModel` finds stand in the order of their priorities, the highest
-- first, and of their names where priorities agree, if `localeCompare` orders the names.
pub find_routes_by_model-IsRanked :
    (locale_before : Text → Text → Bool) (tables : Tables) (model : Text)
    (expected : Option Upstream) (include_explicit_only : Bool)
    → ((a b : Text) → locale_before a b ≡ true → locale_before b a ≡ false)
    → ((a b c : Text)
        → locale_before b a ≡ false
        → locale_before c b ≡ false
        → locale_before c a ≡ false)
    → IsRanked locale_before
        (find_routes_by_model locale_before tables model expected include_explicit_only)
unfolding find_routes_by_model
find_routes_by_model-IsRanked locale_before tables model expected include_explicit_only asym trans =
    let before = comes_before locale_before in
    sorted-IsRanked locale_before _ (
      IsSorted-filter before (serves model expected include_explicit_only)
        (sort_by before tables.provider_configs)
        (sort_by-IsSorted before (before_asym locale_before asym) (before_trans locale_before trans)
          tables.provider_configs))
