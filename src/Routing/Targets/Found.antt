-- ===== src/Routing/Targets/Found.antt =====
-- What a search for routes gives, and what its helpers keep
use mathlib.Core.Bool.{false≢true}
use llmrelay_service.Base.{
  put_first, each, ◌≡◌, refl, sym, ap, ◌∙◌, inl, inr, Bool, true, false, ◌&&◌, Option, none, some,
  List, [], ◌∷◌, ◌++◌, map, Text, arith, Bool-cases, ◌==◌, ==-eq, ==_self, list_eq, nat_eq, or_else,
  lookup, contains, IsDistinct, All, In, here, there,
}
use mathlib.Core.Option
use llmrelay_service.Routing.Types.{
  Upstream, anthropic, openai, upstream_beq, Mode, ConfigEntry, RouteResult, Tables,
}
use llmrelay_service.Routing.Tables.{is_enabled}
use llmrelay_service.Routing.Routes.{
  has_type, provider_type, normalized_path, get_open_ai_responses_mode, route_with, with_mode,
  build_route_result, route_key, dedupe_onto, dedupe_route_results,
}
use llmrelay_service.Routing.Resolve.{present, flatten}

abbrev pub HasModes : Tables → Type 0
HasModes tables =
    (c : Text × ConfigEntry)
    → In c tables.provider_configs
    → (mode : Mode) × (get_open_ai_responses_mode c.1 ≡ some mode)

-- The route leads to a configured and enabled channel of the type, at its base address.
abbrev pub Backed : Tables → Upstream → Text → Text → RouteResult → Type 0
Backed tables expected pathname query r =
    (entry : ConfigEntry) × In (r.channel_name, entry) tables.provider_configs
    × (is_enabled entry ≡ true)
    × (r.type ≡ expected)
    × (r.target_url ≡ entry.target_base_url ++ (normalized_path expected pathname ++ query))

-- `f` does not throw, and what it returns has the property.
abbrev pub Gives {ℓ κ} : {A : Type ℓ} → (A → Type κ) → Option A → Type (ℓ ⊔ κ)
Gives {A = A} P o = (a : A) × (o ≡ some a) × P a

type_matches :
    (t : Upstream) (o : Option Upstream)
    → elim o [ none ↦ false | some u ↦ upstream_beq u t ] ≡ true
    → o ≡ some t
type_matches anthropic (some anthropic) h = refl
type_matches openai (some openai) h = refl
type_matches anthropic (some openai) h = cc
type_matches openai (some anthropic) h = cc
type_matches t none h = cc

has_type_lem :
    (t : Upstream) (entry : ConfigEntry) → has_type (some t) entry ≡ true → entry.type ≡ some t
has_type_lem t entry h = type_matches t entry.type h

pub each-Gives {ℓ κ μ} :
    {A : Type ℓ} {B : Type κ} (f : A → Option B) (P : B → Type μ) (xs : List A)
    → All (λ x. Gives P (f x)) xs
    → Gives (All P) (each f xs)
unfolding each
each-Gives f P [] h = ([], refl, tt)
each-Gives f P (x ∷ xs) ((y, e, p), h) =
    let (ys, es, ps) = each-Gives f P xs h in
    (y ∷ ys, ap (λ o. put_first o (each f xs)) e ∙ ap (λ r. put_first (some y) r) es, (p, ps))

-- A property of what is not `null`
abbrev pub Maybe {ℓ κ} : {A : Type ℓ} → (A → Type κ) → Option A → Type κ
Maybe P none = Unit
Maybe P (some a) = P a

pub present-All {ℓ κ} :
    {A : Type ℓ} (P : A → Type κ) (xs : List (Option A)) → All (Maybe P) xs → All P (present xs)
unfolding present
present-All P [] h = tt
present-All P (none ∷ xs) (p, h) = present-All P xs h
present-All P (some x ∷ xs) (p, h) = (p, present-All P xs h)

with_mode-some :
    (t : Upstream) (mode : Option Mode) (m : Mode) (route : Option Mode → RouteResult)
    → mode ≡ some m
    → (given : Option Mode) × (with_mode t mode route ≡ some (route given))
with_mode-some anthropic mode m route e = (none, refl)
with_mode-some openai mode m route e = (some m, ap (λ o. with_mode openai o route) e)

pub build-Gives :
    (tables : Tables) (expected : Upstream) (pathname query : Text) (model : Option Text)
    (c : Text × ConfigEntry)
    → HasModes tables
    → In c tables.provider_configs
    → is_enabled c.1 ≡ true
    → has_type (some expected) c.1 ≡ true
    → Gives
        (Backed tables expected pathname query)
        (build_route_result c.0 c.1 pathname query model)
unfolding build_route_result route_with
build-Gives tables expected pathname query model c modes i enabled typed =
    let e : provider_type c.1 ≡ expected =
      ap (λ t. or_else t openai) (has_type_lem expected c.1 typed) in
    let (mode, has) = modes c i in
    let (given, built) =
      with_mode-some (provider_type c.1) (get_open_ai_responses_mode c.1) mode
        (route_with c.0 c.1 pathname query model) has in
    (
      route_with c.0 c.1 pathname query model given,
      built,
      (
        c.1,
        i,
        enabled,
        e,
        ap (λ t. c.1.target_base_url ++ (normalized_path t pathname ++ query)) e,
      ),
    )

pub Gives-none {ℓ κ} : {A : Type ℓ} (P : A → Type κ) → Gives (Maybe P) (some none)
Gives-none P = (none, refl, tt)

pub lookup-In :
    (k : Text) (v : ConfigEntry) (m : List (Text × ConfigEntry)) → lookup k m ≡ some v → In (k, v) m
unfolding lookup
lookup-In k v [] h = cc
lookup-In k v ((j, w) ∷ m) h = elim (Bool-cases (j == k)) [
  | inl e ↦
      let same : w ≡ v = ground (arith, h, e) in
      here (ap (λ x. (x, v)) (sym ((==-eq j k).0 e)) ∙ ap (λ y. (j, y)) (sym same))
  | inr e ↦ there (lookup-In k v m (ground (arith, h, e)))
]

pub &&-split : (a b : Bool) → (a && b) ≡ true → (a ≡ true) × (b ≡ true)
&&-split true b h = (refl, h)
&&-split false b h = absurd (false≢true h)

pub map-Gives {ℓ κ μ ν} :
    {A : Type ℓ} {B : Type κ} (f : A → B) (P : A → Type μ) (Q : B → Type ν) (o : Option A)
    → ((a : A) → P a → Q (f a))
    → Gives P o
    → Gives Q (Option.map f o)
map-Gives f P Q o h (a, e, p) = (f a, ap (Option.map f) e, h a p)

-- What holds of all routes holds of those that are kept.
dedupe_onto-All {κ} :
    (P : RouteResult → Type κ) (seen : List Text) (rs : List RouteResult)
    → All P rs
    → All P (dedupe_onto seen rs)
unfolding dedupe_onto
dedupe_onto-All P seen [] h = tt
dedupe_onto-All P seen (r ∷ rs) (p, h) = elim (Bool-cases (contains (route_key r) seen)) [
  | inl e ↦ rw e (dedupe_onto-All P seen rs h)
  | inr e ↦ rw e (p, dedupe_onto-All P (route_key r ∷ seen) rs h)
]

dedupe_onto-drops :
    (k : Text) (seen : List Text) (rs : List RouteResult)
    → contains k seen ≡ true
    → contains k (map route_key (dedupe_onto seen rs)) ≡ false
unfolding dedupe_onto contains
dedupe_onto-drops k seen [] h = refl
dedupe_onto-drops k seen (r ∷ rs) h = elim (Bool-cases (contains (route_key r) seen)) [
  | inl e ↦ rw e (dedupe_onto-drops k seen rs h)
  | inr e ↦ elim (Bool-cases (route_key r == k)) [
    | inl q ↦
        let same : contains (route_key r) seen ≡ contains k seen =
          ap (λ z. contains z seen) ((==-eq (route_key r) k).0 q) in
        absurd (false≢true (sym e ∙ (same ∙ h)))
    | inr q ↦ rw (e, q) (dedupe_onto-drops k (route_key r ∷ seen) rs (ground (arith, h)))
  ]
]

dedupe_onto-IsDistinct :
    (seen : List Text) (rs : List RouteResult) → IsDistinct (map route_key (dedupe_onto seen rs))
unfolding dedupe_onto contains
dedupe_onto-IsDistinct seen [] = tt
dedupe_onto-IsDistinct seen (r ∷ rs) = elim (Bool-cases (contains (route_key r) seen)) [
  | inl e ↦ rw e (dedupe_onto-IsDistinct seen rs)
  | inr e ↦ rw e (
    dedupe_onto-drops (route_key r) (route_key r ∷ seen) rs (ground (arith, ==_self (route_key r))),
    dedupe_onto-IsDistinct (route_key r ∷ seen) rs,
  )
]

pub dedupe-kept {κ} :
    (P : RouteResult → Type κ) (rs : List RouteResult)
    → All P rs
    → All P (dedupe_route_results rs) × IsDistinct (map route_key (dedupe_route_results rs))
unfolding dedupe_route_results
dedupe-kept P rs h = (dedupe_onto-All P [] rs h, dedupe_onto-IsDistinct [] rs)

pub All-map {ℓ κ μ} :
    {A : Type ℓ} {B : Type κ} (f : A → B) (P : B → Type μ) (xs : List A)
    → All (λ x. P (f x)) xs
    → All P (map f xs)
All-map f P [] h = tt
All-map f P (x ∷ xs) (p, h) = (p, All-map f P xs h)

++-All {ℓ κ} :
    {A : Type ℓ} (P : A → Type κ) (xs ys : List A) → All P xs → All P ys → All P (xs ++ ys)
++-All P [] ys h k = k
++-All P (x ∷ xs) ys (p, h) k = (p, ++-All P xs ys h k)

pub flatten-All {ℓ κ} :
    {A : Type ℓ} (P : A → Type κ) (xss : List (List A)) → All (All P) xss → All P (flatten xss)
unfolding flatten
flatten-All P [] h = tt
flatten-All P (xs ∷ xss) (h, hs) = ++-All P xs (flatten xss) h (flatten-All P xss hs)
