-- ===== src/Routing/Listing.antt =====
-- The list of models has each model of a type once.
use mathlib.Core.Bool.{false≢true}
use llmrelay_service.Base.{
  ◌≡◌, refl, sym, ap, subst, ◌∙◌, inl, inr, Bool, true, false, ◌&&◌, ◌||◌, Option, none, some, List,
  [], ◌∷◌, ◌++◌, map, Text, arith, codes, if◌then◌else◌, Bool-cases, ◌==◌, ==-eq, list_eq, nat_eq,
  contains, IsDistinct, sort_by,
}
use llmrelay_service.Routing.Types.{Model, ConfigEntry, AliasTarget, ModelInfo, Tables}
use llmrelay_service.Routing.Tables.{is_enabled, is_direct_routing_entry}
use llmrelay_service.Routing.Routes.{comes_before, provider_type}
use llmrelay_service.Routing.Resolve.{targets_of}
use llmrelay_service.Routing.Models.{
  Listing, model_key, add_model, add_models, add_channels, add_aliases, first_route, infos_of,
  is_visible, context_of, get_models, add_alias,
}

-- `seenModelKeys` has the keys of the models so far, each once.
abbrev IsOnce : Listing → Type 0
IsOnce l = (l.seen ≡ map model_key l.models) × IsDistinct l.seen

contains-snoc :
    (k j : Text) (xs : List Text) → contains k (xs ++ j ∷ []) ≡ (contains k xs || j == k)
unfolding contains
contains-snoc k j [] = ground arith
contains-snoc k j (x ∷ xs) = ground (arith, contains-snoc k j xs)

snoc-IsDistinct :
    (j : Text) (xs : List Text) → IsDistinct xs → contains j xs ≡ false → IsDistinct (xs ++ j ∷ [])
unfolding contains
snoc-IsDistinct j [] h e = (refl, tt)
snoc-IsDistinct j (x ∷ xs) (n, h) e = elim (Bool-cases (x == j)) [
  | inl q ↦ absurd (false≢true (sym e ∙ ap (λ b. b || contains j xs) q))
  | inr q ↦ (
    contains-snoc x j xs ∙ ground (arith, n, q, swap x j q),
    snoc-IsDistinct j xs h (ground (arith, e, q)),
  )
]
  where
    swap : (a b : Text) → (a == b) ≡ false → (b == a) ≡ false
    swap a b q = elim (Bool-cases (b == a)) [
      | inl e ↦ absurd (false≢true (sym q ∙ (==-eq a b).1 (sym ((==-eq b a).0 e))))
      | inr e ↦ e
    ]

map-snoc :
    (xs : List ModelInfo) (x : ModelInfo)
    → map model_key (xs ++ x ∷ []) ≡ map model_key xs ++ model_key x ∷ []
map-snoc [] x = refl
map-snoc (y ∷ xs) x = ap (λ l. model_key y ∷ l) (map-snoc xs x)

add_model-IsOnce : (l : Listing) (info : ModelInfo) → IsOnce l → IsOnce (add_model l info)
unfolding add_model
add_model-IsOnce l info (e, d) = elim (Bool-cases (contains (model_key info) l.seen)) [
  | inl h ↦ rw h (e, d)
  | inr h ↦ rw h (
    ap (λ s. s ++ model_key info ∷ []) e ∙ sym (map-snoc l.models info),
    snoc-IsDistinct (model_key info) l.seen d h,
  )
]

add_models-IsOnce : (l : Listing) (infos : List ModelInfo) → IsOnce l → IsOnce (add_models l infos)
unfolding add_models
add_models-IsOnce l [] h = h
add_models-IsOnce l (info ∷ infos) h =
    add_models-IsOnce (add_model l info) infos (add_model-IsOnce l info h)

choose-IsOnce : (b : Bool) (l m : Listing) → IsOnce l → IsOnce m → IsOnce (if b then l else m)
choose-IsOnce true l m h k = h
choose-IsOnce false l m h k = k

add_channels-IsOnce :
    (l : Listing) (cs : List (Text × ConfigEntry)) → IsOnce l → IsOnce (add_channels l cs)
unfolding add_channels
add_channels-IsOnce l [] h = h
add_channels-IsOnce l (c ∷ cs) h =
    let open_to_all = is_enabled c.1 && is_direct_routing_entry c.1 in
    add_channels-IsOnce (if open_to_all then add_models l (infos_of c) else l) cs (
      choose-IsOnce open_to_all (add_models l (infos_of c)) l (add_models-IsOnce l (infos_of c) h)
        h)

add_alias-IsOnce :
    (l : Listing) (alias : Text) (o : Option (ConfigEntry × Option Model))
    → IsOnce l
    → IsOnce (add_alias l alias o)
unfolding add_alias
add_alias-IsOnce l alias none h = h
add_alias-IsOnce l alias (some (entry, matched)) h =
    add_model-IsOnce l
      (record {
        id = alias;
        channel_name = codes "virtual-route";
        type = provider_type entry;
        context = context_of matched;
      })
      h

add_aliases-IsOnce :
    (tables : Tables) (l : Listing) (aliases : List (Text × AliasTarget))
    → IsOnce l
    → IsOnce (add_aliases tables l aliases)
unfolding add_aliases
add_aliases-IsOnce tables l [] h = h
add_aliases-IsOnce tables l ((alias, target) ∷ aliases) h =
    let found = first_route tables (targets_of target) in
    add_aliases-IsOnce tables (if is_visible target then add_alias l alias found else l) aliases (
      choose-IsOnce (is_visible target) (add_alias l alias found) l
        (add_alias-IsOnce l alias found h) h)

-- `getModels` lists no model twice for one type, whether it is a channel's model or an alias.
pub get_models-IsDistinct :
    (locale_before : Text → Text → Bool) (tables : Tables)
    → IsDistinct (map model_key (get_models locale_before tables))
unfolding get_models
get_models-IsDistinct locale_before tables =
    let channels =
      add_channels (record { seen = []; models = [] })
        (sort_by (comes_before locale_before) tables.provider_configs) in
    let once = add_aliases-IsOnce tables channels tables.alias_configs (
      add_channels-IsOnce (record { seen = []; models = [] })
        (sort_by (comes_before locale_before) tables.provider_configs) (refl, tt)) in
    subst IsDistinct once.0 once.1
