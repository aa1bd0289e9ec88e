-- ===== src/Cooldown/Clearing.antt =====
-- Clearing and listing pauses.
use llmrelay_service.Cooldown.Keys.{parse_key-key}
use mathlib.Core.Bool.{true≢false}
use llmrelay_service.Base.{
  ℕ, ◌+◌, ◌<◌, ◌≡◌, refl, sym, subst, ◌⊎◌, ap, ◌∙◌, Bool, true, false, ◌&&◌, ◌||◌, Option, none,
  some, List, [], ◌∷◌, map, Text, ◌==◌, ==-eq, ==_self, list_eq, nat_eq, lookup, erase,
  lookup-erase, contains, filter, All, arith, if◌then◌else◌, ltb, ltb→lt, Bool-cases, inl, inr,
  IsSorted, sort_by-IsSorted, sort_by-All, if_true, if_false,
}
use llmrelay_service.Cooldown.{
  Entry, Entries, Snapshot, key, matches_one, matches_key, clear_loop, keys_of, clear_cooldowns,
  snapshot_of, expires_before, list_cooldowns,
}

joined {ℓ} :
    {A : Type ℓ} (a c b : Bool) (o : Option A)
    → (if c && b then none else if a && b then none else o) ≡ (if (a || c) && b then none else o)
joined true true b o = ground arith
joined true false b o = refl
joined false true b o = refl
joined false false b o = refl

lookup-visit :
    (channel model : Option Text) (j k : Text) (entries : Entries)
    → lookup k (if matches_key channel model j then erase j entries else entries)
      ≡ (if (j == k) && matches_key channel model k then none else lookup k entries)
lookup-visit channel model j k entries = elim (Bool-cases (j == k)) [
  | inl e ↦ rw ((==-eq j k).0 e) (at_key (matches_key channel model k))
  | inr e ↦ rw e (elsewhere e (matches_key channel model j))
]
  where
    at_key :
        (b : Bool)
        → lookup k (if b then erase k entries else entries)
          ≡ (if (k == k) && b then none else lookup k entries)
    at_key true = rw (==_self k) (lookup-erase k k entries ∙ if_true (k == k) _ _ (==_self k))
    at_key false = rw (==_self k) refl

    elsewhere :
        (j == k) ≡ false
        → (b : Bool) → lookup k (if b then erase j entries else entries) ≡ lookup k entries
    elsewhere e true = lookup-erase j k entries ∙ if_false (j == k) _ _ e
    elsewhere e false = refl

-- After the loop an entry is gone exactly if its key is one of those visited and matches.
lookup-clear_loop :
    (channel model : Option Text) (ks : List Text) (entries : Entries) (n : ℕ) (k : Text)
    → lookup k (clear_loop channel model ks entries n).0
      ≡ (if contains k ks && matches_key channel model k then none else lookup k entries)
unfolding clear_loop contains
lookup-clear_loop channel model [] entries n k = refl
lookup-clear_loop channel model (j ∷ ks) entries n k =
    lookup-clear_loop channel model ks
      (if matches_key channel model j then erase j entries else entries)
      (if matches_key channel model j then n + 1 else n) k
    ∙ ap (λ o. if contains k ks && matches_key channel model k then none else o)
        (lookup-visit channel model j k entries)
    ∙ joined (j == k) (contains k ks) (matches_key channel model k) (lookup k entries)

contains-keys_of :
    (k : Text) (entries : Entries) → contains k (keys_of entries) ≡ false → lookup k entries ≡ none
unfolding contains lookup
contains-keys_of k [] h = refl
contains-keys_of k ((j, e) ∷ entries) h = ground (arith, contains-keys_of k entries)

-- The loop over all keys drops the entries whose key matches.
clear_cooldowns-lookup :
    (channel model : Option Text) (entries : Entries) (k : Text)
    → lookup k (clear_cooldowns channel model entries).0
      ≡ (if matches_key channel model k then none else lookup k entries)
unfolding clear_cooldowns
clear_cooldowns-lookup channel model entries k =
    lookup-clear_loop channel model (keys_of entries) entries 0 k
    ∙ drop_visited (contains k (keys_of entries)) (matches_key channel model k) refl
  where
    drop_visited :
        (c b : Bool)
        → contains k (keys_of entries) ≡ c
        → (if c && b then none else lookup k entries) ≡ (if b then none else lookup k entries)
    drop_visited true b e = refl
    drop_visited false true e = contains-keys_of k entries e
    drop_visited false false e = refl

-- What a channel or a model that is asked for says of an entry's: without one, all are meant.
abbrev pub IsAsked : Option Text → Text → Type 0
IsAsked wanted value = (wanted ≡ none) ⊎ (wanted ≡ some value)

pub data Clears (channel model : Option Text) (c m : Text) (before : Option Entry)
    : Option Entry → Type 0 where
  cleared : IsAsked channel c → IsAsked model m → Clears channel model c m before none
  kept :
      ¬ (IsAsked channel c × IsAsked model m)
      → (after : Option Entry) → after ≡ before
      → Clears channel model c m before after

some_same : {v w : Text} → some v ≡ some w → w ≡ v
some_same h = cc

matches_one-IsAsked :
    (wanted : Option Text) (value : Text) (b : Bool)
    → matches_one wanted value ≡ b
    → (if b then IsAsked wanted value else ¬ (IsAsked wanted value))
matches_one-IsAsked none value true h = inl refl
matches_one-IsAsked none value false h = cc
matches_one-IsAsked (some w) value true h = inr (ap some (sym ((==-eq value w).0 h)))
matches_one-IsAsked (some w) value false h = λ a. elim a [
  | inl e ↦ cc
  | inr e ↦ absurd (true≢false (sym ((==-eq value w).1 (some_same e)) ∙ h))
]

-- After `clearRateLimitCooldowns` the entry of a channel, whose name has no NUL, and a model is gone
-- if the channel is the one asked for, or none is asked for, and the model likewise. Otherwise the
-- entry is as it was.
pub clear_cooldowns-Clears :
    (channel model : Option Text) (entries : Entries) (c m : Text)
    → contains 0 c ≡ false
    → Clears channel model c m
        (lookup (key c m) entries)
        (lookup (key c m) (clear_cooldowns channel model entries).0)
unfolding matches_key
clear_cooldowns-Clears channel model entries c m h =
    subst (Clears channel model c m (lookup (key c m) entries))
      (sym (
        clear_cooldowns-lookup channel model entries (key c m)
        ∙ ap
            (λ (p : Text × Text).
              if matches_one channel p.0 && matches_one model p.1
              then none
              else lookup (key c m) entries)
            (parse_key-key c m h)))
      (by_tests (matches_one channel c) (matches_one model m) (matches_one-IsAsked channel c _ refl)
        (matches_one-IsAsked model m _ refl))
  where
    by_tests :
        (a b : Bool)
        → (if a then IsAsked channel c else ¬ (IsAsked channel c))
        → (if b then IsAsked model m else ¬ (IsAsked model m))
        → Clears channel model c m
            (lookup (key c m) entries)
            (if a && b then none else lookup (key c m) entries)
    by_tests true true p q = cleared p q
    by_tests true false p q = kept (λ r. q r.1) _ refl
    by_tests false b p q = kept (λ r. p r.0) _ refl

abbrev running : ℕ → Entries → List Snapshot
running now entries =
    map (snapshot_of now) (filter (λ (e : Text × Entry). ltb now e.1.expires_at) entries)

-- An entry of the list that `listRateLimitCooldowns` returns
abbrev pub IsRunning : ℕ → Snapshot → Type 0
IsRunning now e = (now < e.expires_at) × (e.remaining_ms + now ≡ e.expires_at)

running-live : (now : ℕ) (l : Entries) → All (IsRunning now) (running now l)
unfolding filter
running-live now [] = tt
running-live now (e ∷ l) = elim (Bool-cases (ltb now e.1.expires_at)) [
  | inl h ↦
      let lt = ltb→lt now e.1.expires_at h in rw h ((lt, omega (arith, lt)), running-live now l)
  | inr h ↦ rw h (running-live now l)
]

-- The list of pauses is sorted by expiry, the earliest first, and each has not expired; its remaining time and its
-- expiry add up.
pub list_cooldowns-IsSorted :
    (entries : Entries) (now : ℕ)
    → IsSorted (λ a b. ltb a.expires_at b.expires_at) (list_cooldowns entries now)
      × All (IsRunning now) (list_cooldowns entries now)
unfolding list_cooldowns
list_cooldowns-IsSorted entries now = (
  sort_by-IsSorted expires_before asym trans (running now entries),
  sort_by-All expires_before (IsRunning now) (running now entries) (running-live now entries),
)
  where
    asym : (x y : Snapshot) → expires_before x y ≡ true → expires_before y x ≡ false
    asym x y e = ground arith

    trans :
        (x y z : Snapshot)
        → expires_before y x ≡ false
        → expires_before z y ≡ false
        → expires_before z x ≡ false
    trans x y z e f = ground arith
