-- ===== src/Cooldown/Backoff.antt =====
-- How long a pause is, and that it is kept for exactly that long.
use llmrelay_service.Base.{
  ℕ, suc, ◌+◌, ◌-◌, ◌*◌, ◌/◌, ◌^◌, ◌≤◌, ◌<◌, min, ◌≡◌, ap, ◌∙◌, true, false, Option, none, some,
  Text, ◌==◌, list_eq, nat_eq, lookup, lookup-insert, lookup-insert_self, ◌≢◌, or_else, ℤ, pos,
  arith, if◌then◌else◌, ltb, ltb→lt, leb, ==-eq, Bool-cases, inl, inr, if_false, trim, is_empty,
  all,
}
use native.Mathlib.Nat.{pow-suc}
use mathlib.Core.Option
use llmrelay_service.Cooldown.Doubles.{round}
use llmrelay_service.Cooldown.{
  Entries, key, clamp_duration, parse_retry_after_ms, exponential_ms, two_fifths, jittered_ms,
  consecutive_of, record_rate_limit_429, remaining_of, get_remaining_ms, is_digit, decimal_value,
  minus_ℕ,
}

clamp_bounds : (d : ℤ) → (1000 ≤ clamp_duration d) × (clamp_duration d ≤ 300000)
unfolding clamp_duration
clamp_bounds d = omega arith

-- A result is clamped.
abbrev IsClamped : Option ℕ → Type 0
IsClamped none = Unit
IsClamped (some n) = (1000 ≤ n) × (n ≤ 300000)

map-IsClamped : (o : Option ℤ) (f : ℤ → ℤ) → IsClamped (Option.map (λ a. clamp_duration (f a)) o)
map-IsClamped none f = tt
map-IsClamped (some a) f = clamp_bounds (f a)

parse_retry_after-IsClamped :
    (date_parse : Text → Option ℤ) (value : Option Text) (now : ℕ)
    → IsClamped (parse_retry_after_ms date_parse value now)
unfolding parse_retry_after_ms
parse_retry_after-IsClamped date_parse none now = tt
parse_retry_after-IsClamped date_parse (some value) now =
    elim (Bool-cases (is_empty (trim value))) [
      | inl e ↦ rw e tt
      | inr e ↦ rw e (elim (Bool-cases (all is_digit (trim value))) [
        | inl f ↦ rw f (clamp_bounds (pos (decimal_value 0 (trim value) * 1000)))
        | inr f ↦ rw f (map-IsClamped (date_parse (trim value)) (λ a. minus_ℕ a now))
      ])
    ]

-- Each further HTTP 429 in a row doubles the pause before jitter, up to five minutes.
exponential_ms-suc :
    (n : ℕ) → exponential_ms (suc (suc n)) ≡ min 300000 (2 * exponential_ms (suc n))
unfolding exponential_ms
exponential_ms-suc n = elim (Bool-cases (ltb n 31)) [
  | inl e ↦
      let small : n < 31 = ltb→lt n 31 e in
      let a : min (suc (suc n) - 1) 31 ≡ suc n = omega arith in
      let b : min (suc n - 1) 31 ≡ n = omega arith in rw (a, b) (rw (pow-suc 2 n) (omega arith))
  | inr e ↦
      let large : 31 ≤ n = ground arith in
      let a : min (suc (suc n) - 1) 31 ≡ 31 = omega arith in
      let b : min (suc n - 1) 31 ≡ 31 = omega arith in rw (a, b) (omega arith)
]

jittered_clamped : (e random : ℕ) → (1000 ≤ jittered_ms e random) × (jittered_ms e random ≤ 300000)
unfolding jittered_ms
jittered_clamped e random =
    let b = round (two_fifths * 2 ^ 54 + round (min random (2 ^ 53) * two_fifths)) in
    clamp_bounds (pos ((round (e * b) + (2 ^ 107 - 1)) / 2 ^ 107))

or_else-IsClamped :
    (o : Option ℕ) (n : ℕ)
    → IsClamped o
    → (1000 ≤ n) × (n ≤ 300000)
    → (1000 ≤ or_else o n) × (or_else o n ≤ 300000)
or_else-IsClamped none n h k = k
or_else-IsClamped (some m) n h k = h

-- A recorded HTTP 429 pauses the channel and model for the time that is returned, which is from one
-- second to five minutes: until then the rest of that time is reported, and from then on none. The
-- pauses of all other keys are as they were.
pub record-get_remaining :
    (date_parse : Text → Option ℤ) (entries : Entries) (channel model : Text)
    (retry_after : Option Text) (now random later : ℕ) (c m : Text)
    → let (after, cooldown) =
        record_rate_limit_429 date_parse entries channel model retry_after true now random in
      (1000 ≤ cooldown)
      × (cooldown ≤ 300000)
      × ((get_remaining_ms after channel model true later).1
          ≡ (if leb (now + cooldown) later then none else some (now + cooldown - later)))
      × (key channel model ≢ key c m
          → (get_remaining_ms after c m true later).1 ≡ (get_remaining_ms entries c m true later).1)
unfolding record_rate_limit_429 get_remaining_ms
record-get_remaining date_parse entries channel model retry_after now random later c m =
    let n = consecutive_of (lookup (key channel model) entries) + 1 in
    let bounds =
      or_else-IsClamped (parse_retry_after_ms date_parse retry_after now)
        (jittered_ms (exponential_ms n) random)
        (parse_retry_after-IsClamped date_parse retry_after now)
        (jittered_clamped (exponential_ms n) random) in
    (
      bounds.0,
      bounds.1,
      ap (λ o. remaining_of o later) (lookup-insert_self (key channel model) _ entries),
      λ other.
          ap (λ o. remaining_of o later)
            (lookup-insert (key channel model) (key c m) _ entries
              ∙ if_false (key channel model == key c m) _ _ (differs other)),
    )
  where
    differs : key channel model ≢ key c m → (key channel model == key c m) ≡ false
    differs other = elim (Bool-cases (key channel model == key c m)) [
      | inl e ↦ absurd (other ((==-eq (key channel model) (key c m)).0 e))
      | inr e ↦ e
    ]
