-- ===== src/Cooldown/Doubles.antt =====
-- Rounding to the 53 significant bits of a double, of a fraction that is given by its numerator over a
-- power of two: to the nearest, and to the even one of two that are as near
use native.Mathlib.Nat.{pow-suc, div-add-mod', mod-lt, add-mul, one-mul}
use llmrelay_service.Base.{
  ℕ, zero, suc, ◌+◌, ◌-◌, ◌*◌, ◌/◌, ◌%◌, ◌^◌, ◌≤◌, ◌<◌, ◌≡◌, refl, ◌⊎◌, inl, inr, false, ltb,
  if◌then◌else◌, Bool-cases, arith,
}

-- How many bits there are beyond 53, up to the number given first
unfoldable pub excess_bits : ℕ → ℕ → ℕ
excess_bits zero n = 0
excess_bits (suc most) n =
    let rest = excess_bits most (n / 2) in if ltb n (2 ^ 53) then 0 else suc rest

-- The multiple of a number that is nearest
unfoldable pub round_to : ℕ → ℕ → ℕ
round_to unit n =
    let q = n / unit in
    let rest = n % unit in
    if ltb (2 * rest) unit
    then q * unit
    else if ltb unit (2 * rest)
    then (q + 1) * unit
    else (q + q % 2) * unit

-- A number of at most 53 + 128 bits
unfoldable pub round : ℕ → ℕ
unfolding excess_bits round_to
round n = round_to (2 ^ excess_bits 128 n) n

pow_pos : (k : ℕ) → 0 < 2 ^ k
pow_pos zero = omega arith
pow_pos (suc k) = rw (pow-suc 2 k) (omega (arith, pow_pos k))

-- A number has 53 bits besides those beyond.
excess_bits_lem : (most n : ℕ) → (excess_bits most n ≡ 0) ⊎ (2 ^ 52 * 2 ^ excess_bits most n ≤ n)
unfolding excess_bits
excess_bits_lem zero n = inl refl
excess_bits_lem (suc most) n = elim (Bool-cases (ltb n (2 ^ 53))) [
  | inl small ↦ rw small (inl refl)
  | inr large ↦
      rw (large, pow-suc 2 (excess_bits most (n / 2)))
        (inr (by_rest (excess_bits most (n / 2)) (excess_bits_lem most (n / 2)) large))
]
  where
    by_rest :
        (k : ℕ)
        → (k ≡ 0) ⊎ (2 ^ 52 * 2 ^ k ≤ n / 2)
        → ltb n (2 ^ 53) ≡ false
        → 2 ^ 52 * (2 ^ k * 2) ≤ n
    by_rest k (inl e) large = rw e (ground (arith, large))
    by_rest k (inr h) large = omega (arith, h)

-- What is rounded differs by at most half of the unit.
round_to_lem :
    (unit n : ℕ)
    → 0 < unit
    → (2 * round_to unit n ≤ 2 * n + unit) × (2 * n ≤ 2 * round_to unit n + unit)
unfolding round_to
round_to_lem unit n pos = by_rest (n / unit) (n % unit) (div-add-mod' n unit) (mod-lt n pos)
  where
    by_rest :
        (q rest : ℕ)
        → q * unit + rest ≡ n
        → rest < unit
        → let r =
            (if ltb (2 * rest) unit
              then q * unit
              else if ltb unit (2 * rest)
              then (q + 1) * unit
              else (q + q % 2) * unit) in
          (2 * r ≤ 2 * n + unit) × (2 * n ≤ 2 * r + unit)
    by_rest q rest e less = elim (Bool-cases (ltb (2 * rest) unit)) [
      | inl down ↦ rw down (ground (arith, down, e), ground (arith, down, e))
      | inr not_down ↦ elim (Bool-cases (ltb unit (2 * rest))) [
        | inl up ↦
            rw (not_down, up, add-mul q 1 unit, one-mul unit)
              (ground (arith, up, less, e), ground (arith, up, less, e))
        | inr tie ↦
            rw (not_down, tie, add-mul q (q % 2) unit)
              (by_parity q rest (q % 2) e (ground (arith, not_down, tie)) (mod-lt q (omega arith)))
      ]
    ]
      where
        by_parity :
            (q rest parity : ℕ)
            → q * unit + rest ≡ n
            → 2 * rest ≡ unit
            → parity < 2
            → (2 * (q * unit + parity * unit) ≤ 2 * n + unit)
              × (2 * n ≤ 2 * (q * unit + parity * unit) + unit)
        by_parity q rest zero e half h = (omega (arith, e, half), omega (arith, e, half))
        by_parity q rest (suc zero) e half h =
            rw (one-mul unit) (omega (arith, e, half), omega (arith, e, half))
        by_parity q rest (suc (suc k)) e half h = absurd (omega (arith, h))

-- The relative error is at most 2 ^ -53.
pub round_lem :
    (n : ℕ) → (2 ^ 53 * round n ≤ (2 ^ 53 + 1) * n) × ((2 ^ 53 - 1) * n ≤ 2 ^ 53 * round n)
unfolding round
round_lem n =
    by_bits (excess_bits 128 n) (excess_bits_lem 128 n)
      (round_to_lem (2 ^ excess_bits 128 n) n (pow_pos (excess_bits 128 n)))
  where
    by_bits :
        (k : ℕ)
        → (k ≡ 0) ⊎ (2 ^ 52 * 2 ^ k ≤ n)
        → (2 * round_to (2 ^ k) n ≤ 2 * n + 2 ^ k) × (2 * n ≤ 2 * round_to (2 ^ k) n + 2 ^ k)
        → (2 ^ 53 * round_to (2 ^ k) n ≤ (2 ^ 53 + 1) * n)
          × ((2 ^ 53 - 1) * n ≤ 2 ^ 53 * round_to (2 ^ k) n)
    by_bits zero h (hi, lo) = (omega (arith, hi, lo), omega (arith, hi, lo))
    by_bits (suc k) (inl e) b = absurd (omega (arith, e))
    by_bits (suc k) (inr h) (hi, lo) = (omega (arith, h, hi, lo), omega (arith, h, hi, lo))
