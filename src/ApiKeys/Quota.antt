-- ===== src/ApiKeys/Quota.antt =====
-- What is left of the amount that a key may cost, `buildApiKeyQuotaSnapshot`.
use llmrelay_service.Base.{
  ℕ, ◌-◌, Bool, true, false, Option, none, some, ◌≡◌, ◌↔◌, ap, ℤ, pos, negsuc, leb, leb→le, arith,
}

-- `ApiKeyQuotaSnapshot`, in millionths of a dollar
pub record QuotaSnapshot : Type 0 where
  pub cost_quota : Option ℕ
  pub cost_used : ℕ
  pub cost_remaining : Option ℕ
  pub quota_exhausted : Bool

-- `normalizeMicrousd` of a whole number, or of what is no number
unfoldable pub normalize_microusd : Option ℤ → ℕ
normalize_microusd (some (pos n)) = n
normalize_microusd _ = 0

-- `Math.max(0, Math.trunc(costQuotaMicrousd))`
unfoldable pub normalize_quota : Option ℤ → Option ℕ
normalize_quota none = none
normalize_quota (some (pos n)) = some n
normalize_quota (some (negsuc n)) = some 0

remaining : Option ℕ → ℕ → Option ℕ
remaining none used = none
remaining (some quota) used = some (quota - used)

exhausted : Option ℕ → ℕ → Bool
exhausted none used = false
exhausted (some quota) used = leb quota used

-- `buildApiKeyQuotaSnapshot`
unfoldable pub quota_snapshot : Option ℤ → Option ℤ → QuotaSnapshot
unfolding normalize_microusd normalize_quota remaining exhausted
quota_snapshot quota used = record {
  cost_quota = normalize_quota quota;
  cost_used = normalize_microusd used;
  cost_remaining = remaining (normalize_quota quota) (normalize_microusd used);
  quota_exhausted = exhausted (normalize_quota quota) (normalize_microusd used);
}

some_injective : (m n : ℕ) → some m ≡ some n → m ≡ n
some_injective m n h = cc

exhausted_iff :
    (quota : Option ℕ) (used : ℕ) → (exhausted quota used ≡ true) ↔ (remaining quota used ≡ some 0)
unfolding exhausted remaining
exhausted_iff none used = ((λ h. cc), (λ h. cc))
exhausted_iff (some quota) used = (
  (λ h. ap some (omega (arith, leb→le quota used h))),
  (λ h. ground (arith, some_injective (quota - used) 0 h)),
)

-- A key is exhausted exactly if it has a quota of which nothing is left.
pub quota_snapshot-exhausted :
    (quota used : Option ℤ)
    → ((quota_snapshot quota used).quota_exhausted ≡ true)
      ↔ ((quota_snapshot quota used).cost_remaining ≡ some 0)
unfolding quota_snapshot
quota_snapshot-exhausted quota used =
    exhausted_iff (normalize_quota quota) (normalize_microusd used)
