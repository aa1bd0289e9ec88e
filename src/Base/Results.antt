-- ===== src/Base/Results.antt =====
-- A result or the value that was thrown, and loops over a list whose body may throw.
use Prim.Native.Nat.{ℕ, suc}
use mathlib.Core.Bool.{Bool, true, false, not, ◌&&◌}
use mathlib.Core.List.{List, [], ◌∷◌}
use mathlib.Core.Path.{◌≡◌, refl, ap}
use llmrelay_service.Base.Tests.{if◌then◌else◌}
use mathlib.Core.Logic.{◌⊎◌, inl, inr}

pub data Result {ℓ κ} (E : Type ℓ) (A : Type κ) : Type (ℓ ⊔ κ) where
  failed : E → Result E A
  done : A → Result E A

infixl 5 ◌>>=◌ ◌>>◌
abbrev pub ◌>>=◌ {ℓ κ μ} :
    {E : Type ℓ} {A : Type κ} {B : Type μ} → Result E A → (A → Result E B) → Result E B
failed e >>= f = failed e
done a >>= f = f a

abbrev pub ◌>>◌ {ℓ κ μ} :
    {E : Type ℓ} {A : Type κ} {B : Type μ} → Result E A → Result E B → Result E B
m >> k = m >>= λ _. k

abbrev pub succeeds {ℓ κ} : {E : Type ℓ} {A : Type κ} → Result E A → Bool
succeeds (failed e) = false
succeeds (done a) = true

-- `if (test) throw e`
abbrev pub fail_if {ℓ} : {E : Type ℓ} → Bool → E → Result {ℓ, 0} E Unit
fail_if true e = failed e
fail_if false e = done tt

-- `xs.map((x, index) => f(index, x))` from an index on, where `f` may throw
unfoldable pub each_from {ℓ κ μ} :
    {E : Type ℓ} {A : Type κ} {B : Type μ} → (ℕ → A → Result E B) → ℕ → List A → Result E (List B)
each_from f n [] = done []
each_from f n (x ∷ xs) = f n x >>= λ y. each_from f (suc n) xs >>= λ ys. done (y ∷ ys)

pub Result-cases {ℓ κ} :
    {E : Type ℓ} {A : Type κ} (r : Result E A)
    → ((e : E) × (r ≡ failed e)) ⊎ ((a : A) × (r ≡ done a))
Result-cases (failed e) = inl (e, refl)
Result-cases (done a) = inr (a, refl)

-- A chain of two steps succeeds if both do.
pub succeeds-bind {ℓ κ μ} :
    {E : Type ℓ} {A : Type κ} {B : Type μ} (r : Result E A) (f : A → Result E B) (b : Bool)
    → ((a : A) → r ≡ done a → succeeds (f a) ≡ b)
    → succeeds (r >>= f) ≡ (succeeds r && b)
succeeds-bind (failed e) f b h = refl
succeeds-bind (done a) f b h = h a refl

pub succeeds-map {ℓ κ μ} :
    {E : Type ℓ} {A : Type κ} {B : Type μ} (r : Result E A) (g : A → B)
    → succeeds (r >>= λ a. done (g a)) ≡ succeeds r
succeeds-map (failed e) g = refl
succeeds-map (done a) g = refl

pub succeeds-if {ℓ κ} :
    {E : Type ℓ} {A : Type κ} (b : Bool) (r s : Result E A) (p q : Bool)
    → succeeds r ≡ p
    → succeeds s ≡ q
    → succeeds (if b then r else s) ≡ (if b then p else q)
succeeds-if true r s p q h k = h
succeeds-if false r s p q h k = k

pub succeeds-fail_if {ℓ} : {E : Type ℓ} (b : Bool) (e : E) → succeeds (fail_if b e) ≡ not b
succeeds-fail_if true e = refl
succeeds-fail_if false e = refl

pub failed_injective {ℓ κ} :
    {E : Type ℓ} (A : Type κ) (e e' : E) → ◌≡◌ {A = Result E A} (failed e) (failed e') → e ≡ e'
failed_injective A e e' h = cc

-- Where a chain of two steps fails
pub bind_fails {ℓ κ μ} :
    {E : Type ℓ} {A : Type κ} {B : Type μ} (r : Result E A) (f : A → Result E B) (e : E)
    → (r >>= f) ≡ failed e
    → (r ≡ failed e) ⊎ ((a : A) × ((r ≡ done a) × (f a ≡ failed e)))
bind_fails (failed e') f e h = inl (ap failed (failed_injective _ e' e h))
bind_fails (done a) f e h = inr (a, (refl, h))
