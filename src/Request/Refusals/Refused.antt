-- ===== src/Request/Refusals/Refused.antt =====
-- Conversions whose errors are about a field
use llmrelay_service.Base.{
  ℕ, suc, Bool, true, false, some, List, [], ◌∷◌, if◌then◌else◌, ◌≡◌, refl, Text, starts_with,
  list_eq, nat_eq, arith, Result, failed, done, each_from, ◌>>=◌,
}
use llmrelay_service.Request.Errors.{CompatError, Thrown, refused, raised, create_error}
use llmrelay_service.Request.Items.{message}

pub data Throws {ℓ} {A : Type ℓ} (P : Thrown → Type 0) : Result Thrown A → Type ℓ where
  throws : {e : Thrown} → P e → Throws P (failed e)
  returns : {a : A} → Throws P (done a)

-- An error of the conversion has the status 400 and names what stands at a prefix.
abbrev pub IsAbout : Text → CompatError → Type 0
IsAbout prefix e =
    (e.status ≡ 400) × ((name : Text) × ((e.param ≡ some name) × (starts_with prefix name ≡ true)))

unfoldable pub Names : Text → Thrown → Type 0
Names prefix (raised t) = Unit
Names prefix (refused e) = IsAbout prefix e

pub named :
    (prefix message name : Text)
    → starts_with prefix name ≡ true
    → Names prefix (refused (create_error message (some name)))
unfolding create_error Names
named prefix message name h = (refl, (name, (refl, h)))

pub starts_with_all : (t : Text) → starts_with t t ≡ true
unfolding starts_with
starts_with_all [] = refl
starts_with_all (c ∷ t) = ground (arith, starts_with_all t)

module _ {ℓ} {A : Type ℓ} (P : Thrown → Type 0) where
  pub bind-Throws {κ} :
      {B : Type κ} (r : Result Thrown A) (f : A → Result Thrown B)
      → Throws P r
      → ((a : A) → Throws P (f a))
      → Throws P (r >>= f)
  bind-Throws (failed e) f (throws h) k = throws h
  bind-Throws (done a) f h k = k a

  pub if_Throws :
      (b : Bool) (r s : Result Thrown A) → Throws P r → Throws P s → Throws P (if b then r else s)
  if_Throws true r s h k = h
  if_Throws false r s h k = k

  pub each-Throws {κ} :
      {B : Type κ} (f : ℕ → B → Result Thrown A)
      → ((n : ℕ) (b : B) → Throws P (f n b))
      → (n : ℕ) (xs : List B) → Throws P (each_from f n xs)
  unfolding each_from
  each-Throws f h n [] = returns
  each-Throws f h n (x ∷ xs) =
      bind_step (f n x) (each_from f (suc n) xs) (h n x) (each-Throws f h (suc n) xs)
    where
      bind_step :
          (r : Result Thrown A) (rest : Result Thrown (List A))
          → Throws P r
          → Throws P rest
          → Throws P (r >>= λ y. rest >>= λ ys. done (y ∷ ys))
      bind_step (failed e) rest (throws h) k = throws h
      bind_step (done y) (failed e) h (throws k) = throws k
      bind_step (done y) (done ys) h k = returns
