-- ===== src/Cooldown/Keys.antt =====
-- The key of an entry stands for its channel and model.
use llmrelay_service.Base.{
  suc, ◌+◌, ◌≡◌, refl, sym, ap, ◌∙◌, false, some, List, [], ◌∷◌, ◌++◌, Text, index_of, starts_with,
  take, drop, length, contains, nat_eq, arith,
}
use llmrelay_service.Cooldown.{key, parse_key}

index_of-key :
    (channel model : Text)
    → contains 0 channel ≡ false
    → index_of (0 ∷ []) (channel ++ 0 ∷ model) ≡ some (length channel)
unfolding index_of starts_with contains
index_of-key [] model h = refl
index_of-key (c ∷ channel) model h = ground (arith, index_of-key channel model)

take-append {ℓ} : {A : Type ℓ} (xs ys : List A) → take (length xs) (xs ++ ys) ≡ xs
take-append [] ys = refl
take-append (x ∷ xs) ys = ap (λ l. x ∷ l) (take-append xs ys)

drop-append_self {ℓ} :
    {A : Type ℓ} (xs : List A) (y : A) (ys : List A) → drop (suc (length xs)) (xs ++ y ∷ ys) ≡ ys
drop-append_self [] y ys = refl
drop-append_self (x ∷ xs) y ys = drop-append_self xs y ys

-- For a channel name without the NUL character, `parseKey` gives back the channel and the model of
-- which the key was made.
pub parse_key-key :
    (channel model : Text)
    → contains 0 channel ≡ false
    → parse_key (key channel model) ≡ (channel, model)
unfolding parse_key key
parse_key-key channel model h =
    let plus : length channel + 1 ≡ suc (length channel) = omega arith in
    rw (index_of-key channel model h, parse_key)
      (rw (plus, take-append channel (0 ∷ model), drop-append_self channel 0 model))

-- So two such entries have one key only if channel and model agree.
pub key-injective :
    (c m c' m' : Text)
    → contains 0 c ≡ false
    → contains 0 c' ≡ false
    → key c m ≡ key c' m'
    → (c ≡ c') × (m ≡ m')
key-injective c m c' m' h h' e = (
  sym (ap (λ (p : Text × Text). p.0) (parse_key-key c m h))
      ∙ ap (λ k. (parse_key k).0) e
      ∙ ap (λ (p : Text × Text). p.0) (parse_key-key c' m' h'),
  sym (ap (λ (p : Text × Text). p.1) (parse_key-key c m h))
      ∙ ap (λ k. (parse_key k).1) e
      ∙ ap (λ (p : Text × Text). p.1) (parse_key-key c' m' h'),
)
