-- ===== src/Observer/Collecting/Chunks.antt =====
-- What a list of chunks adds up to, and what is taken of it
use llmrelay_service.Base.{
  ℕ, zero, suc, ◌+◌, true, List, [], ◌∷◌, ◌++◌, if◌then◌else◌, ◌≡◌, refl, sym, ap, ◌∙◌, length,
  append_assoc, append-nil, take, concat, ltb, arith,
}

pub take_all {ℓ} : {A : Type ℓ} (xs : List A) → take (length xs) xs ≡ xs
take_all [] = refl
take_all (x ∷ xs) = ap (λ l. x ∷ l) (take_all xs)

take-append {ℓ} :
    {A : Type ℓ} (xs ys : List A) (n : ℕ) → take (length xs + n) (xs ++ ys) ≡ xs ++ take n ys
take-append [] ys n = ap (λ k. take k ys) (omega arith)
take-append (x ∷ xs) ys n =
    ap (λ k. take k (x ∷ (xs ++ ys))) (suc_out n) ∙ ap (λ l. x ∷ l) (take-append xs ys n)
  where
    suc_out : (n : ℕ) → suc (length xs) + n ≡ suc (length xs + n)
    suc_out n = omega arith

pub take-take_lem {ℓ} :
    {A : Type ℓ} (n : ℕ) (xs : List A) → take (length (take n xs)) xs ≡ take n xs
take-take_lem zero xs = refl
take-take_lem (suc n) [] = refl
take-take_lem (suc n) (x ∷ xs) = ap (λ l. x ∷ l) (take-take_lem n xs)

pub concat_last : (xs : List (List ℕ)) (x : List ℕ) → concat (xs ++ (x ∷ [])) ≡ concat xs ++ x
concat_last [] x = append-nil x
concat_last (y ∷ ys) x = ap (λ l. y ++ l) (concat_last ys x) ∙ sym (append_assoc y (concat ys) x)

pub kept_chunks :
    (chunks : List (List ℕ)) (kept : List ℕ)
    → concat (if ltb 0 (length kept) then chunks ++ (kept ∷ []) else chunks) ≡ concat chunks ++ kept
kept_chunks chunks [] = sym (append-nil (concat chunks))
kept_chunks chunks (b ∷ kept) = rw (positive (length kept)) (concat_last chunks (b ∷ kept))
  where
    positive : (n : ℕ) → ltb 0 (suc n) ≡ true
    positive n = ground arith

pub kept_beginning :
    (chunks : List (List ℕ)) (total : ℕ) (passed chunk kept : List ℕ)
    → concat chunks ≡ passed
    → total ≡ length passed
    → kept ≡ take (length kept) chunk
    → concat (if ltb 0 (length kept) then chunks ++ (kept ∷ []) else chunks)
      ≡ take (total + length kept) (passed ++ chunk)
kept_beginning chunks total passed chunk kept h n k =
    kept_chunks chunks kept
    ∙ (rw (h, n) (ap (λ l. passed ++ l) k ∙ sym (take-append passed chunk (length kept))))

pub all_taken :
    (passed kept : List ℕ) (total : ℕ)
    → kept ≡ passed
    → total ≡ length passed
    → kept ≡ take total passed
all_taken passed kept total e n = rw (e, n) (sym (take_all passed))
