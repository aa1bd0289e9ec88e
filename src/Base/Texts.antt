-- ===== src/Base/Texts.antt =====
-- Text: a JavaScript string as the list of its UTF-16 code units, and the methods of `String` that
-- the sources call. `codes` reads a literal.
use Prim.Native.Nat.{ℕ, zero, suc, ◌+◌, ◌-◌, ◌≤◌, ◌<◌}
use Prim.Native.Char.{code}
use Prim.Native.String.{String}
use mathlib.Core.Path.{◌≡◌, refl, ap, sym, ◌∙◌}
use mathlib.Core.Logic.{◌⊎◌, inl, inr}
use mathlib.Core.Bool.{Bool, true, false, ◌&&◌, ◌||◌}
use mathlib.Core.Option
use mathlib.Core.Option.{Option, none, some}
use mathlib.Core.List.{List, [], ◌∷◌, ◌++◌, reverse}
use native.Mathlib.Nat.{zero-add, suc-add}
use native.Mathlib.Omega.{arith}
use llmrelay_service.Base.Tests.{leb, ◌==◌ as nat_beq, if◌then◌else◌, Option-cases}
use llmrelay_service.Base.Lists.{length, take, drop, length-drop}
use llmrelay_service.Base.Keys.{list_beq, list_beq_iff, nat_eq}

abbrev pub Text : Type 0
Text = List ℕ

abbrev pub codes : String → Text
codes String.[] = []
codes (String.◌∷◌ c s) = code c ∷ codes s

-- `s.startsWith(p)`
unfoldable pub starts_with : Text → Text → Bool
starts_with [] s = true
starts_with (p ∷ ps) [] = false
starts_with (p ∷ ps) (c ∷ s) = nat_beq p c && starts_with ps s

-- `s.endsWith(p)`
unfoldable pub ends_with : Text → Text → Bool
unfolding list_beq
ends_with p s = leb (length p) (length s) && list_beq (drop (length s - length p) s) p

-- `s.indexOf(p)`, `none` for -1
unfoldable pub index_of : Text → Text → Option ℕ
unfolding starts_with
index_of p [] = if starts_with p [] then some 0 else none
index_of p (c ∷ s) =
    let later = Option.map suc (index_of p s) in if starts_with p (c ∷ s) then some 0 else later

-- The characters that `trim` removes: white space and line terminators of ECMAScript.
unfoldable pub is_space : ℕ → Bool
is_space c =
    (leb 9 c && leb c 13)
    || nat_beq c 32
    || nat_beq c 160
    || nat_beq c 0x1680
    || (leb 0x2000 c && leb c 0x200a)
    || nat_beq c 0x2028
    || nat_beq c 0x2029
    || nat_beq c 0x202f
    || nat_beq c 0x205f
    || nat_beq c 0x3000
    || nat_beq c 0xfeff

unfoldable pub trim_start : Text → Text
unfolding is_space
trim_start [] = []
trim_start (c ∷ s) = if is_space c then trim_start s else c ∷ s

unfoldable pub trim : Text → Text
unfolding trim_start
trim s = reverse (trim_start (reverse (trim_start s)))

abbrev pub is_empty : Text → Bool
is_empty [] = true
is_empty (c ∷ s) = false

-- `parts.join(sep)`
unfoldable pub join : Text → List Text → Text
join sep [] = []
join sep (p ∷ []) = p
join sep (p ∷ q ∷ ps) = p ++ sep ++ join sep (q ∷ ps)

-- What starts a longer text either starts the shorter one, or is cut off by its end.
pub starts_with_append :
    (t s r : Text)
    → starts_with t (s ++ r) ≡ true
    → (starts_with t s ≡ true) ⊎ ((length s < length t) × (s ≡ take (length s) t))
unfolding starts_with
starts_with_append [] s r h = inl refl
starts_with_append (p ∷ ps) [] r h = inr (omega arith, refl)
starts_with_append (p ∷ ps) (c ∷ s) r h = ground (arith, starts_with_append ps s r)

-- A text that does not hold `p` has no suffix that starts with it.
pub starts_with-drop :
    (p s : Text) (n : ℕ) → index_of p s ≡ none → n ≤ length s → starts_with p (drop n s) ≡ false
unfolding index_of
starts_with-drop p [] zero h b = ground arith
starts_with-drop p [] (suc n) h b = elim b [ ]
starts_with-drop p (c ∷ s) zero h b = ground arith
starts_with-drop p (c ∷ s) (suc n) h b = starts_with-drop p s n (rest_none h) (omega arith)
  where
    rest_none :
        (if starts_with p (c ∷ s) then some 0 else Option.map suc (index_of p s)) ≡ none
        → index_of p s ≡ none
    rest_none h = ground arith

-- The suffix of a length is found by `endsWith`.
pub ends_with-drop : (p s : Text) (n : ℕ) → n ≤ length s → drop n s ≡ p → ends_with p s ≡ true
unfolding ends_with
ends_with-drop p s n b h =
    let len : length p ≡ length s - n = sym (ap length h) ∙ length-drop n s in
    rw len (rw (sub_sub n (length s) b) (ground (arith, h, list_beq_iff (drop n s) p)))
  where
    sub_sub : (n m : ℕ) → n ≤ m → m - (m - n) ≡ n
    sub_sub n m h = omega arith

-- Where `indexOf` points, the text starts; before that it does not.
pub index_of_found :
    (p s : Text) (i : ℕ)
    → index_of p s ≡ some i
    → (starts_with p (drop i s) ≡ true) × (i ≤ length s)
unfolding index_of
index_of_found p [] zero h = ground arith
index_of_found p [] (suc i) h = ground arith
index_of_found p (c ∷ s) zero h = elim (Option-cases (index_of p s)) [
  | inl e ↦ ground arith
  | inr (j, e) ↦ ground arith
]
index_of_found p (c ∷ s) (suc i) h = elim (Option-cases (index_of p s)) [
  | inl e ↦ ground arith
  | inr (j, e) ↦ ground (arith, index_of_found p s i)
]

pub index_of_first :
    (p s : Text) (i m : ℕ) → index_of p s ≡ some i → m < i → starts_with p (drop m s) ≡ false
unfolding index_of
index_of_first p [] i m h b = ground arith
index_of_first p (c ∷ s) i zero h b = ground arith
index_of_first p (c ∷ s) zero (suc m) h b = elim b [ ]
index_of_first p (c ∷ s) (suc i) (suc m) h b = elim (Option-cases (index_of p s)) [
  | inl e ↦ ground arith
  | inr (j, e) ↦ ground (arith, index_of_first p s i m)
]

drop-nil {ℓ} : {A : Type ℓ} (n : ℕ) → drop {A = A} n [] ≡ []
drop-nil zero = refl
drop-nil (suc n) = refl

pub drop-drop {ℓ} : {A : Type ℓ} (i j : ℕ) (s : List A) → drop j (drop i s) ≡ drop (i + j) s
drop-drop i j [] = rw (drop-nil i, drop-nil j, drop-nil (i + j))
drop-drop zero j (c ∷ s) = rw zero-add
drop-drop (suc i) j (c ∷ s) = rw suc-add (drop-drop i j s)

pub starts_with-length : (t s : Text) → starts_with t s ≡ true → length t ≤ length s
unfolding starts_with
starts_with-length [] s h = omega arith
starts_with-length (p ∷ ps) [] h = cc
starts_with-length (p ∷ ps) (c ∷ s) h = ground (arith, starts_with-length ps s)

pub starts_with_more : (t s r : Text) → starts_with t s ≡ true → starts_with t (s ++ r) ≡ true
unfolding starts_with
starts_with_more [] s r h = refl
starts_with_more (p ∷ ps) [] r h = cc
starts_with_more (p ∷ ps) (c ∷ s) r h = ground (arith, starts_with_more ps s r)

pub starts_with_self : (t r : Text) → starts_with t (t ++ r) ≡ true
unfolding starts_with
starts_with_self [] r = refl
starts_with_self (p ∷ ps) r = ground (arith, starts_with_self ps r)

pub drop-append {ℓ} :
    {A : Type ℓ} (n : ℕ) (s r : List A) → n ≤ length s → drop n (s ++ r) ≡ drop n s ++ r
drop-append zero s r b = refl
drop-append (suc n) [] r b = elim b [ ]
drop-append (suc n) (c ∷ s) r b = drop-append n s r (omega arith)

pub index_of-drop-none :
    (p s : Text) (n : ℕ) → index_of p s ≡ none → n ≤ length s → index_of p (drop n s) ≡ none
unfolding index_of
index_of-drop-none p s zero h b = h
index_of-drop-none p [] (suc n) h b = elim b [ ]
index_of-drop-none p (c ∷ s) (suc n) h b = elim (Option-cases (index_of p s)) [
  | inl e ↦ index_of-drop-none p s n e (omega arith)
  | inr (j, e) ↦ ground arith
]

-- `parts.join('')`
abbrev pub concat : List Text → Text
concat [] = []
concat (p ∷ ps) = p ++ concat ps
