-- ===== src/Observer/Rewriting/Local.antt =====
-- The parts of the pattern find the same where the text goes on.
use llmrelay_service.Base.{
  ℕ, Bool, true, false, Option, none, some, [], ◌∷◌, ◌++◌, if◌then◌else◌, ◌≡◌, refl, sym, ap, subst,
  ◌∙◌, ◌⊎◌, inl, inr, Text, codes, starts_with, starts_with_more, starts_with-length, drop-append,
  ends_with, is_space, length, drop, list_eq, nat_eq, and_then, Bool-cases, Option-cases, if_true,
}
use llmrelay_service.Observer.Rewrite.{
  is_word, span, after, quote, after_name, after_spaces, match_prefix,
}

pub some_injective : {s t : Text} → some s ≡ some t → s ≡ t
some_injective h = cc

pub none-some : {s : Text} → ¬ (none ≡ some s)
none-some e = cc

-- What a part of the pattern finds in a text it also finds where the text goes on.
unfoldable pub IsLocal : (Text → Option Text) → Type 0
IsLocal f = (s r rest : Text) → f s ≡ some rest → f (s ++ r) ≡ some (rest ++ r)

pub if_none :
    (b : Bool) (o : Option Text) (s : Text)
    → (if b then o else none) ≡ some s
    → (b ≡ true) × (o ≡ some s)
if_none true o s h = (refl, h)
if_none false o s h = cc

pub after-found :
    (p s t : Text) → after p s ≡ some t → (starts_with p s ≡ true) × (t ≡ drop (length p) s)
unfolding after
after-found p s t h =
    let (b, e) = if_none (starts_with p s) (some (drop (length p) s)) t h in
    (b, sym (some_injective e))

after-IsLocal : (p : Text) → IsLocal (after p)
unfolding IsLocal after
after-IsLocal p s r rest h =
    let (b, e) = after-found p s rest h in
    rw (starts_with_more p s r b, drop-append (length p) s r (starts_with-length p s b), e) refl

and_then-IsLocal :
    (f g : Text → Option Text) → IsLocal f → IsLocal g → IsLocal (λ s. and_then (f s) g)
unfolding IsLocal
and_then-IsLocal f g hf hg s r rest h = by_first (Option-cases (f s))
  where
    by_first :
        (f s ≡ none) ⊎ ((t : Text) × (f s ≡ some t)) → and_then (f (s ++ r)) g ≡ some (rest ++ r)
    by_first (inl e) = absurd (none-some (subst (λ o. and_then o g ≡ some rest) e h))
    by_first (inr (t, e)) =
        rw (hf s r t e) (hg t r rest (subst (λ o. and_then o g ≡ some rest) e h))

-- A run that ends within a text is the same where the text goes on.
pub span_more :
    (p : ℕ → Bool) (s r : Text) (c : ℕ) (t : Text)
    → (span p s).1 ≡ c ∷ t
    → ((span p (s ++ r)).0 ≡ (span p s).0) × ((span p (s ++ r)).1 ≡ (span p s).1 ++ r)
unfolding span
span_more p [] r c t h = cc
span_more p (d ∷ s) r c t h = elim (Bool-cases (p d)) [
  | inl run ↦
      let (w, u) = span_more p s r c t (
        ap (λ (x : Text × Text). x.1)
          (sym (if_true (p d) (d ∷ (span p s).0, (span p s).1) ([], d ∷ s) run))
        ∙ h) in
      rw run (ap (λ l. d ∷ l) w, u)
  | inr end ↦ rw end (refl, refl)
]

pub not_nil :
    (p : Text) (c : ℕ) (rest s : Text)
    → after (c ∷ p) s ≡ some rest
    → (d : ℕ) × ((t : Text) × (s ≡ d ∷ t))
unfolding after starts_with
not_nil p c rest [] h = cc
not_nil p c rest (d ∷ s) h = (d, (s, refl))

after_spaces-IsLocal : (c : ℕ) (p : Text) → IsLocal (after_spaces (c ∷ p))
unfolding IsLocal after_spaces
after_spaces-IsLocal c p s r rest h =
    let (d, (t, e)) = not_nil p c rest (span is_space s).1 h in
    rw ((span_more is_space s r d t e).1) (after-IsLocal (c ∷ p) (span is_space s).1 r rest h)

after_name-IsLocal : IsLocal after_name
unfolding IsLocal after_name
after_name-IsLocal s r rest h =
    let (named, found) =
      if_none (ends_with (codes "model") (span is_word s).0) (after quote (span is_word s).1) rest
        h in
    let (d, (t, e)) = not_nil [] b'"' rest (span is_word s).1 found in
    let (name, behind) = span_more is_word s r d t e in
    rw (name, behind, named) (after-IsLocal quote (span is_word s).1 r rest found)

pub match_prefix-IsLocal : IsLocal match_prefix
unfolding match_prefix
match_prefix-IsLocal = and_then-IsLocal (after quote) _ (after-IsLocal quote) (
    and_then-IsLocal after_name _ after_name-IsLocal (
      and_then-IsLocal (after_spaces (codes ":")) (after_spaces quote)
        (after_spaces-IsLocal b':' []) (after_spaces-IsLocal b'"' [])))

pub value-IsLocal : (from : Text) → IsLocal (λ v. and_then (after from v) (after quote))
value-IsLocal from =
    and_then-IsLocal (after from) (after quote) (after-IsLocal from) (after-IsLocal quote)
