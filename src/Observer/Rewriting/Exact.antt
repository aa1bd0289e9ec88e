-- ===== src/Observer/Rewriting/Exact.antt =====
-- What the parts of the pattern find within a text where it goes on, they find in the text alone.
use llmrelay_service.Base.{
  ℕ, ◌≤◌, ◌<◌, Bool, true, Option, none, some, [], ◌∷◌, ◌++◌, ◌≡◌, refl, sym, ap, subst, ◌∙◌, ◌⊎◌,
  inl, inr, Text, codes, starts_with, starts_with_append, starts_with-length, drop-append,
  ends_with, is_space, length, length-append, length-drop, drop, take, list_eq, nat_eq, and_then,
  Bool-cases, arith,
}
use llmrelay_service.Observer.Rewrite.{
  is_word, span, after, quote, after_name, after_spaces, match_prefix, match_field,
}
use llmrelay_service.Observer.Rewriting.Local.{none-some, span_more, if_none, after-found}

-- What a part of the pattern leaves is no longer than the text, and if it is as long as what follows a
-- text, the part is found in that text.
pub record IsExact (f : Text → Option Text) : Type 0 where
  pub shrinks : (s t : Text) → f s ≡ some t → length t ≤ length s
  pub exact :
      (s r t : Text)
      → f (s ++ r) ≡ some t
      → length r ≤ length t
      → (u : Text) × ((f s ≡ some u) × (t ≡ u ++ r))

after-shrinks :
    (p s t : Text) → (starts_with p s ≡ true) × (t ≡ drop (length p) s) → length t ≤ length s
after-shrinks p s t (h, e) = rw e (omega (arith, length-drop (length p) s))

after-exact :
    (p s r t : Text)
    → (starts_with p (s ++ r) ≡ true) × (t ≡ drop (length p) (s ++ r))
    → length r ≤ length t
    → (u : Text) × ((after p s ≡ some u) × (t ≡ u ++ r))
unfolding after
after-exact p s r t (h, e) b = by_start (starts_with_append p s r h)
  where
    fits : length p ≤ length s
    fits = omega (
      arith,
      b,
      ap length e,
      length-drop (length p) (s ++ r),
      length-append s r,
      starts_with-length p (s ++ r) h,
    )

    by_start :
        (starts_with p s ≡ true) ⊎ ((length s < length p) × (s ≡ take (length s) p))
        → (u : Text) × ((after p s ≡ some u) × (t ≡ u ++ r))
    by_start (inl start) = (drop (length p) s, (rw start refl, e ∙ drop-append (length p) s r fits))
    by_start (inr (short, cut)) = absurd (omega (arith, short, fits))

after-IsExact : (p : Text) → IsExact (after p)
after-IsExact p = record {
  shrinks = λ s t h. after-shrinks p s t (after-found p s t h);
  exact = λ s r t h b. after-exact p s r t (after-found p (s ++ r) t h) b;
}

and_then-some :
    (o : Option Text) (g : Text → Option Text) (t : Text)
    → and_then o g ≡ some t
    → (u : Text) × ((o ≡ some u) × (g u ≡ some t))
and_then-some none g t h = absurd (none-some h)
and_then-some (some u) g t h = (u, (refl, h))

and_then-IsExact :
    (f g : Text → Option Text) → IsExact f → IsExact g → IsExact (λ s. and_then (f s) g)
and_then-IsExact f g hf hg = record {
  shrinks = λ s t h.
      let (u, (e, k)) = and_then-some (f s) g t h in
      omega (arith, hf.shrinks s u e, hg.shrinks u t k);
  exact = λ s r t h b.
      let (u, (e, k)) = and_then-some (f (s ++ r)) g t h in
      let (v, (found, same)) = hf.exact s r u e (omega (arith, b, hg.shrinks u t k)) in
      let (w, (rest, last)) = hg.exact v r t (ap g (sym same) ∙ k) b in (w, (rw found rest, last));
}

length-span : (p : ℕ → Bool) (s : Text) → length (span p s).1 ≤ length s
unfolding span
length-span p [] = omega arith
length-span p (c ∷ s) = ground (arith, length-span p s)

span_step : (p : ℕ → Bool) (d : ℕ) (s : Text) → p d ≡ true → (span p (d ∷ s)).1 ≡ (span p s).1
unfolding span
span_step p d s h = rw h refl

-- A run that leaves more than what follows a text ends within it.
span_ends :
    (p : ℕ → Bool) (s r : Text)
    → length r < length (span p (s ++ r)).1
    → (c : ℕ) × ((t : Text) × ((span p s).1 ≡ c ∷ t))
unfolding span
span_ends p [] r h = absurd (omega (arith, length-span p r, h))
span_ends p (d ∷ s) r h = elim (Bool-cases (p d)) [
  | inl run ↦
      let (c, (t, e)) =
        span_ends p s r (subst (λ u. length r < length u) (span_step p d (s ++ r) run) h) in
      (c, (t, span_step p d s run ∙ e))
  | inr end ↦ rw end (d, (s, refl))
]

after-drops : (c : ℕ) (p s t : Text) → after (c ∷ p) s ≡ some t → length t < length s
after-drops c p s t h =
    let (start, e) = after-found (c ∷ p) s t h in
    omega (arith, ap length e, length-drop (length (c ∷ p)) s, starts_with-length (c ∷ p) s start)

-- What follows a run, and is found behind it, where the text goes on
run_exact :
    (run : ℕ → Bool) (c : ℕ) (p s r t : Text)
    → after (c ∷ p) (span run (s ++ r)).1 ≡ some t
    → length r ≤ length t
    → ((span run (s ++ r)).0 ≡ (span run s).0)
      × ((u : Text) × ((after (c ∷ p) (span run s).1 ≡ some u) × (t ≡ u ++ r)))
run_exact run c p s r t h b =
    let (d, (q, e)) =
      span_ends run s r (omega (arith, b, after-drops c p (span run (s ++ r)).1 t h)) in
    let (name, left) = span_more run s r d q e in
    (name, (after-IsExact (c ∷ p)).exact (span run s).1 r t (ap (after (c ∷ p)) (sym left) ∙ h) b)

after_spaces-IsExact : (c : ℕ) (p : Text) → IsExact (after_spaces (c ∷ p))
unfolding after_spaces
after_spaces-IsExact c p = record {
  shrinks = λ s t h.
      omega
        (arith, (after-IsExact (c ∷ p)).shrinks (span is_space s).1 t h, length-span is_space s);
  exact = λ s r t h b. (run_exact is_space c p s r t h b).1;
}

after_name-IsExact : IsExact after_name
unfolding after_name
after_name-IsExact = record {
  shrinks = λ s t h.
      let (named, k) =
        if_none (ends_with (codes "model") (span is_word s).0) (after quote (span is_word s).1) t
          h in
      omega (arith, (after-IsExact quote).shrinks (span is_word s).1 t k, length-span is_word s);
  exact = λ s r t h b.
      let (named, k) =
        if_none (ends_with (codes "model") (span is_word (s ++ r)).0)
          (after quote (span is_word (s ++ r)).1) t h in
      let (name, (u, (e, last))) = run_exact is_word b'"' [] s r t k b in
      (u, (rw (subst (λ w. ends_with (codes "model") w ≡ true) name named) e, last));
}

pub match_prefix-IsExact : IsExact match_prefix
unfolding match_prefix
match_prefix-IsExact = and_then-IsExact (after quote) _ (after-IsExact quote) (
    and_then-IsExact after_name _ after_name-IsExact (
      and_then-IsExact (after_spaces (codes ":")) (after_spaces quote)
        (after_spaces-IsExact b':' []) (after_spaces-IsExact b'"' [])))

pub value-IsExact : (from : Text) → IsExact (λ v. and_then (after from v) (after quote))
value-IsExact from =
    and_then-IsExact (after from) (after quote) (after-IsExact from) (after-IsExact quote)

some_pair :
    {v t w u : Text}
    → ◌≡◌ {A = Option (Text × Text)} (some (v, t)) (some (w, u))
    → (v ≡ w) × (t ≡ u)
some_pair h = (cc, cc)

-- What makes up a field of a text that goes on, where the field ends within the text
unfoldable pub IsWithin : Text → Text → Text → Text → Text → Type 0
IsWithin from s r value rest =
    (v : Text) × ((u : Text) × ((match_prefix s ≡ some v)
        × ((and_then (after from v) (after quote) ≡ some u)
            × ((value ≡ v ++ r) × (rest ≡ u ++ r)))))

-- A field that ends within a text is a field of that text.
pub match_field_exact :
    (from s r value rest : Text)
    → match_field from (s ++ r) ≡ some (value, rest)
    → length r ≤ length rest
    → IsWithin from s r value rest
unfolding match_field IsWithin
match_field_exact from s r value rest h b = by_prefix (match_prefix (s ++ r)) refl h
  where
    by_value :
        (w : Text)
        → match_prefix (s ++ r) ≡ some w
        → (m : Option Text) → and_then (after from w) (after quote) ≡ m
        → and_then {B = Text × Text} m (λ t. some (w, t)) ≡ some (value, rest)
        → IsWithin from s r value rest
    by_value w e none k h = cc
    by_value w e (some t) k h =
        let (same_value, same_rest) = some_pair h in
        let room = subst (λ x. length r ≤ length x) (sym same_rest) b in
        let (v, (found, is_v)) =
          match_prefix-IsExact.exact s r w e
            (omega (arith, room, (value-IsExact from).shrinks w t k)) in
        let (u, (last, is_u)) =
          (value-IsExact from).exact v r t
            (ap (λ x. and_then (after from x) (after quote)) (sym is_v) ∙ k) room in
        (v, (u, (found, (last, (sym same_value ∙ is_v, sym same_rest ∙ is_u)))))

    by_prefix :
        (m : Option Text)
        → match_prefix (s ++ r) ≡ m
        → and_then {B = Text × Text} m
            (λ w. and_then (and_then (after from w) (after quote)) (λ t. some (w, t)))
          ≡ some (value, rest)
        → IsWithin from s r value rest
    by_prefix none e h = cc
    by_prefix (some w) e h = by_value w e (and_then (after from w) (after quote)) refl h
