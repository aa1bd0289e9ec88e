-- ===== src/Observer/Uncut.antt =====
-- Where no field stands across a place at which the buffer is cut, the streamed replacement is that of
-- the whole body.
use llmrelay_service.Base.{
  ℕ, zero, suc, ◌-◌, ◌≤◌, Bool, true, false, ◌&&◌, ◌||◌, Option, none, some, List, [], ◌∷◌, ◌++◌,
  if◌then◌else◌, ◌≡◌, refl, sym, ap, subst, ◌∙◌, inl, inr, Text, is_empty, length, length-append,
  append_assoc, append-nil, take, drop, leb, ◌==◌, list_eq, nat_eq, concat, if_true, if_false,
  Bool-cases, Option-cases, arith,
}
use llmrelay_service.Observer.Rewrite.{
  quote, match_field, replace_from, replace, safe_tail, flush_safe, flush_rest, pump, rewrite_body,
}
use llmrelay_service.Observer.Rewriting.{
  is_some, match_field_more, match_field-some, concat-append, take_lem,
}
use llmrelay_service.Observer.Rewriting.Exact.{match_field_exact, IsWithin}

-- If what is found in a text that goes on ends before it does
abbrev pub ends_before : Text → Option (Text × Text) → Bool
ends_before r none = true
ends_before r (some (value, rest)) = leb (length r) (length rest)

-- If every field that starts in a text ends in it where the text goes on
unfoldable pub uncut : Text → Text → Text → Bool
unfolding match_field
uncut from [] r = true
uncut from (c ∷ s) r = ends_before r (match_field from (c ∷ (s ++ r))) && uncut from s r

and_true : (a b : Bool) → (a && b) ≡ true → (a ≡ true) × (b ≡ true)
and_true true b h = (refl, h)
and_true false b h = cc

take_append : (n : ℕ) (s r : Text) → n ≤ length s → take n (s ++ r) ≡ take n s
take_append zero s r b = refl
take_append (suc n) [] r b = elim b [ ]
take_append (suc n) (c ∷ s) r b = ap (λ l. c ∷ l) (take_append n s r (omega (arith, b)))

is_none {ℓ} : {A : Type ℓ} (m : Option A) → is_some m ≡ false → m ≡ none
is_none none h = refl
is_none (some a) h = cc

none_more : (from s r : Text) → match_field from (s ++ r) ≡ none → match_field from s ≡ none
none_more from s r e = is_none (match_field from s) (match_field_more from s r (ap is_some e))

length-less : (s u r : Text) → length (s ++ r) - length (u ++ r) ≡ length s - length u
length-less s u r = omega (arith, length-append s r, length-append u r)

append_assoc3 : (a b c d : Text) → (a ++ (b ++ c)) ++ d ≡ a ++ (b ++ (c ++ d))
append_assoc3 a b c d = append_assoc a (b ++ c) d ∙ ap (λ t. a ++ t) (append_assoc b c d)

abbrev replace_at : Text → Text → ℕ → Text → Option (Text × Text) → Text
replace_at from to c s m = elim m [
  | none ↦ c ∷ replace_from from to 0 s
  | some (value, rest) ↦
      take (length (c ∷ s) - length value) (c ∷ s)
      ++ (to ++ (quote ++ replace_from from to (length s - length rest) s))
]

replace_from-step :
    (from to : Text) (c : ℕ) (s : Text)
    → replace_from from to 0 (c ∷ s) ≡ replace_at from to c s (match_field from (c ∷ s))
unfolding replace_from
replace_from-step from to c s = refl

-- The replacement of a text in which every field ends does not depend on what follows it.
replace_from-append :
    (from to : Text) (skip : ℕ) (s r : Text)
    → skip ≤ length s
    → uncut from s r ≡ true
    → replace_from from to skip (s ++ r) ≡ replace_from from to skip s ++ replace_from from to 0 r
unfolding uncut IsWithin replace_from
replace_from-append from to zero [] r b h = refl
replace_from-append from to (suc skip) [] r b h = elim b [ ]
replace_from-append from to (suc skip) (c ∷ s) r b h =
    replace_from-append from to skip s r (omega (arith, b))
      (and_true (ends_before r (match_field from (c ∷ (s ++ r)))) (uncut from s r) h).1
replace_from-append from to zero (c ∷ s) r b h =
    let (here, later) =
      and_true (ends_before r (match_field from (c ∷ (s ++ r)))) (uncut from s r) h in
    elim (Option-cases (match_field from (c ∷ (s ++ r)))) [
      | inl e ↦
          rw
            (
              replace_from-step from to c (s ++ r),
              replace_from-step from to c s,
              e,
              none_more from (c ∷ s) r e,
            )
            (ap (λ l. c ∷ l) (replace_from-append from to 0 s r (omega arith) later))
      | inr ((value, rest), e) ↦
          let (v, (u, (found, (last, (is_v, is_u))))) =
            match_field_exact from (c ∷ s) r value rest e
              (ends value rest (subst (λ m. ends_before r m ≡ true) e here)) in
          rw
            (
              replace_from-step from to c (s ++ r),
              replace_from-step from to c s,
              e,
              match_field-some from (c ∷ s) v u found last,
              is_v,
              is_u,
              length-less (c ∷ s) v r,
              length-less s u r,
              take_append (length (c ∷ s) - length v) (c ∷ s) r (omega arith),
              replace_from-append from to (length s - length u) s r (omega arith) later,
            )
            (sym (
              append_assoc3 (take (length (c ∷ s) - length v) (c ∷ s)) to
                (quote ++ replace_from from to (length s - length u) s) (replace_from from to 0 r)))
    ]
  where
    ends : (value rest : Text) → ends_before r (some (value, rest)) ≡ true → length r ≤ length rest
    ends value rest h = ground (arith, h)

concat-flush_rest :
    (byte_length : Text → ℕ) (from to buffer : Text)
    → concat (flush_rest byte_length from to buffer) ≡ replace from to buffer
unfolding flush_rest replace replace_from
concat-flush_rest byte_length from to [] = refl
concat-flush_rest byte_length from to (c ∷ buffer) = append-nil (replace from to (c ∷ buffer))

-- If no field stands across a place at which the buffer is cut
unfoldable pub uncut_pump : (Text → ℕ) → Text → Text → Text → List Text → Text → Bool
unfolding uncut
uncut_pump byte_length from to buffer [] tail = true
uncut_pump byte_length from to buffer (chunk ∷ chunks) tail =
    let whole = buffer ++ chunk in
    let room = safe_tail byte_length from to in
    let n = length whole - room in
    let waits = uncut_pump byte_length from to whole chunks tail in
    let cuts =
      uncut from (take n whole) (drop n whole ++ (concat chunks ++ tail))
      && uncut_pump byte_length from to (drop n whole) chunks tail in
    if leb (length whole) room then waits else cuts

replace-append :
    (from to s r : Text)
    → uncut from s r ≡ true
    → replace from to s ++ replace from to r ≡ replace from to (s ++ r)
unfolding replace
replace-append from to s r h = sym (replace_from-append from to 0 s r (omega arith) h)

-- Where no field is cut, what is enqueued is the replacement of the whole.
concat-pump :
    (byte_length : Text → ℕ) (from to buffer : Text) (chunks : List Text) (tail : Text)
    → uncut_pump byte_length from to buffer chunks tail ≡ true
    → concat (pump byte_length from to buffer chunks tail)
      ≡ replace from to (buffer ++ (concat chunks ++ tail))
unfolding pump flush_safe uncut_pump
concat-pump byte_length from to buffer [] tail h =
    concat-flush_rest byte_length from to (buffer ++ tail)
concat-pump byte_length from to buffer (chunk ∷ chunks) tail h =
    let whole = buffer ++ chunk in
    let room = safe_tail byte_length from to in
    let n = length whole - room in
    let left = drop n whole ++ (concat chunks ++ tail) in
    let waits = uncut_pump byte_length from to whole chunks tail in
    let goes_on = uncut_pump byte_length from to (drop n whole) chunks tail in
    let cuts = uncut from (take n whole) left && goes_on in
    let same =
      append_assoc buffer chunk (concat chunks ++ tail)
      ∙ ap (λ t. buffer ++ t) (sym (append_assoc chunk (concat chunks) tail)) in
    elim (Bool-cases (leb (length whole) room)) [
      | inl short ↦ rw short (
          concat-pump byte_length from to whole chunks tail
            (sym (if_true (leb (length whole) room) waits cuts short) ∙ h)
          ∙ ap (replace from to) same)
      | inr long ↦
          let (here, later) =
            and_true (uncut from (take n whole) left) goes_on
              (sym (if_false (leb (length whole) room) waits cuts long) ∙ h) in
          rw long (
            ap (λ t. replace from to (take n whole) ++ t)
              (concat-pump byte_length from to (drop n whole) chunks tail later)
            ∙ (replace-append from to (take n whole) left here
                ∙ ap (replace from to)
                    (take_lem byte_length from to n whole (concat chunks ++ tail) ∙ same)))
    ]

-- Where no field stands across a place at which the buffer is cut, what reaches the encoder is the
-- replacement of the whole body, however it comes in chunks; without a name, or with the same one, the
-- body stays.
pub rewrite_body-replace :
    (byte_length : Text → ℕ) (from to : Text) (chunks : List Text) (tail : Text)
    → uncut_pump byte_length from to [] chunks tail ≡ true
    → concat (rewrite_body byte_length from to chunks tail) ≡ (
        if is_empty from || from == to
        then concat chunks ++ tail
        else replace from to (concat chunks ++ tail))
unfolding rewrite_body
rewrite_body-replace byte_length from to chunks tail h =
    elim (Bool-cases (is_empty from || from == to)) [
      | inl off ↦ rw off (concat-append byte_length from to chunks tail)
      | inr on ↦ rw on (concat-pump byte_length from to [] chunks tail h)
    ]
