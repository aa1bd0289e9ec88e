-- ===== src/Observer/Rewriting.antt =====
-- What the replacement of the model's name leaves alone, and what it does with a body in chunks
mod Local
pub mod Exact
use llmrelay_service.Base.{
  ℕ, ◌-◌, ◌≤◌, Bool, true, false, ◌||◌, Option, none, some, List, [], ◌∷◌, ◌++◌, if◌then◌else◌, ◌≡◌,
  refl, sym, ap, subst, ◌∙◌, ◌⊎◌, inl, inr, Text, codes, starts_with, starts_with_more,
  starts_with-length, drop-append, ends_with, is_space, is_empty, length, length-append,
  append_assoc, append-nil, take, drop, take-append-drop, leb, ◌==◌, list_eq, nat_eq, and_then,
  concat, map, Bool-cases, Option-cases, arith, if_true,
}
use llmrelay_service.Observer.Rewrite.{
  is_word, span, after, quote, after_name, after_spaces, match_prefix, match_field, replace_from,
  replace, safe_tail, flush_safe, flush_rest, pump, rewrite_body,
}
use llmrelay_service.Observer.Rewriting.Local.{IsLocal, match_prefix-IsLocal, value-IsLocal}

abbrev pub is_some {ℓ} : {A : Type ℓ} → Option A → Bool
is_some none = false
is_some (some a) = true

-- If a text has a field whose value is the name
unfoldable pub has_field : Text → Text → Bool
unfolding match_field
has_field from [] = false
has_field from (c ∷ s) = is_some (match_field from (c ∷ s)) || has_field from s

pub match_field-some :
    (from s value rest : Text)
    → match_prefix s ≡ some value
    → and_then (after from value) (after quote) ≡ some rest
    → match_field from s ≡ some (value, rest)
unfolding match_field
match_field-some from s value rest e k = rw (e, k) refl

-- A match stays a match where the text goes on.
pub match_field_more :
    (from s r : Text)
    → is_some (match_field from (s ++ r)) ≡ false
    → is_some (match_field from s) ≡ false
unfolding match_field IsLocal
match_field_more from s r h = by_prefix (match_prefix s) refl
  where
    by_value :
        (value : Text)
        → match_prefix s ≡ some value
        → (m : Option Text) → and_then (after from value) (after quote) ≡ m
        → is_some {A = Text × Text} (and_then m (λ rest. some (value, rest))) ≡ false
    by_value value e none k = refl
    by_value value e (some rest) k =
        sym (
          ap is_some (
            match_field-some from (s ++ r) (value ++ r) (rest ++ r)
              (match_prefix-IsLocal s r value e) (value-IsLocal from value r rest k)))
        ∙ h

    by_prefix :
        (m : Option Text)
        → match_prefix s ≡ m
        → is_some {A = Text × Text} (
            and_then m (λ value.
              and_then (and_then (after from value) (after quote)) (λ rest. some (value, rest))))
          ≡ false
    by_prefix none e = refl
    by_prefix (some value) e = by_value value e (and_then (after from value) (after quote)) refl

or_false : (a b : Bool) → (a || b) ≡ false → (a ≡ false) × (b ≡ false)
or_false true b h = cc
or_false false b h = (refl, h)

has_field-append :
    (from s r : Text)
    → has_field from (s ++ r) ≡ false
    → (has_field from s ≡ false) × (has_field from r ≡ false)
unfolding has_field
has_field-append from [] r h = (refl, h)
has_field-append from (c ∷ s) r h =
    let (here, later) =
      or_false (is_some (match_field from (c ∷ (s ++ r)))) (has_field from (s ++ r)) h in
    let (left, right) = has_field-append from s r later in
    (rw (match_field_more from (c ∷ s) r here) left, right)

-- A text without the field stays.
replace_unchanged : (from to s : Text) → has_field from s ≡ false → replace from to s ≡ s
unfolding replace replace_from has_field
replace_unchanged from to [] h = refl
replace_unchanged from to (c ∷ s) h =
    let (here, later) = or_false (is_some (match_field from (c ∷ s))) (has_field from s) h in
    at_match (match_field from (c ∷ s)) here (replace_unchanged from to s later)
  where
    at_match :
        (m : Option (Text × Text))
        → is_some m ≡ false
        → replace from to s ≡ s
        → (elim m [
          | none ↦ c ∷ replace_from from to 0 s
          | some (value, rest) ↦
              take (length (c ∷ s) - length value) (c ∷ s)
              ++ (to ++ (quote ++ replace_from from to (length s - length rest) s))
        ])
          ≡ c ∷ s
    at_match none e k = ap (λ l. c ∷ l) k
    at_match (some v) e k = cc

module _ (byte_length : Text → ℕ) (from to : Text) where
  pub take_lem : (n : ℕ) (b r : Text) → take n b ++ (drop n b ++ r) ≡ b ++ r
  take_lem n b r =
      sym (append_assoc (take n b) (drop n b) r) ∙ ap (λ t. t ++ r) (take-append-drop n b)

  -- What is enqueued are the replacements of pieces that make up the text.
  IsPieced : List Text → Text → Type 0
  IsPieced sent text =
      (pieces : List Text) × ((concat pieces ≡ text) × (sent ≡ map (replace from to) pieces))

  flush_rest-IsPieced : (buffer : Text) → IsPieced (flush_rest byte_length from to buffer) buffer
  unfolding flush_rest IsPieced
  flush_rest-IsPieced [] = ([], (refl, refl))
  flush_rest-IsPieced (c ∷ buffer) = ((c ∷ buffer) ∷ [], (append-nil (c ∷ buffer), refl))

  pump-IsPieced :
      (buffer : Text) (chunks : List Text) (tail : Text)
      → IsPieced (pump byte_length from to buffer chunks tail) (buffer ++ (concat chunks ++ tail))
  unfolding pump flush_safe IsPieced
  pump-IsPieced buffer [] tail = flush_rest-IsPieced (buffer ++ tail)
  pump-IsPieced buffer (chunk ∷ chunks) tail =
      let whole = buffer ++ chunk in
      let room = safe_tail byte_length from to in
      let same =
        append_assoc buffer chunk (concat chunks ++ tail)
        ∙ ap (λ t. buffer ++ t) (sym (append_assoc chunk (concat chunks) tail)) in
      elim (Bool-cases (leb (length whole) room)) [
        | inl short ↦
            let (pieces, (e, k)) = pump-IsPieced whole chunks tail in
            rw short (pieces, (e ∙ same, k))
        | inr long ↦
            let n = length whole - room in
            let (pieces, (e, k)) = pump-IsPieced (drop n whole) chunks tail in
            rw long (
              take n whole ∷ pieces,
              (
                ap (λ t. take n whole ++ t) e ∙ (take_lem n whole (concat chunks ++ tail) ∙ same),
                ap (λ l. replace from to (take n whole) ∷ l) k,
              ),
            )
      ]

  pieces_unchanged :
      (pieces : List Text)
      → has_field from (concat pieces) ≡ false
      → concat (map (replace from to) pieces) ≡ concat pieces
  pieces_unchanged [] h = refl
  pieces_unchanged (p ∷ ps) h =
      let (here, later) = has_field-append from p (concat ps) h in
      rw (replace_unchanged from to p here, pieces_unchanged ps later) refl

  pub concat-append : (xs : List Text) (t : Text) → concat (xs ++ (t ∷ [])) ≡ concat xs ++ t
  concat-append [] t = append-nil t
  concat-append (x ∷ xs) t =
      ap (λ l. x ++ l) (concat-append xs t) ∙ sym (append_assoc x (concat xs) t)

  -- A body without a field whose value is the name reaches the encoder unchanged, however it is cut
  -- into chunks.
  pub rewrite_body_unchanged :
      (chunks : List Text) (tail : Text)
      → has_field from (concat chunks ++ tail) ≡ false
      → concat (rewrite_body byte_length from to chunks tail) ≡ concat chunks ++ tail
  unfolding rewrite_body IsPieced
  rewrite_body_unchanged chunks tail h = elim (Bool-cases (is_empty from || from == to)) [
    | inl off ↦ rw off (concat-append chunks tail)
    | inr on ↦
        let (pieces, (e, k)) = pump-IsPieced [] chunks tail in
        rw (on, k) (pieces_unchanged pieces (subst (λ t. has_field from t ≡ false) (sym e) h) ∙ e)
  ]
