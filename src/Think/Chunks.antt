-- ===== src/Think/Chunks.antt =====
-- Splitting a text that arrives in chunks.
use llmrelay_service.Base.{
  ℕ, zero, suc, ◌+◌, ◌-◌, ◌≤◌, ◌<◌, ◌≡◌, refl, sym, ap, ◌∙◌, Bool, true, false, not, none, some,
  List, [], ◌∷◌, ◌++◌, Text, starts_with, ends_with, index_of, index_of_found, index_of_first,
  starts_with-drop, length, take, drop, drop-drop, length-drop, arith, Bool-cases, Option-cases,
  inl, inr, concat, index_of-drop-none, starts_with_append, starts_with_more, starts_with-length,
  drop-append, min, ends_with-drop, ◌⊎◌,
}
use mathlib.Core.List.{append_assoc, append-nil}
use llmrelay_service.Think.{
  Segment, Parser, tag_of, kind_of, push_segment, longest_from, longest_tag_suffix_prefix,
  consume_loop, consume_chunk, flush, consume_chunks, stream_segments, initial,
  split_think_tagged_text,
}
use llmrelay_service.Think.Labels.{
  label, labelled, flat, flat-push_segment, flat-append, label_plain, label_tag,
}
use llmrelay_service.Think.Split.{label-none, split-label}

longest_above :
    (n : ℕ) (value tag : Text) (l : ℕ)
    → longest_from n value tag < l
    → l ≤ n
    → ends_with (take l tag) value ≡ false
unfolding longest_from
longest_above zero value tag l h b = absurd (omega arith)
longest_above (suc n) value tag l h b = elim (Bool-cases (ends_with (take (suc n) tag) value)) [
  | inl e ↦ absurd (omega (arith, hit e))
  | inr e ↦ elim (le_cases l (suc n) b) [
    | inl q ↦ rw q e
    | inr q ↦ longest_above n value tag l (rw (e, longest_from) at h) (omega arith)
  ]
]
  where
    hit : ends_with (take (suc n) tag) value ≡ true → longest_from (suc n) value tag ≡ suc n
    hit e = rw (e, longest_from)

    le_cases : (a c : ℕ) → a ≤ c → (a ≡ c) ⊎ (a < c)
    le_cases a c h = omega arith

longest-le : (n : ℕ) (value tag : Text) → longest_from n value tag ≤ n
unfolding longest_from
longest-le zero value tag = omega arith
longest-le (suc n) value tag = ground (arith, longest-le n value tag)

held-le : (b : Text) (inside : Bool) → longest_tag_suffix_prefix b (tag_of inside) ≤ length b
unfolding longest_tag_suffix_prefix
held-le b inside =
    omega (arith, longest-le (min (length b) (length (tag_of inside) - 1)) b (tag_of inside))

-- In front of the held suffix no tag starts, whatever comes next.
held_safe :
    (inside : Bool) (b r : Text) (m : ℕ)
    → index_of (tag_of inside) b ≡ none
    → m < length b - longest_tag_suffix_prefix b (tag_of inside)
    → starts_with (tag_of inside) (drop m b ++ r) ≡ false
unfolding longest_tag_suffix_prefix
held_safe inside b r m e lt = elim (Bool-cases (starts_with (tag_of inside) (drop m b ++ r))) [
  | inr no_start ↦ no_start
  | inl start ↦ elim (starts_with_append (tag_of inside) (drop m b) r start) [
    | inl whole ↦ cc (starts_with-drop (tag_of inside) b m e (omega arith))
    | inr (short, same) ↦ cc (
      ends_with-drop (take (length (drop m b)) (tag_of inside)) b m (omega arith) same,
      longest_above (min (length b) (length (tag_of inside) - 1)) b (tag_of inside)
          (length (drop m b)) (omega (arith, length-drop m b)) (omega (arith, length-drop m b)),
    )
  ]
]

label_held :
    (inside : Bool) (b r : Text)
    → index_of (tag_of inside) b ≡ none
    → label zero inside (b ++ r)
      ≡ labelled (kind_of inside) (take (length b - longest_tag_suffix_prefix b (tag_of inside)) b)
        ++ label zero inside (drop (length b - longest_tag_suffix_prefix b (tag_of inside)) b ++ r)
label_held inside b r e =
    label_plain inside (length b - longest_tag_suffix_prefix b (tag_of inside)) b r (omega arith)
      (λ m lt. held_safe inside b r m e lt)

-- In front of a whole tag no other starts.
before_tag :
    (inside : Bool) (b r : Text) (i m : ℕ)
    → index_of (tag_of inside) b ≡ some i
    → m < i
    → starts_with (tag_of inside) (drop m b ++ r) ≡ false
before_tag inside b r i m e lt = elim (Bool-cases (starts_with (tag_of inside) (drop m b ++ r))) [
  | inr no_start ↦ no_start
  | inl start ↦ elim (starts_with_append (tag_of inside) (drop m b) r start) [
    | inl whole ↦ cc (index_of_first (tag_of inside) b i m e lt)
    | inr (short, same) ↦
        let (found, bound) = index_of_found (tag_of inside) b i e in
        absurd (
          omega (
            arith,
            starts_with-length (tag_of inside) (drop i b) found,
            length-drop i b,
            length-drop m b,
          ))
  ]
]

label_found :
    (inside : Bool) (b r : Text) (i : ℕ)
    → index_of (tag_of inside) b ≡ some i
    → label zero inside (b ++ r)
      ≡ labelled (kind_of inside) (take i b)
        ++ label zero (not inside) (drop (i + length (tag_of inside)) b ++ r)
label_found inside b r i e =
    let (found, bound) = index_of_found (tag_of inside) b i e in
    let fits = starts_with-length (tag_of inside) (drop i b) found in
    label_plain inside i b r bound (λ m lt. before_tag inside b r i m e lt)
    ∙ ap (λ l. labelled (kind_of inside) (take i b) ++ l)
        (label_tag inside (drop i b ++ r) (starts_with_more (tag_of inside) (drop i b) r found)
          ∙ ap (label zero (not inside)) (
              drop-append (length (tag_of inside)) (drop i b) r fits
              ∙ ap (λ l. l ++ r) (drop-drop i (length (tag_of inside)) b)))

abbrev parser : Text → Bool → Parser
parser b inside = record { buffer = b; in_think = inside }

-- What is in the buffer between two chunks holds no tag.
abbrev IsHeld : Parser → Type 0
IsHeld p = index_of (tag_of p.in_think) p.buffer ≡ none

-- A round of the loop emits what the buffer stands for, and keeps the rest.
abbrev Emits : Text → List Segment → Bool → Text → Parser × List Segment → Type 0
Emits r segments inside b (q, out) =
    (flat out ++ label zero q.in_think (q.buffer ++ r)
      ≡ flat segments ++ label zero inside (b ++ r))
    × IsHeld q

index_of_nil : (inside : Bool) → index_of (tag_of inside) [] ≡ none
unfolding index_of
index_of_nil true = refl
index_of_nil false = refl

tag_pos : (inside : Bool) → 0 < length (tag_of inside)
tag_pos true = omega arith
tag_pos false = omega arith

-- The last round: all but the held suffix is emitted.
consume_none :
    (inside : Bool) (b r : Text) (segments : List Segment)
    → index_of (tag_of inside) b ≡ none
    → let safe = length b - longest_tag_suffix_prefix b (tag_of inside) in
      Emits r segments inside b
        (parser (drop safe b) inside, push_segment segments (kind_of inside) (take safe b))
consume_none inside b r segments e = (
  rw
      (
        flat-push_segment segments (kind_of inside)
            (take (length b - longest_tag_suffix_prefix b (tag_of inside)) b),
        label_held inside b r e,
      )
      (append_assoc (flat segments) _ _),
  index_of-drop-none (tag_of inside) b _ e (omega arith),
)

consume-Emits :
    (fuel : ℕ) (inside : Bool) (b r : Text) (segments : List Segment)
    → length b < fuel
    → Emits r segments inside b (consume_loop fuel (parser b inside) segments)
unfolding consume_loop
consume-Emits zero inside b r segments lt = elim lt [ ]
consume-Emits (suc fuel) inside [] r segments lt = (refl, index_of_nil inside)
consume-Emits (suc fuel) inside (c ∷ b) r segments lt =
    elim (Option-cases (index_of (tag_of inside) (c ∷ b))) [
      | inl e ↦ rw (e, consume_loop) (consume_none inside (c ∷ b) r segments e)
      | inr (i, e) ↦
          let (emitted, held) =
            consume-Emits fuel (not inside) (drop (i + length (tag_of inside)) (c ∷ b)) r
              (push_segment segments (kind_of inside) (take i (c ∷ b)))
              (omega (arith, length-drop (i + length (tag_of inside)) (c ∷ b), tag_pos inside)) in
          rw (e, consume_loop)
            (
              emitted
                  ∙ rw
                      (
                        flat-push_segment segments (kind_of inside) (take i (c ∷ b)),
                        label_found inside (c ∷ b) r i e,
                      )
                      (append_assoc (flat segments) _ _),
              held,
            )
    ]

flat-flush : (p : Parser) → IsHeld p → flat (flush p).1 ≡ label zero p.in_think p.buffer
unfolding flush
flat-flush p h =
    flat-push_segment [] (kind_of p.in_think) p.buffer ∙ sym (label-none p.in_think p.buffer h)

chunks-label :
    (p : Parser) (chunks : List Text)
    → IsHeld p
    → flat (consume_chunks p chunks) ≡ label zero p.in_think (p.buffer ++ concat chunks)
unfolding consume_chunks consume_chunk
chunks-label p [] h = rw append-nil (flat-flush p h)
chunks-label p (chunk ∷ chunks) h =
    let (q, segments) = consume_chunk p chunk in
    let (emitted, held) =
      consume-Emits (suc (length (p.buffer ++ chunk))) p.in_think (p.buffer ++ chunk)
        (concat chunks) [] (omega arith) in
    flat-append segments (consume_chunks q chunks)
    ∙ ap (λ l. flat segments ++ l) (chunks-label q chunks held)
    ∙ emitted
    ∙ ap (label zero p.in_think) (append_assoc p.buffer chunk (concat chunks))

-- However a text is cut into chunks, the segments that the stream emits stand for the same
-- characters with the same kinds as those of the text split at once.
pub stream-split :
    (chunks : List Text)
    → flat (stream_segments chunks) ≡ flat (split_think_tagged_text (concat chunks))
unfolding stream_segments
stream-split chunks =
    chunks-label initial chunks (index_of_nil false) ∙ sym (split-label (concat chunks))
