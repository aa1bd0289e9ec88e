-- ===== src/Think/Split.antt =====
-- Splitting a whole text at once.
use llmrelay_service.Base.{
  ℕ, zero, suc, ◌+◌, ◌≤◌, ◌<◌, ◌≡◌, refl, sym, ap, ◌∙◌, Bool, true, false, not, none, some, List,
  [], ◌∷◌, ◌++◌, Text, index_of, index_of_found, index_of_first, starts_with-drop, length, take,
  drop, drop-drop, length-drop, arith, Option-cases, inl, inr,
}
use mathlib.Core.List.{append_assoc, append-nil}
use llmrelay_service.Think.{
  Segment, tag_of, kind_of, push_segment, split_loop, split_think_tagged_text,
}
use llmrelay_service.Think.Labels.{label, labelled, flat, flat-push_segment, label_plain, label_tag}

take-length : (s : Text) → take (length s) s ≡ s
take-length [] = refl
take-length (c ∷ s) = ap (λ l. c ∷ l) (take-length s)

drop-length : (s : Text) → drop (length s) s ≡ []
drop-length [] = refl
drop-length (c ∷ s) = drop-length s

pub label-none :
    (inside : Bool) (s : Text)
    → index_of (tag_of inside) s ≡ none
    → label zero inside s ≡ labelled (kind_of inside) s
unfolding label
label-none inside s h =
    let plain =
      label_plain inside (length s) s [] (omega arith)
        (λ m b. rw append-nil (starts_with-drop (tag_of inside) s m h (omega arith))) in
    rw (append-nil, take-length s, drop-length s) at plain ∙ append-nil _

pub label-some :
    (inside : Bool) (s : Text) (i : ℕ)
    → index_of (tag_of inside) s ≡ some i
    → label zero inside s
      ≡ labelled (kind_of inside) (take i s)
        ++ label zero (not inside) (drop (i + length (tag_of inside)) s)
label-some inside s i h =
    let (found, bound) = index_of_found (tag_of inside) s i h in
    let plain =
      label_plain inside i s [] bound
        (λ m b. rw append-nil (index_of_first (tag_of inside) s i m h b)) in
    rw
      (
        append-nil,
        append-nil,
        label_tag inside (drop i s) found,
        drop-drop i (length (tag_of inside)) s,
      )
      at plain

tag_pos : (inside : Bool) → 0 < length (tag_of inside)
tag_pos true = omega arith
tag_pos false = omega arith

flat-split_loop :
    (fuel : ℕ) (inside : Bool) (s : Text) (segments : List Segment)
    → length s ≤ fuel
    → flat (split_loop fuel inside s segments) ≡ flat segments ++ label zero inside s
unfolding split_loop label
flat-split_loop zero inside [] segments b = sym (append-nil _)
flat-split_loop zero inside (c ∷ s) segments b = elim b [ ]
flat-split_loop (suc fuel) inside [] segments b = sym (append-nil _)
flat-split_loop (suc fuel) inside (c ∷ s) segments b =
    elim (Option-cases (index_of (tag_of inside) (c ∷ s))) [
      | inl e ↦
          rw (e, split_loop)
            (flat-push_segment segments (kind_of inside) (c ∷ s)
              ∙ ap (λ l. flat segments ++ l) (sym (label-none inside (c ∷ s) e)))
      | inr (i, e) ↦
          rw (e, split_loop)
            (flat-split_loop fuel (not inside) (drop (i + length (tag_of inside)) (c ∷ s))
                (push_segment segments (kind_of inside) (take i (c ∷ s)))
                (omega (arith, length-drop (i + length (tag_of inside)) (c ∷ s), tag_pos inside))
              ∙ rest i e)
    ]
  where
    rest :
        (i : ℕ)
        → index_of (tag_of inside) (c ∷ s) ≡ some i
        → flat (push_segment segments (kind_of inside) (take i (c ∷ s)))
            ++ label zero (not inside) (drop (i + length (tag_of inside)) (c ∷ s))
          ≡ flat segments ++ label zero inside (c ∷ s)
    rest i e =
        rw
          (
            flat-push_segment segments (kind_of inside) (take i (c ∷ s)),
            label-some inside (c ∷ s) i e,
          )
          (append_assoc (flat segments) _ _)

-- For every text, the segments that `splitThinkTaggedText` returns stand for the text with the
-- tags taken out, each character with its kind: the tags that count are the first opening one,
-- the first closing one behind it, and so on in turn.
pub split-label : (text : Text) → flat (split_think_tagged_text text) ≡ label zero false text
unfolding split_think_tagged_text
split-label text = flat-split_loop (length text) false text [] (omega arith)
