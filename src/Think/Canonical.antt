-- ===== src/Think/Canonical.antt =====
-- Lists of segments in the one form that stands for a labelled text: no segment is empty, and
-- neighbours differ in kind.
use llmrelay_service.Base.{
  ℕ, zero, suc, ◌+◌, ◌≡◌, refl, sym, ap, ◌∙◌, Bool, true, false, not, List, [], ◌∷◌, ◌++◌, Text,
  index_of, length, take, drop, Bool-cases, Option-cases, inl, inr, is_empty, concat, if◌then◌else◌,
}
use mathlib.Core.List.{append_assoc, append-nil}
use llmrelay_service.Think.{
  Kind, Segment, message, reasoning, tag_of, kind_of, same_kind, push_last, push_segment,
  split_loop, split_think_tagged_text, stream_segments,
}
use llmrelay_service.Think.Labels.{labelled, flat, flat-push_segment}
use llmrelay_service.Think.Chunks.{stream-split}

-- The list is empty or starts with another kind.
abbrev pub DiffersFrom : Kind → List Segment → Type 0
DiffersFrom k [] = Unit
DiffersFrom k (s ∷ ss) = same_kind k s.kind ≡ false

abbrev pub IsCanonical : List Segment → Type 0
IsCanonical [] = Unit
IsCanonical (s ∷ ss) = (is_empty s.text ≡ false) × DiffersFrom s.kind ss × IsCanonical ss

push_last-DiffersFrom :
    (j : Kind) (s : Segment) (ss : List Segment) (k : Kind) (t : Text)
    → DiffersFrom j (s ∷ ss)
    → DiffersFrom j (push_last (s ∷ ss) k t)
unfolding push_last
push_last-DiffersFrom j s [] k t h = elim (Bool-cases (same_kind s.kind k)) [
  | inl e ↦ rw e h
  | inr e ↦ rw e h
]
push_last-DiffersFrom j s (r ∷ rs) k t h = h

append-nonempty : (s t : Text) → is_empty s ≡ false → is_empty (s ++ t) ≡ false
append-nonempty [] t h = cc
append-nonempty (c ∷ s) t h = refl

push_last-IsCanonical :
    (ss : List Segment) (k : Kind) (t : Text)
    → IsCanonical ss
    → is_empty t ≡ false
    → IsCanonical (push_last ss k t)
unfolding push_last
push_last-IsCanonical [] k t h e = (e, tt, tt)
push_last-IsCanonical (s ∷ []) k t (h, _, _) e = elim (Bool-cases (same_kind s.kind k)) [
  | inl same ↦ rw same (append-nonempty s.text t h, tt, tt)
  | inr other ↦ rw other (h, other, (e, tt, tt))
]
push_last-IsCanonical (s ∷ r ∷ rs) k t (h, d, c) e =
    (h, push_last-DiffersFrom s.kind r rs k t d, push_last-IsCanonical (r ∷ rs) k t c e)

pub push_segment-IsCanonical :
    (ss : List Segment) (k : Kind) (t : Text) → IsCanonical ss → IsCanonical (push_segment ss k t)
unfolding push_segment
push_segment-IsCanonical ss k [] h = h
push_segment-IsCanonical ss k (c ∷ t) h = push_last-IsCanonical ss k (c ∷ t) h refl

split_loop-IsCanonical :
    (fuel : ℕ) (inside : Bool) (s : Text) (segments : List Segment)
    → IsCanonical segments
    → IsCanonical (split_loop fuel inside s segments)
unfolding split_loop
split_loop-IsCanonical zero inside s segments h = h
split_loop-IsCanonical (suc fuel) inside [] segments h = h
split_loop-IsCanonical (suc fuel) inside (c ∷ s) segments h =
    elim (Option-cases (index_of (tag_of inside) (c ∷ s))) [
      | inl e ↦ rw (e, split_loop) (push_segment-IsCanonical segments (kind_of inside) (c ∷ s) h)
      | inr (i, e) ↦
          rw (e, split_loop)
            (split_loop-IsCanonical fuel (not inside) (drop (i + length (tag_of inside)) (c ∷ s))
              (push_segment segments (kind_of inside) (take i (c ∷ s)))
              (push_segment-IsCanonical segments (kind_of inside) (take i (c ∷ s)) h))
    ]

-- The segments of a text are never empty, and reasoning and visible text take turns.
pub split-IsCanonical : (text : Text) → IsCanonical (split_think_tagged_text text)
unfolding split_think_tagged_text
split-IsCanonical text = split_loop-IsCanonical (length text) false text [] tt

-- The canonical list of a labelled text.
prepend : Kind → ℕ → List Segment → List Segment
prepend k c [] = record { kind = k; text = c ∷ [] } ∷ []
prepend k c (s ∷ ss) =
    if same_kind k s.kind
    then record s { text = c ∷ s.text } ∷ ss
    else record { kind = k; text = c ∷ [] } ∷ s ∷ ss

pub group : List (Kind × ℕ) → List Segment
unfolding prepend
group [] = []
group ((k, c) ∷ l) = prepend k c (group l)

same_kind_self : (k : Kind) → same_kind k k ≡ true
same_kind_self message = refl
same_kind_self reasoning = refl

prepend_new :
    (k : Kind) (c : ℕ) (ss : List Segment)
    → DiffersFrom k ss
    → prepend k c ss ≡ record { kind = k; text = c ∷ [] } ∷ ss
unfolding prepend
prepend_new k c [] h = refl
prepend_new k c (s ∷ ss) h = rw h

group-labelled :
    (k : Kind) (c : ℕ) (t : Text) (l : List (Kind × ℕ)) (ss : List Segment)
    → group l ≡ ss
    → DiffersFrom k ss
    → group (labelled k (c ∷ t) ++ l) ≡ record { kind = k; text = c ∷ t } ∷ ss
unfolding group
group-labelled k c [] l ss e d = rw e (prepend_new k c ss d)
group-labelled k c (x ∷ t) l ss e d = rw (group-labelled k x t l ss e d) (rw (same_kind_self k))

group_head :
    (k : Kind) (t : Text) (ss : List Segment)
    → group (flat ss) ≡ ss
    → is_empty t ≡ false
    → DiffersFrom k ss
    → group (labelled k t ++ flat ss) ≡ record { kind = k; text = t } ∷ ss
group_head k [] ss ih e d = cc
group_head k (c ∷ t) ss ih e d = group-labelled k c t (flat ss) ss ih d

group-flat : (ss : List Segment) → IsCanonical ss → group (flat ss) ≡ ss
unfolding group
group-flat [] h = refl
group-flat (s ∷ ss) (e, d, h) = group_head s.kind s.text ss (group-flat ss h) e d

-- Canonical lists are equal when they stand for the same labelled text.
pub canonical_unique :
    (ss ts : List Segment) → IsCanonical ss → IsCanonical ts → flat ss ≡ flat ts → ss ≡ ts
canonical_unique ss ts h k e = sym (group-flat ss h) ∙ ap group e ∙ group-flat ts k

-- Segments pushed one after the other onto a list.
unfoldable pub push_all : List Segment → List Segment → List Segment
push_all acc [] = acc
push_all acc (s ∷ ss) = push_all (push_segment acc s.kind s.text) ss

pub push_all-IsCanonical : (acc ss : List Segment) → IsCanonical acc → IsCanonical (push_all acc ss)
unfolding push_all
push_all-IsCanonical acc [] h = h
push_all-IsCanonical acc (s ∷ ss) h =
    push_all-IsCanonical (push_segment acc s.kind s.text) ss
      (push_segment-IsCanonical acc s.kind s.text h)

pub flat-push_all : (acc ss : List Segment) → flat (push_all acc ss) ≡ flat acc ++ flat ss
unfolding push_all
flat-push_all acc [] = sym (append-nil (flat acc))
flat-push_all acc (s ∷ ss) =
    flat-push_all (push_segment acc s.kind s.text) ss
    ∙ ap (λ l. l ++ flat ss) (flat-push_segment acc s.kind s.text)
    ∙ append_assoc (flat acc) (labelled s.kind s.text) (flat ss)

pub push_all-append :
    (acc ss ts : List Segment) → push_all acc (ss ++ ts) ≡ push_all (push_all acc ss) ts
unfolding push_all
push_all-append acc [] ts = refl
push_all-append acc (s ∷ ss) ts = push_all-append (push_segment acc s.kind s.text) ss ts

-- The emitted segments of any cutting of a text into chunks, merged where neighbours agree in
-- kind, are the segments of the whole text.
pub merged_stream-split :
    (chunks : List Text)
    → push_all [] (stream_segments chunks) ≡ split_think_tagged_text (concat chunks)
merged_stream-split chunks =
    canonical_unique (push_all [] (stream_segments chunks))
      (split_think_tagged_text (concat chunks))
      (push_all-IsCanonical [] (stream_segments chunks) tt) (split-IsCanonical (concat chunks))
      (flat-push_all [] (stream_segments chunks) ∙ stream-split chunks)
