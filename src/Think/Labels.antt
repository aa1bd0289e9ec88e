-- ===== src/Think/Labels.antt =====
-- What the tag handling means, without a cursor or a buffer: each character in turn is in or out of
-- a think block, and a tag is skipped.
use llmrelay_service.Base.{
  ℕ, zero, suc, ◌-◌, ◌≤◌, ◌<◌, ◌≡◌, refl, sym, ap, Bool, true, false, not, List, [], ◌∷◌, ◌++◌,
  if◌then◌else◌, Text, starts_with, length, take, drop, arith, Bool-cases, inl, inr,
}
use mathlib.Core.List.{append_assoc, append-nil}
use llmrelay_service.Think.{
  Kind, message, reasoning, Segment, tag_of, kind_of, same_kind, push_last, push_segment,
}

-- `skip` characters of a tag are still to be passed over.
unfoldable pub label : ℕ → Bool → Text → List (Kind × ℕ)
unfolding starts_with
label skip inside [] = []
label (suc skip) inside (c ∷ s) = label skip inside s
label zero inside (c ∷ s) =
    let tagged = label (length (tag_of inside) - 1) (not inside) s in
    let plain = (kind_of inside, c) ∷ label zero inside s in
    if starts_with (tag_of inside) (c ∷ s) then tagged else plain

-- A text of one kind, and the text that segments stand for.
abbrev pub labelled : Kind → Text → List (Kind × ℕ)
labelled k [] = []
labelled k (c ∷ s) = (k, c) ∷ labelled k s

abbrev pub flat : List Segment → List (Kind × ℕ)
flat [] = []
flat (s ∷ ss) = labelled s.kind s.text ++ flat ss

pub labelled-append : (k : Kind) (s t : Text) → labelled k (s ++ t) ≡ labelled k s ++ labelled k t
labelled-append k [] t = refl
labelled-append k (c ∷ s) t = ap (λ l. (k, c) ∷ l) (labelled-append k s t)

pub flat-append : (ss ts : List Segment) → flat (ss ++ ts) ≡ flat ss ++ flat ts
flat-append [] ts = refl
flat-append (s ∷ ss) ts =
    rw (flat-append ss ts) (sym (append_assoc (labelled s.kind s.text) (flat ss) (flat ts)))

same_kind-eq : (j k : Kind) → same_kind j k ≡ true → j ≡ k
same_kind-eq message message h = refl
same_kind-eq reasoning reasoning h = refl
same_kind-eq message reasoning h = cc
same_kind-eq reasoning message h = cc

flat-push_last :
    (ss : List Segment) (k : Kind) (t : Text) → flat (push_last ss k t) ≡ flat ss ++ labelled k t
unfolding push_last
flat-push_last [] k t = append-nil _
flat-push_last (s ∷ []) k t = elim (Bool-cases (same_kind s.kind k)) [
  | inl same ↦
      rw same (rw (same_kind-eq s.kind k same) (simp (append-nil, labelled-append k s.text t)))
  | inr other ↦ rw other (simp append-nil)
]
flat-push_last (s ∷ r ∷ rs) k t =
    rw (flat-push_last (r ∷ rs) k t)
      (sym (append_assoc (labelled s.kind s.text) (flat (r ∷ rs)) (labelled k t)))

-- Pushing a segment appends its text.
pub flat-push_segment :
    (ss : List Segment) (k : Kind) (t : Text) → flat (push_segment ss k t) ≡ flat ss ++ labelled k t
unfolding push_segment
flat-push_segment ss k [] = sym (append-nil (flat ss))
flat-push_segment ss k (c ∷ t) = flat-push_last ss k (c ∷ t)

-- Skipping is dropping.
pub label-drop :
    (n : ℕ) (inside : Bool) (s : Text) → label n inside s ≡ label zero inside (drop n s)
unfolding label
label-drop zero inside s = refl
label-drop (suc n) inside [] = refl
label-drop (suc n) inside (c ∷ s) = label-drop n inside s

-- Where no tag starts among the first `n` characters, these are plain text.
pub label_plain :
    (inside : Bool) (n : ℕ) (s r : Text)
    → n ≤ length s
    → ((m : ℕ) → m < n → starts_with (tag_of inside) (drop m s ++ r) ≡ false)
    → label zero inside (s ++ r)
      ≡ labelled (kind_of inside) (take n s) ++ label zero inside (drop n s ++ r)
unfolding label
label_plain inside zero s r b h = refl
label_plain inside (suc n) [] r b h = elim b [ ]
label_plain inside (suc n) (c ∷ s) r b h = rw (h 0 (omega arith)) (
    ap (λ l. (kind_of inside, c) ∷ l)
      (label_plain inside n s r (omega arith) (λ m q. h (suc m) (omega arith))))

-- A tag at the front switches the kind.
pub label_tag :
    (inside : Bool) (s : Text)
    → starts_with (tag_of inside) s ≡ true
    → label zero inside s ≡ label zero (not inside) (drop (length (tag_of inside)) s)
unfolding label starts_with
label_tag true [] h = cc
label_tag false [] h = cc
label_tag true (c ∷ s) h = rw h (label-drop 7 false s)
label_tag false (c ∷ s) h = rw h (label-drop 6 true s)
