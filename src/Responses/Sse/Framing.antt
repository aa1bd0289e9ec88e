-- ===== src/Responses/Sse/Framing.antt =====
-- How the body is cut into network chunks does not matter.
use llmrelay_service.Base.{
  ℕ, zero, suc, ◌+◌, ◌≤◌, ◌<◌, ◌≡◌, refl, sym, ap, ◌∙◌, Option, none, some, List, [], ◌∷◌, ◌++◌,
  if◌then◌else◌, Text, length, take, drop, length-drop, drop-append, is_empty, trim, list_eq,
  nat_eq, ℤ, Json, arith, concat, Option-cases, inl, inr,
}
use mathlib.Core.List.{append_assoc, append-nil}
use mathlib.Core.Option
use llmrelay_service.Responses.Stream.{Stream, create_empty}
use llmrelay_service.Responses.Chunks.{finalize_stream}
use llmrelay_service.Responses.Sse.{
  line_end, boundary_at, find_boundary, flush_loop, flush_complete_blocks, transform, transform_all,
  process_block, run_stream,
}

-- A match is decided by the text that it covers.
line_end_more : (s r : Text) (a : ℕ) → line_end s ≡ some a → line_end (s ++ r) ≡ some a
unfolding line_end
line_end_more [] r a h = cc
line_end_more (c ∷ []) [] a h = h
line_end_more (c ∷ []) (d ∷ r) a h = ground arith
line_end_more (c ∷ d ∷ s) r a h = h

line_end-le : (s : Text) (a : ℕ) → line_end s ≡ some a → (0 < a) × (a ≤ length s)
unfolding line_end
line_end-le [] a h = cc
line_end-le (c ∷ []) a h = ground arith
line_end-le (c ∷ d ∷ s) a h = ground arith

-- A boundary is two line ends.
boundary_at-some :
    (s : Text) (n : ℕ)
    → boundary_at s ≡ some n
    → (a : ℕ) × (b : ℕ) × (line_end s ≡ some a) × (line_end (drop a s) ≡ some b) × (n ≡ a + b)
unfolding boundary_at
boundary_at-some s n h = elim (Option-cases (line_end s)) [
  | inl e ↦ cc (rw (e, boundary_at) at h)
  | inr (a, e) ↦ elim (Option-cases (line_end (drop a s))) [
    | inl f ↦ cc (rw (f, Option.map) at (rw (e, boundary_at) at h))
    | inr (b, f) ↦ (a, b, e, f, ground arith)
  ]
]

boundary_at_of :
    (s : Text) (a b : ℕ)
    → line_end s ≡ some a
    → line_end (drop a s) ≡ some b
    → boundary_at s ≡ some (a + b)
unfolding boundary_at
boundary_at_of s a b e f = rw (e, boundary_at) (rw f)

boundary_at-le : (s : Text) (n : ℕ) → boundary_at s ≡ some n → (0 < n) × (n ≤ length s)
boundary_at-le s n h =
    let (a, b, e, f, same) = boundary_at-some s n h in
    let fits = line_end-le s a e in
    let rest = line_end-le (drop a s) b f in
    (omega (arith, length-drop a s), omega (arith, length-drop a s))

boundary_at_more : (s r : Text) (n : ℕ) → boundary_at s ≡ some n → boundary_at (s ++ r) ≡ some n
boundary_at_more s r n h =
    let (a, b, e, f, same) = boundary_at-some s n h in
    let fits = line_end-le s a e in
    rw same (
      boundary_at_of (s ++ r) a b (line_end_more s r a e)
        (rw (drop-append a s r fits.1) (line_end_more (drop a s) r b f)))

-- No boundary comes up in front of one by what is appended.
boundary_at_stable :
    (c : ℕ) (b r : Text) (m : ℕ × ℕ)
    → boundary_at (c ∷ b) ≡ none
    → find_boundary b ≡ some m
    → boundary_at (c ∷ b ++ r) ≡ none
unfolding boundary_at find_boundary line_end
boundary_at_stable c [] r m h g = cc
boundary_at_stable c (d ∷ []) r m h g = ground arith
boundary_at_stable c (d ∷ e ∷ []) [] m h g = h
boundary_at_stable c (d ∷ e ∷ []) (x ∷ r) m h g = ground arith
boundary_at_stable c (d ∷ e ∷ f ∷ b) r m h g = ground arith

find_boundary_more :
    (b r : Text) (m : ℕ × ℕ) → find_boundary b ≡ some m → find_boundary (b ++ r) ≡ some m
unfolding find_boundary
find_boundary_more [] r m h = cc
find_boundary_more (c ∷ b) r m h = elim (Option-cases (boundary_at (c ∷ b))) [
  | inr (n, e) ↦ rw (boundary_at_more (c ∷ b) r n e, find_boundary) (rw (e, find_boundary) at h)
  | inl e ↦ elim (Option-cases (find_boundary b)) [
    | inl f ↦ cc (rw (f, find_boundary) at (rw (e, find_boundary) at h))
    | inr (k, f) ↦
        rw (boundary_at_stable c b r k e f, find_boundary)
          (rw (find_boundary_more b r k f) (rw f at (rw (e, find_boundary) at h)))
  ]
]

find_boundary-le :
    (b : Text) (i n : ℕ) → find_boundary b ≡ some (i, n) → (0 < n) × (i + n ≤ length b)
unfolding find_boundary
find_boundary-le [] i n h = cc
find_boundary-le (c ∷ b) i n h = elim (Option-cases (boundary_at (c ∷ b))) [
  | inr (k, e) ↦ let fits = boundary_at-le (c ∷ b) k e in ground (arith, rw (e, find_boundary) at h)
  | inl e ↦ elim (Option-cases (find_boundary b)) [
    | inl f ↦ cc (rw f at (rw (e, find_boundary) at h))
    | inr ((j, k), f) ↦
        ground (arith, find_boundary-le b j k f, rw f at (rw (e, find_boundary) at h))
  ]
]

take-append : (n : ℕ) (s r : Text) → n ≤ length s → take n (s ++ r) ≡ take n s
take-append zero s r b = refl
take-append (suc n) [] r b = elim b [ ]
take-append (suc n) (c ∷ s) r b = ap (λ l. c ∷ l) (take-append n s r (omega arith))

module _ {ℓ} {S : Type ℓ} (process : S → Text → S) where
  -- Any fuel that covers the buffer gives the same.
  flush_fuel :
      (f g : ℕ) (b : Text) (s : S)
      → length b ≤ f
      → length b ≤ g
      → flush_loop process f b s ≡ flush_loop process g b s
  unfolding flush_loop find_boundary
  flush_fuel zero zero b s p q = refl
  flush_fuel zero (suc g) [] s p q = refl
  flush_fuel zero (suc g) (c ∷ b) s p q = elim p [ ]
  flush_fuel (suc f) zero [] s p q = refl
  flush_fuel (suc f) zero (c ∷ b) s p q = elim q [ ]
  flush_fuel (suc f) (suc g) b s p q = elim (Option-cases (find_boundary b)) [
    | inl e ↦ rw (e, flush_loop)
    | inr ((i, n), e) ↦
        let fits = find_boundary-le b i n e in
        rw (e, flush_loop)
          (flush_fuel f g (drop (i + n) b) (process s (take i b))
            (omega (arith, length-drop (i + n) b)) (omega (arith, length-drop (i + n) b)))
  ]

  -- The loop of `flushCompleteBlocks` ends only when no boundary is left.
  flush_none :
      (b : Text) (s : S) → find_boundary b ≡ none → flush_complete_blocks process b s ≡ (b, s)
  unfolding flush_complete_blocks flush_loop
  flush_none [] s e = refl
  flush_none (c ∷ b) s e = rw (e, flush_loop)

  flush_some :
      (b : Text) (s : S) (i n : ℕ)
      → find_boundary b ≡ some (i, n)
      → flush_complete_blocks process b s
        ≡ flush_complete_blocks process (drop (i + n) b) (process s (take i b))
  unfolding flush_complete_blocks flush_loop find_boundary
  flush_some [] s i n e = cc
  flush_some (c ∷ b) s i n e =
      let fits = find_boundary-le (c ∷ b) i n e in
      rw (e, flush_loop)
        (flush_fuel (length b) (length (drop (i + n) (c ∷ b))) (drop (i + n) (c ∷ b))
          (process s (take i (c ∷ b))) (omega (arith, length-drop (i + n) (c ∷ b))) (omega arith))

  -- What is left in the buffer when more text arrives gives what the whole text gives.
  flush_append :
      (k : ℕ) (b r : Text) (s : S)
      → length b ≤ k
      → let (left, t) = flush_complete_blocks process b s in
        flush_complete_blocks process (left ++ r) t ≡ flush_complete_blocks process (b ++ r) s
  flush_append zero [] r s p = rw (flush_none [] s (unfold find_boundary in refl))
  flush_append zero (c ∷ b) r s p = elim p [ ]
  flush_append (suc k) b r s p = elim (Option-cases (find_boundary b)) [
    | inl e ↦ rw (flush_none b s e)
    | inr ((i, n), e) ↦
        let fits = find_boundary-le b i n e in
        rw
          (
            flush_some b s i n e,
            flush_some (b ++ r) s i n (find_boundary_more b r (i, n) e),
            drop-append (i + n) b r fits.1,
            take-append i b r (omega arith),
          )
          (flush_append k (drop (i + n) b) r (process s (take i b))
            (omega (arith, length-drop (i + n) b)))
  ]

  transform_all-concat :
      (p : Text × S) (chunks : List Text) (tail : Text)
      → transform process (transform_all process p chunks) tail
        ≡ flush_complete_blocks process (p.0 ++ (concat chunks ++ tail)) p.1
  unfolding transform_all transform
  transform_all-concat (buffer, s) [] tail = refl
  transform_all-concat (buffer, s) (chunk ∷ chunks) tail =
      transform_all-concat (flush_complete_blocks process (buffer ++ chunk) s) chunks tail
      ∙ flush_append (length (buffer ++ chunk)) (buffer ++ chunk) (concat chunks ++ tail) s
          (omega arith)
      ∙ ap (λ t. flush_complete_blocks process t s)
          (append_assoc buffer chunk (concat chunks ++ tail)
            ∙ ap (λ t. buffer ++ t) (sym (append_assoc chunk (concat chunks) tail)))

-- What `flush` does after its last call of `transform`
end_of : (ℤ → Text) → Text → (Text → Option Json) → Text × Stream → Stream
end_of number_text uuid parse_json (buffer, s) =
    finalize_stream number_text uuid
      (if is_empty (trim buffer) then s else process_block number_text uuid parse_json s buffer)

-- However the body is cut into network chunks, the stream ends in the same state with the same
-- events as when the whole body arrives at once.
pub run_stream-concat :
    (number_text : ℤ → Text) (uuid : Text) (parse_json : Text → Option Json) (now : ℤ)
    (chunks : List Text) (tail : Text)
    → run_stream number_text uuid parse_json now chunks tail
      ≡ run_stream number_text uuid parse_json now ((concat chunks ++ tail) ∷ []) []
unfolding run_stream end_of
run_stream-concat number_text uuid parse_json now chunks tail =
    ap (end_of number_text uuid parse_json) (
      transform_all-concat process ([], create_empty now) chunks tail
      ∙ ap (λ t. flush_complete_blocks process t (create_empty now))
          (sym (append-nil (concat chunks ++ tail))
            ∙ sym (append-nil (concat chunks ++ tail ++ [])))
      ∙ sym (transform_all-concat process ([], create_empty now) ((concat chunks ++ tail) ∷ []) []))
  where
    process : Stream → Text → Stream
    process = process_block number_text uuid parse_json
