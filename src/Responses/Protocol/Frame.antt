-- ===== src/Responses/Protocol/Frame.antt =====
-- The functions that write text items leave the tag parser and the final mark alone.
use llmrelay_service.Base.{
  ℕ, ◌≡◌, refl, ◌∙◌, List, [], ◌∷◌, Text, codes, ℤ, Json, Props, end, obj, arr, str, num, bool,
  null, is_empty, get, record_or_empty, or_else, as_string, array_or_empty, arith, Bool-cases, inl,
  inr, if_true, if_false, subst, sym,
}
use llmrelay_service.Think.{Kind, Segment, consume_chunk}
use llmrelay_service.Responses.Stream.{
  Stream, finalize_active, ensure_created, open_item, start_item, ensure_item_started, extend_item,
  append_text_delta, append_text_deltas,
}
use llmrelay_service.Responses.Chunks.{
  note_choice, note_usage, append_content, process_choice, process_choices, process_chunk,
}

abbrev pub Keeps : Stream → Stream → Type 0
Keeps s t = (t.parser ≡ s.parser) × (t.finalized ≡ s.finalized)

Keeps-trans : (s t u : Stream) → Keeps s t → Keeps t u → Keeps s u
Keeps-trans s t u (a, b) (c, d) = (c ∙ a, d ∙ b)

finalize_active-Keeps : (s : Stream) → Keeps s (finalize_active s)
unfolding finalize_active
finalize_active-Keeps s = ground arith

module _ (number_text : ℤ → Text) (uuid : Text) where
  pub ensure_created-Keeps :
      (s : Stream) (chunk : Props) → Keeps s (ensure_created number_text uuid s chunk)
  unfolding ensure_created
  ensure_created-Keeps s chunk = ground arith

  open_item-Keeps : (s : Stream) (k : Kind) → Keeps s (open_item number_text uuid s k)
  unfolding open_item
  open_item-Keeps s k = (refl, refl)

  start_item-Keeps : (s : Stream) (k : Kind) → Keeps s (start_item number_text uuid s k).0
  unfolding start_item
  start_item-Keeps s k = ground (arith, finalize_active-Keeps s)

  extend_item-Keeps :
      (s : Stream) (i : ℕ) (k : Kind) (t : Text) → Keeps s (extend_item number_text uuid (s, i) k t)
  unfolding extend_item
  extend_item-Keeps s i k t = ground arith

  append_text_delta-Keeps :
      (s : Stream) (segment : Segment) → Keeps s (append_text_delta number_text uuid s segment)
  unfolding append_text_delta ensure_item_started
  append_text_delta-Keeps s segment = elim (Bool-cases (is_empty segment.text)) [
    | inl e ↦ subst (Keeps s) (sym (if_true (is_empty segment.text) _ _ e)) (refl, refl)
    | inr e ↦
        let u = ensure_created number_text uuid s end in
        let w =
          extend_item number_text uuid (start_item number_text uuid u segment.kind) segment.kind
            segment.text in
        let (v, i) = start_item number_text uuid u segment.kind in
        subst (Keeps s) (sym (if_false (is_empty segment.text) _ _ e)) (
          Keeps-trans s u w (ensure_created-Keeps s end) (
            Keeps-trans u v w (start_item-Keeps u segment.kind)
              (extend_item-Keeps v i segment.kind segment.text)))
  ]

  pub append_text_deltas-Keeps :
      (s : Stream) (segments : List Segment)
      → Keeps s (append_text_deltas number_text uuid s segments)
  unfolding append_text_deltas
  append_text_deltas-Keeps s [] = (refl, refl)
  append_text_deltas-Keeps s (segment ∷ segments) =
      let t = append_text_delta number_text uuid s segment in
      Keeps-trans s t (append_text_deltas number_text uuid t segments)
        (append_text_delta-Keeps s segment) (append_text_deltas-Keeps t segments)

  -- After a content delta the parser is the one that has read it.
  pub append_content-parser :
      (s : Stream) (content : Text)
      → let t = append_content number_text uuid s content in
        (t.parser ≡ (consume_chunk s.parser content).0) × (t.finalized ≡ s.finalized)
  unfolding append_content
  append_content-parser s content =
      let (parser, segments) = consume_chunk s.parser content in
      append_text_deltas-Keeps (record s { parser = parser }) segments

  process_choice-finalized :
      (s : Stream) (choice : Json)
      → (process_choice number_text uuid s choice).finalized ≡ s.finalized
  unfolding process_choice
  process_choice-finalized s (obj choice) =
      let delta = record_or_empty (get (codes "delta") choice) in
      let content = or_else (as_string (get (codes "content") delta)) [] in
      let noted = note_choice s choice delta in
      elim (Bool-cases (is_empty content)) [
        | inl e ↦
            subst (λ (t : Stream). t.finalized ≡ s.finalized)
              (sym (if_true (is_empty content) _ _ e)) refl
        | inr e ↦
            subst (λ (t : Stream). t.finalized ≡ s.finalized)
              (sym (if_false (is_empty content) _ _ e)) (append_content-parser noted content).1
      ]
  process_choice-finalized s null = refl
  process_choice-finalized s (bool b) = refl
  process_choice-finalized s (num n) = refl
  process_choice-finalized s (str t) = refl
  process_choice-finalized s (arr vs) = refl

  process_choices-finalized :
      (s : Stream) (choices : List Json)
      → (process_choices number_text uuid s choices).finalized ≡ s.finalized
  unfolding process_choices
  process_choices-finalized s [] = refl
  process_choices-finalized s (choice ∷ choices) =
      process_choices-finalized (process_choice number_text uuid s choice) choices
      ∙ process_choice-finalized s choice

  pub note_usage-Keeps : (s : Stream) (chunk : Props) → Keeps s (note_usage s chunk)
  note_usage-Keeps s chunk = ground arith

  pub process_chunk-finalized :
      (s : Stream) (chunk : Props)
      → (process_chunk number_text uuid s chunk).finalized ≡ s.finalized
  unfolding process_chunk
  process_chunk-finalized s chunk =
      let t = ensure_created number_text uuid s chunk in
      process_choices-finalized (note_usage t chunk) (array_or_empty (get (codes "choices") chunk))
      ∙ (note_usage-Keeps t chunk).1
      ∙ (ensure_created-Keeps s chunk).1
