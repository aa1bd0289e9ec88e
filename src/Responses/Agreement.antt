-- ===== src/Responses/Agreement.antt =====
-- The streamed and the buffered conversion show the client the same text.
pub mod Visible
use llmrelay_service.Base.{
  ℕ, suc, ◌≡◌, refl, sym, ap, ◌∙◌, true, false, Option, none, some, List, [], ◌∷◌, ◌++◌, map,
  if◌then◌else◌, Text, codes, concat, is_empty, ℤ, Json, null, num, bool, str, obj, arr, Props, end,
  get, record_or_empty, array_or_empty, as_string, or_else, Bool-cases, inl, inr, if_true, if_false,
  arith,
}
use mathlib.Core.List.{append_assoc, append-nil}
use llmrelay_service.Think.{
  Kind, message, reasoning, Segment, consume_chunk, consume_chunks, stream_segments,
  split_think_tagged_text,
}
use llmrelay_service.Think.Canonical.{push_all, push_all-append, merged_stream-split}
use llmrelay_service.Responses.Stream.{
  Stream, StreamItem, create_empty, ensure_created, append_text_deltas, output_item,
}
use llmrelay_service.Responses.Chunks.{
  note_choice, note_usage, append_content, process_choice, process_choices, process_chunk, complete,
  finalize_stream, process_chunks, stream_chunks,
}
use llmrelay_service.Responses.Items.{
  Item, message_item, reasoning_item, output_text, reasoning_text,
}
use llmrelay_service.Responses.Batch.{
  segment_item, segment_items, convert_message, extract_text_content,
}
use llmrelay_service.Responses.Protocol.Shape.{segment_of, IsFresh, IsLive, idle}
use llmrelay_service.Responses.Protocol.Texts.Created.{
  ensure_created-fresh, ensure_created-IsLive, ensure_created-items,
}
use llmrelay_service.Responses.Protocol.Texts.{append_text_deltas-live}
use llmrelay_service.Responses.Protocol.Frame.{
  ensure_created-Keeps, append_content-parser, note_usage-Keeps, process_chunk-finalized,
}
use llmrelay_service.Responses.Protocol.Ends.Live.{keep-IsLive, create_empty-IsFresh}
use llmrelay_service.Responses.Protocol.Ends.{
  process_choice-IsLive, note_usage-IsLive, process_chunk-IsLive, process_chunk-fresh,
  process_chunks-finalized, process_chunks-IsLive, close_text-ends,
}
use llmrelay_service.Responses.Agreement.Visible.{
  visible, visible-output_items, visible-segment_items,
}

-- The non-empty content deltas of a choice, a list of choices and a list of chunks.
unfoldable pub choice_contents : Json → List Text
choice_contents (obj choice) =
    let content =
      or_else (as_string (get (codes "content") (record_or_empty (get (codes "delta") choice))))
        [] in
    if is_empty content then [] else content ∷ []
choice_contents _ = []

unfoldable pub choices_contents : List Json → List Text
unfolding choice_contents
choices_contents [] = []
choices_contents (choice ∷ choices) = choice_contents choice ++ choices_contents choices

unfoldable pub contents : List Props → List Text
unfolding choices_contents
contents [] = []
contents (chunk ∷ chunks) =
    choices_contents (array_or_empty (get (codes "choices") chunk)) ++ contents chunks

-- The segments that a state will have shown when the given texts have come and the stream ends.
abbrev shown : Stream → List Text → List Segment
shown s rest = push_all (map segment_of s.items) (consume_chunks s.parser rest)

module _ (number_text : ℤ → Text) (uuid : Text) where
  shown-append_content :
      (s : Stream) (content : Text) (rest : List Text)
      → IsLive s
      → shown (append_content number_text uuid s content) rest ≡ shown s (content ∷ rest)
  unfolding append_content consume_chunks
  shown-append_content s content rest h =
      let (parser, segments) = consume_chunk s.parser content in
      let t : Stream = record s { parser = parser } in
      let (_, same) =
        append_text_deltas-live number_text uuid t segments
          (keep-IsLive s t refl refl refl refl h) in
      ap
        (λ l.
          push_all l (consume_chunks (append_text_deltas number_text uuid t segments).parser rest))
        same
      ∙ ap (λ p. push_all (push_all (map segment_of s.items) segments) (consume_chunks p rest))
          (append_content-parser number_text uuid s content).0
      ∙ sym (push_all-append (map segment_of s.items) segments (consume_chunks parser rest))

  shown-process_choice :
      (s : Stream) (choice : Json) (rest : List Text)
      → IsLive s
      → shown (process_choice number_text uuid s choice) rest
        ≡ shown s (choice_contents choice ++ rest)
  unfolding process_choice choice_contents
  shown-process_choice s (obj choice) rest h =
      let delta = record_or_empty (get (codes "delta") choice) in
      let content = or_else (as_string (get (codes "content") delta)) [] in
      let noted = note_choice s choice delta in
      elim (Bool-cases (is_empty content)) [
        | inl e ↦
            ap (λ t. shown t rest) (if_true (is_empty content) _ _ e)
            ∙ sym (ap (λ l. shown s (l ++ rest)) (if_true (is_empty content) _ _ e))
        | inr e ↦
            ap (λ t. shown t rest) (if_false (is_empty content) _ _ e)
            ∙ shown-append_content noted content rest (keep-IsLive s noted refl refl refl refl h)
            ∙ sym (ap (λ l. shown s (l ++ rest)) (if_false (is_empty content) _ _ e))
      ]
  shown-process_choice s null rest h = refl
  shown-process_choice s (bool b) rest h = refl
  shown-process_choice s (num n) rest h = refl
  shown-process_choice s (str t) rest h = refl
  shown-process_choice s (arr vs) rest h = refl

  shown-process_choices :
      (s : Stream) (choices : List Json) (rest : List Text)
      → IsLive s
      → shown (process_choices number_text uuid s choices) rest
        ≡ shown s (choices_contents choices ++ rest)
  unfolding process_choices choices_contents
  shown-process_choices s [] rest h = refl
  shown-process_choices s (choice ∷ choices) rest h =
      let t = process_choice number_text uuid s choice in
      shown-process_choices t choices rest (process_choice-IsLive number_text uuid s choice h)
      ∙ shown-process_choice s choice (choices_contents choices ++ rest) h
      ∙ ap (shown s) (sym (append_assoc (choice_contents choice) (choices_contents choices) rest))

  -- What `ensureStreamCreated` and the note of the usage leave as it was.
  ready : Stream → Props → Stream
  ready s chunk = note_usage (ensure_created number_text uuid s chunk) chunk

  note_usage-items : (s : Stream) (chunk : Props) → (note_usage s chunk).items ≡ s.items
  note_usage-items s chunk = ground arith

  shown_same :
      (s t : Stream) (rest : List Text)
      → t.items ≡ s.items
      → t.parser ≡ s.parser
      → shown t rest ≡ shown s rest
  shown_same s t rest i p =
      ap (λ l. push_all (map segment_of l) (consume_chunks t.parser rest)) i
      ∙ ap (λ q. push_all (map segment_of s.items) (consume_chunks q rest)) p

  shown-ready :
      (s : Stream) (chunk : Props) (rest : List Text) → shown (ready s chunk) rest ≡ shown s rest
  unfolding ready
  shown-ready s chunk rest =
      let t = ensure_created number_text uuid s chunk in
      shown_same s (note_usage t chunk) rest
        (note_usage-items t chunk ∙ ensure_created-items number_text uuid s chunk)
        ((note_usage-Keeps number_text uuid t chunk).0
          ∙ (ensure_created-Keeps number_text uuid s chunk).0)

  shown-process_chunk :
      (s : Stream) (chunk : Props) (rest : List Text)
      → IsLive (ready s chunk)
      → shown (process_chunk number_text uuid s chunk) rest
        ≡ shown s (choices_contents (array_or_empty (get (codes "choices") chunk)) ++ rest)
  unfolding process_chunk ready
  shown-process_chunk s chunk rest h =
      let choices = array_or_empty (get (codes "choices") chunk) in
      shown-process_choices (ready s chunk) choices rest h
      ∙ shown-ready s chunk (choices_contents choices ++ rest)

  ready-IsLive : (s : Stream) (chunk : Props) → IsLive s → IsLive (ready s chunk)
  unfolding ready
  ready-IsLive s chunk h =
      note_usage-IsLive number_text uuid _ chunk (ensure_created-IsLive number_text uuid s chunk h)

  ready-fresh : (s : Stream) (chunk : Props) → IsFresh s → IsLive (ready s chunk)
  unfolding ready
  ready-fresh s chunk h =
      note_usage-IsLive number_text uuid _ chunk
        (idle (ensure_created-fresh number_text uuid s chunk h))

  shown-process_chunks :
      (s : Stream) (chunks : List Props) (rest : List Text)
      → IsLive s
      → shown (process_chunks number_text uuid s chunks) rest ≡ shown s (contents chunks ++ rest)
  unfolding process_chunks contents
  shown-process_chunks s [] rest h = refl
  shown-process_chunks s (chunk ∷ chunks) rest h =
      let choices = choices_contents (array_or_empty (get (codes "choices") chunk)) in
      shown-process_chunks (process_chunk number_text uuid s chunk) chunks rest
        (process_chunk-IsLive number_text uuid s chunk h)
      ∙ shown-process_chunk s chunk (contents chunks ++ rest) (ready-IsLive s chunk h)
      ∙ ap (shown s) (sym (append_assoc choices (contents chunks) rest))

  -- The end of the stream shows what the parser still holds.
  shown-finalize :
      (s : Stream)
      → s.finalized ≡ false
      → IsLive (ensure_created number_text uuid (record s { finalized = true }) end)
      → map segment_of (finalize_stream number_text uuid s).items ≡ shown s []
  unfolding finalize_stream complete consume_chunks
  shown-finalize s e live =
      let t = ensure_created number_text uuid (record s { finalized = true }) end in
      let (items, closed, segments) = close_text-ends number_text uuid t live in
      ap (λ (u : Stream). map segment_of u.items) (if_false s.finalized _ _ e)
      ∙ ap (map segment_of) closed.items_are
      ∙ segments
      ∙ shown_same s t [] (ensure_created-items number_text uuid _ end)
          (ensure_created-Keeps number_text uuid _ end).0

  shown-empty :
      (now : ℤ) (rest : List Text)
      → shown (create_empty now) rest ≡ push_all [] (stream_segments rest)
  unfolding create_empty stream_segments
  shown-empty now rest = refl

  mark-IsFresh : (s : Stream) → IsFresh s → IsFresh (record s { finalized = true })
  mark-IsFresh s h = record {
    not_created = h.not_created;
    no_items = h.no_items;
    no_active = h.no_active;
    nothing_sent = h.nothing_sent;
  }

  -- Whatever chunks an upstream sends, the items of the ended stream have the kinds and the texts
  -- of the segments into which the concatenation of all content deltas is split at once.
  pub stream_chunks-split :
      (now : ℤ) (chunks : List Props)
      → map segment_of (stream_chunks number_text uuid now chunks).items
        ≡ split_think_tagged_text (concat (contents chunks))
  unfolding stream_chunks process_chunks contents
  stream_chunks-split now [] =
      shown-finalize (create_empty now) (unfold create_empty in refl) (
        idle (
          ensure_created-fresh number_text uuid _ end
            (mark-IsFresh (create_empty now) (create_empty-IsFresh now))))
      ∙ shown-empty now []
      ∙ merged_stream-split []
  stream_chunks-split now (chunk ∷ chunks) =
      let s = process_chunk number_text uuid (create_empty now) chunk in
      let first = choices_contents (array_or_empty (get (codes "choices") chunk)) in
      let fresh_ready = ready-fresh (create_empty now) chunk (create_empty-IsFresh now) in
      let live =
        process_chunk-fresh number_text uuid (create_empty now) chunk (create_empty-IsFresh now) in
      let t = process_chunks number_text uuid s chunks in
      shown-finalize t
        (process_chunks-finalized number_text uuid s chunks
          ∙ process_chunk-finalized number_text uuid (create_empty now) chunk
          ∙ unfold create_empty in refl)
        (ensure_created-IsLive number_text uuid _ end (
          keep-IsLive t (record t { finalized = true }) refl refl refl refl
            (process_chunks-IsLive number_text uuid s chunks live)))
      ∙ shown-process_chunks s chunks [] live
      ∙ shown-process_chunk (create_empty now) chunk (contents chunks ++ []) fresh_ready
      ∙ ap (λ l. shown (create_empty now) (first ++ l)) (append-nil (contents chunks))
      ∙ shown-empty now (first ++ contents chunks)
      ∙ merged_stream-split (first ++ contents chunks)

module _ (number_text : ℤ → Text) (stringify : Json → Text) where
  -- When the message of a buffered answer carries no refusal and the text that the content deltas
  -- of a stream add up to, both conversions show items of the same kinds with the same texts, in
  -- the same order.
  pub convert_message-stream_chunks :
      (uuid : Text) (now : ℤ) (chunks : List Props) (msg : Props) (id : Text)
      → or_else (as_string (get (codes "refusal") msg)) [] ≡ []
      → extract_text_content (get (codes "content") msg) ≡ concat (contents chunks)
      → map visible (convert_message number_text stringify msg id)
        ≡ map visible (map output_item (stream_chunks number_text uuid now chunks).items)
  unfolding convert_message
  convert_message-stream_chunks uuid now chunks msg id r e =
      ap (map visible) (
        if_true (is_empty (or_else (as_string (get (codes "refusal") msg)) [])) _ _ (ap is_empty r))
      ∙ visible-segment_items number_text stringify id
          (array_or_empty (get (codes "annotations") msg)) 0 _
      ∙ ap (λ t. map some (split_think_tagged_text t)) e
      ∙ ap (map some) (sym (stream_chunks-split number_text uuid now chunks))
      ∙ sym (visible-output_items (stream_chunks number_text uuid now chunks).items)
