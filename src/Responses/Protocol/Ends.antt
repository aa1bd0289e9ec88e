-- ===== src/Responses/Protocol/Ends.antt =====
-- Whole streams keep to the protocol.
pub mod Live
use llmrelay_service.Base.{
  ℕ, suc, ◌≡◌, refl, sym, ap, subst, ◌∙◌, true, false, none, List, [], ◌∷◌, ◌++◌, map,
  if◌then◌else◌, Text, codes, length, length-append, is_empty, ℤ, of_ℕ, Json, Props, end, get,
  record_or_empty, array_or_empty, as_string, as_record, or_else, str, obj, arr, null, num, bool,
  arith, Bool-cases, inl, inr, if_true, if_false, Option-cases,
}
use mathlib.Core.List.{append_assoc, append-nil}
use llmrelay_service.Think.{Segment, consume_chunk, flush}
use llmrelay_service.Think.Canonical.{push_all}
use llmrelay_service.Responses.Items.{
  Status, in_progress, completed, incomplete, Item, function_call, generated_item_id,
  status_from_finish_reason,
}
use llmrelay_service.Responses.Stream.{
  ToolCall, StreamItem, Stream, create_empty, output_item, skeleton, finalize_active, get_active,
  ensure_created, append_text_deltas,
}
use llmrelay_service.Responses.Chunks.{
  note_choice, note_usage, append_content, process_choice, process_choices, process_chunk,
  function_call_items, call_events, complete, close_text, finalize_stream, process_chunks,
  stream_chunks,
}
use llmrelay_service.Responses.Protocol.{
  fresh, between, writing, calling, ended, over, complete as end_response, call, end_call, finish,
  Run, Run-append,
}
use llmrelay_service.Responses.Protocol.Shape.{
  segment_of, IsFresh, IsBusy, IsLive, idle, busy, IsClosed, map-snoc, finalized_items,
  finalize_active-busy, get_active-none,
}
use llmrelay_service.Responses.Protocol.Frame.{process_chunk-finalized}
use llmrelay_service.Responses.Protocol.Texts.Created.{ensure_created-fresh, ensure_created-IsLive}
use llmrelay_service.Responses.Protocol.Texts.{append_text_deltas-live}
use llmrelay_service.Responses.Protocol.Ends.Live.{
  keep-IsLive, create_empty-IsFresh, EndsWith, finalize_active-live, skeleton-output, Run-calls,
}

-- Fields that a live state does not speak of may change.

module _ (number_text : ℤ → Text) (uuid : Text) where
  pub append_content-IsLive :
      (s : Stream) (content : Text) → IsLive s → IsLive (append_content number_text uuid s content)
  unfolding append_content
  append_content-IsLive s content h =
      let (parser, segments) = consume_chunk s.parser content in
      (append_text_deltas-live number_text uuid (record s { parser = parser }) segments
        (keep-IsLive s (record s { parser = parser }) refl refl refl refl h)).0

  pub process_choice-IsLive :
      (s : Stream) (choice : Json) → IsLive s → IsLive (process_choice number_text uuid s choice)
  unfolding process_choice
  process_choice-IsLive s (obj choice) h =
      let delta = record_or_empty (get (codes "delta") choice) in
      let content = or_else (as_string (get (codes "content") delta)) [] in
      let noted = note_choice s choice delta in
      let live = keep-IsLive s noted refl refl refl refl h in
      elim (Bool-cases (is_empty content)) [
        | inl e ↦ subst IsLive (sym (if_true (is_empty content) _ _ e)) live
        | inr e ↦
            subst IsLive (sym (if_false (is_empty content) _ _ e))
              (append_content-IsLive noted content live)
      ]
  process_choice-IsLive s null h = h
  process_choice-IsLive s (bool b) h = h
  process_choice-IsLive s (num n) h = h
  process_choice-IsLive s (str t) h = h
  process_choice-IsLive s (arr vs) h = h

  pub process_choices-IsLive :
      (s : Stream) (choices : List Json)
      → IsLive s
      → IsLive (process_choices number_text uuid s choices)
  unfolding process_choices
  process_choices-IsLive s [] h = h
  process_choices-IsLive s (choice ∷ choices) h =
      process_choices-IsLive (process_choice number_text uuid s choice) choices
        (process_choice-IsLive s choice h)

  pub note_usage-IsLive : (s : Stream) (chunk : Props) → IsLive s → IsLive (note_usage s chunk)
  note_usage-IsLive s chunk h = elim (Option-cases (as_record (get (codes "usage") chunk))) [
    | inl e ↦ rw (e, note_usage) h
    | inr (u, e) ↦ rw (e, note_usage) (keep-IsLive s _ refl refl refl refl h)
  ]

  pub process_chunk-IsLive :
      (s : Stream) (chunk : Props) → IsLive s → IsLive (process_chunk number_text uuid s chunk)
  unfolding process_chunk
  process_chunk-IsLive s chunk h =
      process_choices-IsLive _ (array_or_empty (get (codes "choices") chunk))
        (note_usage-IsLive _ chunk (ensure_created-IsLive number_text uuid s chunk h))

  pub process_chunk-fresh :
      (s : Stream) (chunk : Props) → IsFresh s → IsLive (process_chunk number_text uuid s chunk)
  unfolding process_chunk
  process_chunk-fresh s chunk h =
      process_choices-IsLive _ (array_or_empty (get (codes "choices") chunk))
        (note_usage-IsLive _ chunk (idle (ensure_created-fresh number_text uuid s chunk h)))

  pub process_chunks-IsLive :
      (s : Stream) (chunks : List Props)
      → IsLive s
      → IsLive (process_chunks number_text uuid s chunks)
  unfolding process_chunks
  process_chunks-IsLive s [] h = h
  process_chunks-IsLive s (chunk ∷ chunks) h =
      process_chunks-IsLive (process_chunk number_text uuid s chunk) chunks
        (process_chunk-IsLive s chunk h)

  complete-over :
      (s : Stream) (items : List StreamItem)
      → IsClosed s items
      → Run fresh (complete number_text uuid s).queue over
  unfolding complete
  complete-over s items h =
      let texts = map output_item s.items in
      let calls = function_call_items number_text s.response_id s.tool_calls (length texts) in
      let sent : Run fresh s.queue (between texts) =
        subst (λ l. Run fresh s.queue (between (map output_item l))) (sym h.items_are) h.sent in
      Run-append fresh (between texts) over s.queue _ sent (
        Run-append (between texts) (between (texts ++ calls)) over
          (call_events (length texts) calls) _
          (Run-calls number_text s.response_id s.tool_calls (length texts) texts refl)
          (
            ended (texts ++ calls),
            end_response
                (skeleton-output s (status_from_finish_reason s.finish_reason).0 (texts ++ calls)),
            (over, finish, refl),
          ))

  pub close_text-ends :
      (s : Stream)
      → IsLive s
      → EndsWith
          (close_text number_text uuid s)
          (push_all (map segment_of s.items) (flush s.parser).1)
  unfolding close_text
  close_text-ends s h =
      let (parser, trailing) = flush s.parser in
      let t : Stream = record s { parser = parser } in
      let (live, same) =
        append_text_deltas-live number_text uuid t trailing
          (keep-IsLive s t refl refl refl refl h) in
      let (items, closed, segments) =
        finalize_active-live (append_text_deltas number_text uuid t trailing) live in
      (items, closed, segments ∙ same)

  finalize-live :
      (s : Stream)
      → s.finalized ≡ false
      → IsLive s
      → Run fresh (finalize_stream number_text uuid s).queue over
  unfolding finalize_stream
  finalize-live s e h =
      let t : Stream = record s { finalized = true } in
      let live =
        ensure_created-IsLive number_text uuid t end (keep-IsLive s t refl refl refl refl h) in
      let (items, closed, _) = close_text-ends (ensure_created number_text uuid t end) live in
      subst (λ (u : Stream). Run fresh u.queue over) (sym (if_false s.finalized _ _ e))
        (complete-over _ items closed)

  finalize-fresh :
      (s : Stream)
      → s.finalized ≡ false
      → IsFresh s
      → Run fresh (finalize_stream number_text uuid s).queue over
  unfolding finalize_stream
  finalize-fresh s e h =
      let t : Stream = record s { finalized = true } in
      let live = idle (
        ensure_created-fresh number_text uuid t end (record {
          not_created = h.not_created;
          no_items = h.no_items;
          no_active = h.no_active;
          nothing_sent = h.nothing_sent;
        })) in
      let (items, closed, _) = close_text-ends (ensure_created number_text uuid t end) live in
      subst (λ (u : Stream). Run fresh u.queue over) (sym (if_false s.finalized _ _ e))
        (complete-over _ items closed)

  pub process_chunks-finalized :
      (s : Stream) (chunks : List Props)
      → (process_chunks number_text uuid s chunks).finalized ≡ s.finalized
  unfolding process_chunks
  process_chunks-finalized s [] = refl
  process_chunks-finalized s (chunk ∷ chunks) =
      process_chunks-finalized (process_chunk number_text uuid s chunk) chunks
      ∙ process_chunk-finalized number_text uuid s chunk

  -- Whatever chunks an upstream sends, and however many, the events of the stream and of its end
  -- are a run of the client's protocol from its start to its end: one created event, then each item
  -- announced, written, closed with the text of its deltas and the next index, the function calls,
  -- one completed event whose output is the closed items, and the final mark.
  pub stream_chunks-Run :
      (now : ℤ) (chunks : List Props)
      → Run fresh (stream_chunks number_text uuid now chunks).queue over
  unfolding stream_chunks process_chunks
  stream_chunks-Run now [] =
      finalize-fresh (create_empty now) (unfold create_empty in refl) (create_empty-IsFresh now)
  stream_chunks-Run now (chunk ∷ chunks) =
      let s = process_chunk number_text uuid (create_empty now) chunk in
      finalize-live (process_chunks number_text uuid s chunks)
        (process_chunks-finalized s chunks
          ∙ process_chunk-finalized number_text uuid (create_empty now) chunk
          ∙ unfold create_empty in refl)
        (process_chunks-IsLive s chunks
          (process_chunk-fresh (create_empty now) chunk (create_empty-IsFresh now)))
