-- ===== src/Responses/Protocol/Ends/Live.antt =====
-- States that have not ended, and what they show
use llmrelay_service.Base.{
  ℕ, suc, ◌≡◌, refl, sym, ap, subst, ◌∙◌, none, List, [], ◌∷◌, ◌++◌, map, if◌then◌else◌, Text,
  codes, length, length-append, is_empty, ℤ, of_ℕ, arith,
}
use mathlib.Core.List.{append_assoc, append-nil}
use llmrelay_service.Think.{Segment}
use llmrelay_service.Responses.Items.{
  Status, in_progress, completed, incomplete, Item, function_call, generated_item_id,
}
use llmrelay_service.Responses.Stream.{
  ToolCall, StreamItem, Stream, create_empty, output_item, skeleton, finalize_active, get_active,
}
use llmrelay_service.Responses.Chunks.{function_call_items, call_events}
use llmrelay_service.Responses.Protocol.{fresh, between, writing, calling, call, end_call, Run}
use llmrelay_service.Responses.Protocol.Shape.{
  segment_of, IsFresh, IsBusy, IsLive, idle, busy, IsClosed, map-snoc, finalized_items,
  finalize_active-busy, get_active-none,
}

pub keep-IsLive :
    (s t : Stream)
    → t.created ≡ s.created
    → t.items ≡ s.items
    → t.active ≡ s.active
    → t.queue ≡ s.queue
    → IsLive s
    → IsLive t
keep-IsLive s t c i a q (idle h) = idle (record {
  is_created = c ∙ h.is_created;
  no_items = i ∙ h.no_items;
  no_active = a ∙ h.no_active;
  sent = subst (λ l. Run fresh l (between [])) (sym q) h.sent;
})
keep-IsLive s t c i a q (busy b) = busy (record {
  closed = b.closed;
  kind = b.kind;
  id = b.id;
  text = b.text;
  is_created = c ∙ b.is_created;
  items_are = i ∙ b.items_are;
  active_is = a ∙ b.active_is;
  sent =
      subst (λ l. Run fresh l (writing (map output_item b.closed) b.kind b.id b.text)) (sym q)
        b.sent;
})

pub create_empty-IsFresh : (now : ℤ) → IsFresh (create_empty now)
unfolding create_empty
create_empty-IsFresh now = record {
  not_created = refl;
  no_items = refl;
  no_active = refl;
  nothing_sent = refl;
}

-- `finalizeActiveStreamItem` on a live state closes what is open and changes no text.
abbrev pub EndsWith : Stream → List Segment → Type 0
EndsWith t segments =
    (items : List StreamItem) × IsClosed t items × (map segment_of items ≡ segments)

finalize_active-none : (s : Stream) → get_active s ≡ none → finalize_active s ≡ s
unfolding finalize_active
finalize_active-none s e = rw (e, finalize_active)

finalized-segments :
    (s : Stream) (b : IsBusy s) → map segment_of (finalized_items s b) ≡ map segment_of s.items
unfolding finalized_items
finalized-segments s b =
    map-snoc segment_of b.closed _
    ∙ sym (map-snoc segment_of b.closed _)
    ∙ sym (ap (map segment_of) b.items_are)

pub finalize_active-live :
    (s : Stream) → IsLive s → EndsWith (finalize_active s) (map segment_of s.items)
finalize_active-live s (busy b) =
    (finalized_items s b, finalize_active-busy s b, finalized-segments s b)
finalize_active-live s (idle h) =
    subst (λ t. EndsWith t (map segment_of s.items))
      (sym (finalize_active-none s (get_active-none s h.no_active)))
      (
        [],
        record {
          is_created = h.is_created;
          items_are = h.no_items;
          no_active = h.no_active;
          sent = h.sent;
        },
        ap (map segment_of) (sym h.no_items),
      )

pub skeleton-output :
    (s : Stream) (st : Status) (out : List Item) → (skeleton s st out).output ≡ out
unfolding skeleton
skeleton-output s in_progress out = refl
skeleton-output s completed out = refl
skeleton-output s incomplete out = refl

-- Each function call is announced and closed under the next index.
pub Run-calls :
    (number_text : ℤ → Text) (response_id : Text) (calls : List (ℤ × ToolCall)) (n : ℕ)
    (out : List Item)
    → n ≡ length out
    → Run
        (between out)
        (call_events n (function_call_items number_text response_id calls n))
        (between (out ++ function_call_items number_text response_id calls n))
unfolding call_events function_call_items
Run-calls number_text response_id [] n out e = ap between (sym (append-nil out))
Run-calls number_text response_id ((index, c) ∷ calls) n out e =
    let more = function_call_items number_text response_id calls (suc n) in
    let id = generated_item_id (codes "fc") response_id (number_text (of_ℕ n)) in
    let call_id =
      if is_empty c.id
      then generated_item_id (codes "call") response_id (number_text index)
      else c.id in
    let item = function_call id call_id c.name c.arguments in
    (
      calling out item,
      call id call_id c.name c.arguments e,
      (
        between (out ++ item ∷ []),
        end_call e refl,
        subst (λ l. Run (between (out ++ item ∷ [])) (call_events (suc n) more) (between l))
            (append_assoc out (item ∷ []) more)
            (Run-calls number_text response_id calls (suc n) (out ++ item ∷ [])
              (omega (arith, e, length-append out (item ∷ [])))),
      ),
    )
