-- ===== src/Responses/Protocol/Texts.antt =====
-- The functions that write text items keep to the protocol, and what they write is the segments
-- that they are given, merged where neighbours agree in kind.
pub mod Created
use llmrelay_service.Responses.Items.{generated_item_id}
use llmrelay_service.Base.{
  ℕ, ◌≡◌, refl, sym, ap, subst, ◌∙◌, true, false, none, some, List, [], ◌∷◌, ◌++◌, map, Text,
  length, get_elem?, set, ℤ, of_ℕ, Props, end, Bool-cases, inl, inr, if_true, if_false,
}
use llmrelay_service.Think.{Kind, Segment, same_kind, push_last, push_segment}
use llmrelay_service.Think.Canonical.{push_all}
use llmrelay_service.Responses.Stream.{
  StreamItem, Stream, output_item, finalize_active, identify, announce as announce_created,
  ensure_created, open_item, start_item, ensure_item_started, extend_item, append_text_delta,
  append_text_deltas, prefix_of, text_delta, get_active, skeleton,
}
use llmrelay_service.Responses.Protocol.{fresh, between, writing, create, write, Run-append}
use llmrelay_service.Responses.Protocol.Shape.{
  segment_of, IsStarted, pushes_same, pushes_other, get_active-none, IsFresh, IsIdle, IsBusy,
  IsLive, idle, busy, IsClosed, open_at, length-map, get_elem?-last, set-last, map-snoc,
  same_kind-eq, Run-open, finalized_items, get_active-busy, finalize_active-busy,
}
use llmrelay_service.Responses.Protocol.Texts.Created.{ensure_created-items, ensure_created-IsLive}

module _ (number_text : ℤ → Text) (uuid : Text) where
  start_item-none :
      (s : Stream) (k : Kind)
      → get_active s ≡ none
      → start_item number_text uuid s k ≡ (open_item number_text uuid s k, length s.items)
  unfolding start_item
  start_item-none s k e = rw (e, start_item)

  start_item_same :
      (s : Stream) (k : Kind) (i : ℕ) (item : StreamItem)
      → get_active s ≡ some (i, item)
      → item.finalized ≡ false
      → same_kind item.kind k ≡ true
      → start_item number_text uuid s k ≡ (s, i)
  unfolding start_item
  start_item_same s k i item e f same =
      rw (e, start_item) (if_false item.finalized _ _ f ∙ if_true (same_kind item.kind k) _ _ same)

  start_item_other :
      (s : Stream) (k : Kind) (i : ℕ) (item : StreamItem)
      → get_active s ≡ some (i, item)
      → item.finalized ≡ false
      → same_kind item.kind k ≡ false
      → start_item number_text uuid s k
        ≡ (open_item number_text uuid (finalize_active s) k, length (finalize_active s).items)
  unfolding start_item
  start_item_other s k i item e f other =
      rw (e, start_item)
        (if_false item.finalized _ _ f ∙ if_false (same_kind item.kind k) _ _ other)

  -- A new item behind closed ones
  open_item-closed :
      (s : Stream) (items : List StreamItem) (k : Kind)
      → IsClosed s items
      → IsBusy (open_item number_text uuid s k)
  unfolding open_item
  open_item-closed s items k h =
      let id =
        generated_item_id (prefix_of k) s.response_id (number_text (of_ℕ (length s.items))) in
      record {
        closed = items;
        kind = k;
        id = id;
        text = [];
        is_created = h.is_created;
        items_are = rw h.items_are;
        active_is = rw h.items_are;
        sent = Run-append fresh (between (map output_item items)) _ s.queue _ h.sent (
            Run-open (map output_item items) (length s.items) k id
              (ap length h.items_are ∙ sym (length-map output_item items)));
      }

  open_item-IsStarted :
      (s : Stream) (before items : List StreamItem) (k : Kind)
      → IsClosed s items
      → ((t : Text)
          → push_last (map segment_of before) k t
            ≡ map segment_of items ++ record { kind = k; text = t } ∷ [])
      → IsStarted before k (open_item number_text uuid s k, length s.items)
  unfolding open_item-closed
  open_item-IsStarted s before items k h pushes = record {
    busy = open_item-closed s items k h;
    index_is = ap length h.items_are;
    kind_is = refl;
    pushes = pushes;
  }

  start_item-idle :
      (s : Stream) (k : Kind) → IsIdle s → IsStarted [] k (start_item number_text uuid s k)
  unfolding start_item push_last
  start_item-idle s k h =
      subst (IsStarted [] k) (sym (start_item-none s k (get_active-none s h.no_active))) (
        open_item-IsStarted s [] [] k
          (record {
            is_created = h.is_created;
            items_are = h.no_items;
            no_active = h.no_active;
            sent = h.sent;
          })
          (λ t. refl))

  start_item-busy :
      (s : Stream) (k : Kind) (b : IsBusy s) → IsStarted s.items k (start_item number_text uuid s k)
  unfolding start_item
  start_item-busy s k b =
      let last = open_at (length b.closed) b.kind b.id b.text in
      elim (Bool-cases (same_kind b.kind k)) [
        | inl same ↦
            subst (IsStarted s.items k)
              (sym (start_item_same s k (length b.closed) last (get_active-busy s b) refl same))
              (record {
                busy = b;
                index_is = refl;
                kind_is = same_kind-eq b.kind k same;
                pushes = λ t. pushes_same s b k t same;
              })
        | inr other ↦
            subst (IsStarted s.items k)
              (sym (start_item_other s k (length b.closed) last (get_active-busy s b) refl other))
              (open_item-IsStarted (finalize_active s) s.items (finalized_items s b) k
                (finalize_active-busy s b) (λ t. pushes_other s b k t other))
      ]

  extend_item_of :
      (s : Stream) (i : ℕ) (item : StreamItem) (k : Kind) (t : Text)
      → get_elem? s.items i ≡ some item
      → extend_item number_text uuid (s, i) k t ≡ record s {
        items = set s.items i (record item { text = item.text ++ t });
        queue = s.queue ++ text_delta k item.id item.output_index t ∷ [];
      }
  unfolding extend_item
  extend_item_of s i item k t e = rw (e, extend_item)

  -- A busy state whose items are given
  abbrev BusyWith : Stream → List StreamItem → Type 0
  BusyWith s items = IsBusy s × (s.items ≡ items)

  -- `item.text += text` on the open item
  extend_item-busy :
      (s : Stream) (b : IsBusy s) (t : Text)
      → BusyWith
          (extend_item number_text uuid (s, length b.closed) b.kind t)
          (b.closed ++ open_at (length b.closed) b.kind b.id (b.text ++ t) ∷ [])
  extend_item-busy s b t =
      let n = length b.closed in
      let last = open_at n b.kind b.id b.text in
      let longer = open_at n b.kind b.id (b.text ++ t) in
      let same : set s.items n longer ≡ b.closed ++ longer ∷ [] =
        ap (λ l. set l n longer) b.items_are ∙ set-last b.closed last longer in
      subst (λ u. BusyWith u (b.closed ++ longer ∷ []))
        (sym (
          extend_item_of s n last b.kind t
            (ap (λ l. get_elem? l n) b.items_are ∙ get_elem?-last b.closed last)))
        (
          record {
            closed = b.closed;
            kind = b.kind;
            id = b.id;
            text = b.text ++ t;
            is_created = b.is_created;
            items_are = same;
            active_is = b.active_is;
            sent =
                Run-append fresh (writing (map output_item b.closed) b.kind b.id b.text) _ s.queue _
                  b.sent (_, write (sym (length-map output_item b.closed)) refl, refl);
          },
          same,
        )

  -- A state that is being written, with the segments of its items
  abbrev pub Writes : Stream → List Segment → Type 0
  Writes s segments = IsBusy s × (map segment_of s.items ≡ segments)

  extend_item-started :
      (before : List StreamItem) (s : Stream) (i : ℕ) (k : Kind) (t : Text)
      → IsStarted before k (s, i)
      → Writes (extend_item number_text uuid (s, i) k t) (push_last (map segment_of before) k t)
  extend_item-started before s i k t h =
      let b = h.busy in
      let (busy_after, items_after) = extend_item-busy s b t in
      let segments : map segment_of
            (extend_item number_text uuid (s, length b.closed) b.kind t).items
          ≡ push_last (map segment_of before) k t =
        ap (map segment_of) items_after
        ∙ map-snoc segment_of b.closed (open_at (length b.closed) b.kind b.id (b.text ++ t))
        ∙ ap (λ j. map segment_of b.closed ++ record { kind = j; text = b.text ++ t } ∷ [])
            h.kind_is
        ∙ sym (h.pushes t) in
      subst
        (λ n.
          Writes (extend_item number_text uuid (s, n) k t) (push_last (map segment_of before) k t))
        (sym h.index_is)
        (subst
          (λ j.
            Writes (extend_item number_text uuid (s, length b.closed) j t)
              (push_last (map segment_of before) k t))
          h.kind_is (busy_after, segments))

  start_item-live :
      (s : Stream) (k : Kind) → IsLive s → IsStarted s.items k (start_item number_text uuid s k)
  start_item-live s k (idle h) =
      subst (λ l. IsStarted l k (start_item number_text uuid s k)) (sym h.no_items)
        (start_item-idle s k h)
  start_item-live s k (busy b) = start_item-busy s k b

  append_text-live :
      (s : Stream) (k : Kind) (t : Text)
      → IsLive s
      → Writes
          (extend_item number_text uuid (ensure_item_started number_text uuid s k) k t)
          (push_last (map segment_of s.items) k t)
  unfolding ensure_item_started
  append_text-live s k t h =
      let u = ensure_created number_text uuid s end in
      let (s', i) = start_item number_text uuid u k in
      let started = start_item-live u k (ensure_created-IsLive number_text uuid s end h) in
      subst
        (λ l. Writes (extend_item number_text uuid (s', i) k t) (push_last (map segment_of l) k t))
        (ensure_created-items number_text uuid s end) (extend_item-started u.items s' i k t started)

  -- A live state whose items have the given segments
  abbrev pub Shows : Stream → List Segment → Type 0
  Shows s segments = IsLive s × (map segment_of s.items ≡ segments)

  -- `appendStreamTextDelta` keeps to the protocol, and pushes the segment onto the items.
  pub append_text_delta-live :
      (s : Stream) (segment : Segment)
      → IsLive s
      → Shows
          (append_text_delta number_text uuid s segment)
          (push_segment (map segment_of s.items) segment.kind segment.text)
  unfolding append_text_delta push_segment
  append_text_delta-live s segment h = go segment.kind segment.text
    where
      go :
          (k : Kind) (t : Text)
          → Shows
              (append_text_delta number_text uuid s (record { kind = k; text = t }))
              (push_segment (map segment_of s.items) k t)
      go k [] = (h, refl)
      go k (c ∷ t) = let (b, e) = append_text-live s k (c ∷ t) h in (busy b, e)

  -- So does a list of segments.
  pub append_text_deltas-live :
      (s : Stream) (segments : List Segment)
      → IsLive s
      → Shows
          (append_text_deltas number_text uuid s segments)
          (push_all (map segment_of s.items) segments)
  unfolding append_text_deltas push_all
  append_text_deltas-live s [] h = (h, refl)
  append_text_deltas-live s (segment ∷ segments) h =
      let t = append_text_delta number_text uuid s segment in
      let (live, same) = append_text_delta-live s segment h in
      let (live', same') = append_text_deltas-live t segments live in
      (live', same' ∙ ap (λ l. push_all l segments) same)
