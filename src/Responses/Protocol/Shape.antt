-- ===== src/Responses/Protocol/Shape.antt =====
-- The shapes of the state between two calls, and the closing of the item that is being written.
use mathlib.Core.List.{append_assoc}
use llmrelay_service.Responses.Items.{Item}
use llmrelay_service.Base.{
  ℕ, suc, ◌≡◌, refl, sym, ap, subst, ◌∙◌, Bool, true, false, none, some, List, [], ◌∷◌, ◌++◌, map,
  if◌then◌else◌, Text, length, get_elem?, set, arith, if_true, if_false,
}
use llmrelay_service.Think.{Kind, message, reasoning, Segment, same_kind, push_last}
use llmrelay_service.Responses.Stream.{
  StreamItem, Stream, output_item, finalize_active, close_events, item_added, part_added,
  output_item_added, content_part, get_active,
}
use llmrelay_service.Responses.Protocol.{
  fresh, between, writing, announce, start_part, end_text, end_part, end_item, Run, Run-append,
  closed_item,
}

abbrev pub segment_of : StreamItem → Segment
segment_of item = record { kind = item.kind; text = item.text }

-- Nothing has been sent.
pub record IsFresh (s : Stream) : Type 0 where
  pub not_created : s.created ≡ false
  pub no_items : s.items ≡ []
  pub no_active : s.active ≡ none
  pub nothing_sent : s.queue ≡ []

-- The response is announced, and no item yet.
pub record IsIdle (s : Stream) : Type 0 where
  pub is_created : s.created ≡ true
  pub no_items : s.items ≡ []
  pub no_active : s.active ≡ none
  pub sent : Run fresh s.queue (between [])

abbrev pub open_at : ℕ → Kind → Text → Text → StreamItem
open_at n k id t = record { kind = k; output_index = n; id = id; text = t; finalized = false }

-- The last item is being written, and those before it are closed.
pub record IsBusy (s : Stream) : Type 0 where
  pub closed : List StreamItem
  pub kind : Kind
  pub id : Text
  pub text : Text
  pub is_created : s.created ≡ true
  pub items_are : s.items ≡ closed ++ open_at (length closed) kind id text ∷ []
  pub active_is : s.active ≡ some (length closed)
  pub sent : Run fresh s.queue (writing (map output_item closed) kind id text)

pub data IsLive (s : Stream) : Type 0 where
  idle : IsIdle s → IsLive s
  busy : IsBusy s → IsLive s

pub length-map {ℓ κ} :
    {A : Type ℓ} {B : Type κ} (f : A → B) (xs : List A) → length (map f xs) ≡ length xs
length-map f [] = refl
length-map f (x ∷ xs) = ap suc (length-map f xs)

pub get_elem?-last {ℓ} :
    {A : Type ℓ} (xs : List A) (a : A) → get_elem? (xs ++ a ∷ []) (length xs) ≡ some a
get_elem?-last [] a = refl
get_elem?-last (x ∷ xs) a = get_elem?-last xs a

pub set-last {ℓ} :
    {A : Type ℓ} (xs : List A) (a b : A) → set (xs ++ a ∷ []) (length xs) b ≡ xs ++ b ∷ []
set-last [] a b = refl
set-last (x ∷ xs) a b = ap (λ l. x ∷ l) (set-last xs a b)

pub output_item-open :
    (n : ℕ) (k : Kind) (id t : Text) (f : Bool)
    → output_item (record (open_at n k id t) { finalized = f }) ≡ closed_item k id t
output_item-open n message id t f = refl
output_item-open n reasoning id t f = refl

pub map-snoc {ℓ κ} :
    {A : Type ℓ} {B : Type κ} (f : A → B) (xs : List A) (a : A)
    → map f (xs ++ a ∷ []) ≡ map f xs ++ f a ∷ []
map-snoc f [] a = refl
map-snoc f (x ∷ xs) a = ap (λ l. f x ∷ l) (map-snoc f xs a)

-- Closing an item does not change what it stands for.
pub closed-map :
    (xs : List StreamItem) (k : Kind) (id t : Text)
    → map output_item xs ++ output_item (open_at (length xs) k id t) ∷ []
      ≡ map output_item (xs ++ record (open_at (length xs) k id t) { finalized = true } ∷ [])
closed-map xs message id t = sym (map-snoc output_item xs _)
closed-map xs reasoning id t = sym (map-snoc output_item xs _)

pub push_last-snoc :
    (ss : List Segment) (r : Segment) (k : Kind) (t : Text)
    → push_last (ss ++ r ∷ []) k t
      ≡ ss
        ++ (if same_kind r.kind k
            then record r { text = r.text ++ t } ∷ []
            else r ∷ record { kind = k; text = t } ∷ [])
unfolding push_last
push_last-snoc [] r k t = refl
push_last-snoc (s ∷ []) r k t = refl
push_last-snoc (s ∷ q ∷ ss) r k t = ap (λ l. s ∷ l) (push_last-snoc (q ∷ ss) r k t)

pub same_kind-eq : (j k : Kind) → same_kind j k ≡ true → j ≡ k
same_kind-eq message message h = refl
same_kind-eq reasoning reasoning h = refl
same_kind-eq message reasoning h = cc
same_kind-eq reasoning message h = cc

-- The five events of an item, each as a step.
pub Run-open :
    (out : List Item) (n : ℕ) (k : Kind) (id : Text)
    → n ≡ length out
    → Run
        (between out)
        (item_added n (output_item_added (open_at n k id []))
          ∷ part_added id n (content_part (open_at n k id []))
          ∷ [])
        (writing out k id [])
Run-open out n message id e = (_, announce message id e refl, (_, start_part e refl, refl))
Run-open out n reasoning id e = (_, announce reasoning id e refl, (_, start_part e refl, refl))

pub Run-close :
    (out : List Item) (n : ℕ) (k : Kind) (id t : Text)
    → n ≡ length out
    → Run
        (writing out k id t)
        (close_events (open_at n k id t))
        (between (out ++ output_item (open_at n k id t) ∷ []))
Run-close out n message id t e =
    (_, end_text e, (_, end_part e refl, (_, end_item e refl refl, refl)))
Run-close out n reasoning id t e =
    (_, end_text e, (_, end_part e refl, (_, end_item e refl refl, refl)))

-- `finalizeActiveStreamItem` closes the item that is being written.
pub record IsClosed (s : Stream) (items : List StreamItem) : Type 0 where
  pub is_created : s.created ≡ true
  pub items_are : s.items ≡ items
  pub no_active : s.active ≡ none
  pub sent : Run fresh s.queue (between (map output_item items))

unfoldable pub finalized_items : (s : Stream) → IsBusy s → List StreamItem
finalized_items s b =
    b.closed ++ record (open_at (length b.closed) b.kind b.id b.text) { finalized = true } ∷ []

pub get_active_of :
    (s : Stream) (i : ℕ) (item : StreamItem)
    → s.active ≡ some i
    → get_elem? s.items i ≡ some item
    → get_active s ≡ some (i, item)
get_active_of s i item e f = ground arith

pub finalize_active_of :
    (s : Stream) (i : ℕ) (item : StreamItem)
    → get_active s ≡ some (i, item)
    → item.finalized ≡ false
    → finalize_active s ≡ record s {
      queue = s.queue ++ close_events item;
      items = set s.items i (record item { finalized = true });
      active = none;
    }
unfolding finalize_active
finalize_active_of s i item e f = rw (e, finalize_active) (if_false item.finalized _ _ f)

pub get_active-busy :
    (s : Stream) (b : IsBusy s)
    → get_active s ≡ some (length b.closed, open_at (length b.closed) b.kind b.id b.text)
get_active-busy s b =
    let last : get_elem? s.items (length b.closed)
        ≡ some (open_at (length b.closed) b.kind b.id b.text) =
      ap (λ l. get_elem? l (length b.closed)) b.items_are
      ∙ get_elem?-last b.closed (open_at (length b.closed) b.kind b.id b.text) in
    get_active_of s (length b.closed) (open_at (length b.closed) b.kind b.id b.text) b.active_is
      last

pub finalize_active-busy :
    (s : Stream) (b : IsBusy s) → IsClosed (finalize_active s) (finalized_items s b)
unfolding finalize_active finalized_items
finalize_active-busy s b =
    let last = open_at (length b.closed) b.kind b.id b.text in
    subst (λ t. IsClosed t (finalized_items s b))
      (sym (finalize_active_of s (length b.closed) last (get_active-busy s b) refl))
      (record {
        is_created = b.is_created;
        items_are =
            ap (λ l. set l (length b.closed) (record last { finalized = true })) b.items_are
            ∙ set-last b.closed last (record last { finalized = true });
        no_active = refl;
        sent =
            Run-append fresh (writing (map output_item b.closed) b.kind b.id b.text) _ s.queue
              (close_events last) b.sent
              (subst
                (λ l.
                  Run (writing (map output_item b.closed) b.kind b.id b.text) (close_events last)
                    (between l))
                (closed-map b.closed b.kind b.id b.text)
                (Run-close (map output_item b.closed) (length b.closed) b.kind b.id b.text
                  (sym (length-map output_item b.closed))));
      })

pub get_active-none : (s : Stream) → s.active ≡ none → get_active s ≡ none
get_active-none s e = ground arith

-- The result of `ensureStreamItemStarted`: an item of the wanted kind is open, and a text pushed
-- onto the segments so far goes into it.
pub record IsStarted (before : List StreamItem) (k : Kind) (p : Stream × ℕ) : Type 0 where
  pub busy : IsBusy p.0
  pub index_is : p.1 ≡ length busy.closed
  pub kind_is : busy.kind ≡ k
  pub pushes :
      (t : Text)
      → push_last (map segment_of before) k t
        ≡ map segment_of busy.closed ++ record { kind = k; text = busy.text ++ t } ∷ []

-- A text is pushed into the last item, or behind it.
pub pushes_same :
    (s : Stream) (b : IsBusy s) (k : Kind) (t : Text)
    → same_kind b.kind k ≡ true
    → push_last (map segment_of s.items) k t
      ≡ map segment_of b.closed ++ record { kind = k; text = b.text ++ t } ∷ []
pushes_same s b k t same =
    let last = open_at (length b.closed) b.kind b.id b.text in
    ap (λ l. push_last (map segment_of l) k t) b.items_are
    ∙ ap (λ l. push_last l k t) (map-snoc segment_of b.closed last)
    ∙ push_last-snoc (map segment_of b.closed) (segment_of last) k t
    ∙ ap (λ l. map segment_of b.closed ++ l)
        (if_true (same_kind b.kind k) _ _ same
          ∙ ap (λ j. record { kind = j; text = b.text ++ t } ∷ []) (same_kind-eq b.kind k same))

pub pushes_other :
    (s : Stream) (b : IsBusy s) (k : Kind) (t : Text)
    → same_kind b.kind k ≡ false
    → push_last (map segment_of s.items) k t
      ≡ map segment_of (finalized_items s b) ++ record { kind = k; text = t } ∷ []
unfolding finalized_items
pushes_other s b k t other =
    let last = open_at (length b.closed) b.kind b.id b.text in
    ap (λ l. push_last (map segment_of l) k t) b.items_are
    ∙ ap (λ l. push_last l k t) (map-snoc segment_of b.closed last)
    ∙ push_last-snoc (map segment_of b.closed) (segment_of last) k t
    ∙ ap (λ l. map segment_of b.closed ++ l) (if_false (same_kind b.kind k) _ _ other)
    ∙ sym (append_assoc (map segment_of b.closed) (segment_of last ∷ []) _)
    ∙ ap (λ l. l ++ record { kind = k; text = t } ∷ [])
        (sym (map-snoc segment_of b.closed (record last { finalized = true })))
