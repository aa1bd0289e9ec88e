-- ===== src/Responses/Protocol.antt =====
-- The event protocol of the Responses API as a client sees it: which event may follow which, and
-- what the client has received by then. It does not look at the state of the relay.
pub mod Shape
pub mod Texts
pub mod Frame
pub mod Ends
use llmrelay_service.Base.{ℕ, suc, ◌≡◌, refl, sym, ap, ◌∙◌, List, [], ◌∷◌, ◌++◌, Text, length}
use llmrelay_service.Think.{Kind, message, reasoning}
use llmrelay_service.Responses.Items.{
  Status, in_progress, completed, incomplete, Part, output_text, reasoning_text, Item, message_item,
  reasoning_item, function_call, Response,
}
use llmrelay_service.Responses.Stream.{
  Event, response_created, item_added, part_added, text_delta, text_done, part_done, item_done,
  response_completed, done,
}

abbrev pub part_of : Kind → Text → Part
part_of reasoning t = reasoning_text t
part_of message t = output_text t []

-- An item as it is announced, and as it is closed.
abbrev pub blank_item : Kind → Text → Item
blank_item reasoning id = reasoning_item id []
blank_item message id = message_item id in_progress []

abbrev pub closed_item : Kind → Text → Text → Item
closed_item reasoning id t = reasoning_item id (reasoning_text t ∷ [])
closed_item message id t = message_item id completed (output_text t [] ∷ [])

-- What a client knows; the list holds the items that are closed.
pub data Client : Type 0 where
  fresh : Client
  between : List Item → Client
  announced : List Item → Kind → Text → Client
  -- kind, id, the text received so far
  writing : List Item → Kind → Text → Text → Client
  text_closed : List Item → Kind → Text → Text → Client
  part_closed : List Item → Kind → Text → Text → Client
  calling : List Item → Item → Client
  ended : List Item → Client
  over : Client

pub data Step : Client → Event → Client → Type 0 where
  create :
      {r : Response}
      → r.status ≡ in_progress
      → r.output ≡ []
      → Step fresh (response_created r) (between [])
  announce :
      {out : List Item} {n : ℕ} {item : Item} (k : Kind) (id : Text)
      → n ≡ length out
      → item ≡ blank_item k id
      → Step (between out) (item_added n item) (announced out k id)
  start_part :
      {out : List Item} {k : Kind} {id : Text} {n : ℕ} {part : Part}
      → n ≡ length out
      → part ≡ part_of k []
      → Step (announced out k id) (part_added id n part) (writing out k id [])
  write :
      {out : List Item} {k : Kind} {id t d t' : Text} {n : ℕ}
      → n ≡ length out
      → t' ≡ t ++ d
      → Step (writing out k id t) (text_delta k id n d) (writing out k id t')
  end_text :
      {out : List Item} {k : Kind} {id t : Text} {n : ℕ}
      → n ≡ length out
      → Step (writing out k id t) (text_done k id n t) (text_closed out k id t)
  end_part :
      {out : List Item} {k : Kind} {id t : Text} {n : ℕ} {part : Part}
      → n ≡ length out
      → part ≡ part_of k t
      → Step (text_closed out k id t) (part_done id n part) (part_closed out k id t)
  end_item :
      {out after : List Item} {k : Kind} {id t : Text} {n : ℕ} {item : Item}
      → n ≡ length out
      → item ≡ closed_item k id t
      → after ≡ out ++ item ∷ []
      → Step (part_closed out k id t) (item_done n item) (between after)
  call :
      {out : List Item} {n : ℕ} (id call_id name arguments : Text)
      → n ≡ length out
      → Step
          (between out)
          (item_added n (function_call id call_id name arguments))
          (calling out (function_call id call_id name arguments))
  end_call :
      {out after : List Item} {n : ℕ} {item : Item}
      → n ≡ length out
      → after ≡ out ++ item ∷ []
      → Step (calling out item) (item_done n item) (between after)
  complete :
      {out : List Item} {r : Response}
      → r.output ≡ out
      → Step (between out) (response_completed r) (ended out)
  finish : {out : List Item} → Step (ended out) done over

-- A sequence of events that the protocol allows, from one state of knowledge to another.
abbrev pub Run : Client → List Event → Client → Type 0
Run c [] d = c ≡ d
Run c (e ∷ es) d = (m : Client) × Step c e m × Run m es d

pub Run-append :
    (c m d : Client) (es fs : List Event) → Run c es m → Run m fs d → Run c (es ++ fs) d
Run-append c m d [] fs p q = rw p q
Run-append c m d (e ∷ es) fs (x, s, p) q = (x, s, Run-append x m d es fs p q)
