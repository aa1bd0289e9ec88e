-- ===== src/Responses/Agreement/Visible.antt =====
-- What a client shows of the items of both conversions are the segments they are made of.
use llmrelay_service.Base.{
  ℕ, suc, ◌≡◌, refl, ap, ◌∙◌, Option, none, some, List, [], ◌∷◌, map, Text, ℤ, Json,
}
use llmrelay_service.Think.{Kind, message, reasoning, Segment}
use llmrelay_service.Responses.Stream.{StreamItem, output_item}
use llmrelay_service.Responses.Items.{
  Item, message_item, reasoning_item, output_text, reasoning_text,
}
use llmrelay_service.Responses.Batch.{segment_item, segment_items}
use llmrelay_service.Responses.Protocol.Shape.{segment_of}

-- What a client shows of an item: its kind and its text, without identifiers and annotations.
abbrev pub visible : Item → Option Segment
visible (message_item id status (output_text t annotations ∷ [])) =
    some (record { kind = message; text = t })
visible (reasoning_item id (reasoning_text t ∷ [])) = some (record { kind = reasoning; text = t })
visible _ = none

visible-output_item : (item : StreamItem) → visible (output_item item) ≡ some (segment_of item)
visible-output_item item = go item.kind
  where
    go :
        (k : Kind)
        → visible (output_item (record item { kind = k }))
          ≡ some (record { kind = k; text = item.text })
    go message = refl
    go reasoning = refl

pub visible-output_items :
    (items : List StreamItem)
    → map visible (map output_item items) ≡ map some (map segment_of items)
visible-output_items [] = refl
visible-output_items (item ∷ items) =
    ap (λ l. l ∷ map visible (map output_item items)) (visible-output_item item)
    ∙ ap (λ l. some (segment_of item) ∷ l) (visible-output_items items)

module _ (number_text : ℤ → Text) (stringify : Json → Text) where
  visible-segment_item :
      (id : Text) (annotations : List Json) (n : ℕ) (k : Kind) (t : Text)
      → visible
          (segment_item number_text stringify id annotations n (record { kind = k; text = t }))
        ≡ some (record { kind = k; text = t })
  unfolding segment_item
  visible-segment_item id annotations n message t = refl
  visible-segment_item id annotations n reasoning t = refl

  pub visible-segment_items :
      (id : Text) (annotations : List Json) (n : ℕ) (segments : List Segment)
      → map visible (segment_items number_text stringify id annotations n segments)
        ≡ map some segments
  unfolding segment_items
  visible-segment_items id annotations n [] = refl
  visible-segment_items id annotations n (s ∷ segments) =
      ap
        (λ l. l ∷ map visible (segment_items number_text stringify id annotations (suc n) segments))
        (visible-segment_item id annotations n s.kind s.text)
      ∙ ap (λ l. some s ∷ l) (visible-segment_items id annotations (suc n) segments)
