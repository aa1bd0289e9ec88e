-- ===== src/Think/Tests.antt =====
-- Runs of the tag parser on concrete texts.
use llmrelay_service.Base.{◌≡◌, refl, false, List, [], ◌∷◌, Text, codes, concat}
use llmrelay_service.Think.{message, reasoning, split_think_tagged_text, stream_segments}
use llmrelay_service.Think.Labels.{flat, label}
use llmrelay_service.Think.Split.{split-label}
use llmrelay_service.Think.Canonical.{IsCanonical, split-IsCanonical, push_all, merged_stream-split}

abbrev thought : Text
thought = codes "<think>a</think>b"

-- The closing tag is cut in two.
abbrev cut_thought : List Text
cut_thought = codes "<think>a</" ∷ codes "think>b" ∷ []

split-thought :
    split_think_tagged_text thought
    ≡ record { kind = reasoning; text = codes "a" }
      ∷ record { kind = message; text = codes "b" }
      ∷ []
unfolding split_think_tagged_text
split-thought = refl

stream-thought :
    stream_segments cut_thought
    ≡ record { kind = reasoning; text = codes "a" }
      ∷ record { kind = message; text = codes "b" }
      ∷ []
unfolding stream_segments
stream-thought = refl

split-label_example : flat (split_think_tagged_text thought) ≡ label 0 false thought
split-label_example = split-label thought

split-IsCanonical_example : IsCanonical (split_think_tagged_text thought)
split-IsCanonical_example = split-IsCanonical thought

merged_stream-split_example :
    push_all [] (stream_segments cut_thought) ≡ split_think_tagged_text (concat cut_thought)
merged_stream-split_example = merged_stream-split cut_thought
