-- ===== src/Responses/Tests.antt =====
-- Runs of both conversions on a concrete answer.
use llmrelay_service.Responses.Stream.{output_item}
use llmrelay_service.Base.{
  ◌≡◌, refl, List, [], ◌∷◌, ◌++◌, map, Text, codes, concat, ℤ, pos, Option, none, some, Json, str,
  obj, arr, Props, end, prop, nil, cons, get,
}
use llmrelay_service.Think.{split_think_tagged_text}
use llmrelay_service.Responses.Chunks.{stream_chunks}
use llmrelay_service.Responses.Sse.{run_stream, find_boundary}
use llmrelay_service.Responses.Sse.Framing.{run_stream-concat}
use llmrelay_service.Responses.Batch.{convert_message, extract_text_content}
use llmrelay_service.Responses.Protocol.{Run, fresh, over}
use llmrelay_service.Responses.Protocol.Shape.{segment_of}
use llmrelay_service.Responses.Protocol.Ends.{stream_chunks-Run}
use llmrelay_service.Responses.Agreement.Visible.{visible}
use llmrelay_service.Responses.Agreement.{
  contents, stream_chunks-split, convert_message-stream_chunks,
}

abbrev no_text : ℤ → Text
no_text n = []

abbrev delta_of : Text → Props
delta_of t =
    prop (codes "choices")
      (arr (cons (obj (prop (codes "delta") (obj (prop (codes "content") (str t) end)) end)) nil))
      end

abbrev two_chunks : List Props
two_chunks = delta_of (codes "<think>a</") ∷ delta_of (codes "think>b") ∷ []

abbrev whole_message : Props
whole_message = prop (codes "content") (str (codes "<think>a</think>b")) end

abbrev no_json : Text → Option Json
no_json t = none

abbrev two_parts : List Text
two_parts = codes "data: [DONE]\r" ∷ codes "\n\r\nrest" ∷ []

two_chunks-contents : contents two_chunks ≡ codes "<think>a</" ∷ codes "think>b" ∷ []
unfolding contents get
two_chunks-contents = refl

split_boundary : find_boundary (concat two_parts) ≡ some (12, 4)
unfolding find_boundary
split_boundary = refl

stream_chunks-Run_example : Run fresh (stream_chunks no_text [] (pos 7) two_chunks).queue over
stream_chunks-Run_example = stream_chunks-Run no_text [] (pos 7) two_chunks

stream_chunks-split_example :
    map segment_of (stream_chunks no_text [] (pos 7) two_chunks).items
    ≡ split_think_tagged_text (concat (contents two_chunks))
stream_chunks-split_example = stream_chunks-split no_text [] (pos 7) two_chunks

run_stream-concat_example :
    run_stream no_text [] no_json (pos 7) two_parts (codes "!")
    ≡ run_stream no_text [] no_json (pos 7) ((concat two_parts ++ codes "!") ∷ []) []
run_stream-concat_example = run_stream-concat no_text [] no_json (pos 7) two_parts (codes "!")

convert_message-stream_chunks_example :
    map visible (convert_message no_text (λ v. []) whole_message (codes "resp_1"))
    ≡ map visible (map output_item (stream_chunks no_text [] (pos 7) two_chunks).items)
unfolding contents get extract_text_content
convert_message-stream_chunks_example =
    convert_message-stream_chunks no_text (λ v. []) [] (pos 7) two_chunks whole_message
      (codes "resp_1") refl refl
