-- ===== src/Responses/Sse.antt =====
-- The framing of the event stream: `processSseBlock`, `flushCompleteBlocks` and the two methods of
-- the `TransformStream`. Text comes in as the `TextDecoder` hands it over. `parse_json` is
-- `JSON.parse`, with `none` where it throws.
pub mod Framing
use llmrelay_service.Base.{
  ℕ, zero, suc, ◌+◌, Bool, true, false, Option, none, some, List, [], ◌∷◌, ◌++◌, if◌then◌else◌,
  ◌&&◌, Text, codes, length, take, drop, is_empty, starts_with, trim, join, ◌==◌, list_eq, nat_eq,
  ℤ, Json, obj, filter, map,
}
use mathlib.Core.Option
use llmrelay_service.Responses.Stream.{Stream, raw, enqueue, create_empty}
use llmrelay_service.Responses.Chunks.{process_chunk, finalize_stream}

-- The lines between the line feeds
split_lines : Text → List Text
split_lines [] = [] ∷ []
split_lines (c ∷ s) = elim (split_lines s) [
  | [] ↦ (c ∷ []) ∷ []
  | line ∷ lines ↦ if c == b'\n' then [] ∷ line ∷ lines else (c ∷ line) ∷ lines
]

-- A carriage return in front of a line feed belongs to the separator.
strip_return : Text → Text
strip_return [] = []
strip_return (c ∷ []) = if c == b'\r' then [] else c ∷ []
strip_return (c ∷ d ∷ s) = c ∷ strip_return (d ∷ s)

strip_returns : List Text → List Text
unfolding strip_return
strip_returns [] = []
strip_returns (line ∷ []) = line ∷ []
strip_returns (line ∷ next ∷ lines) = strip_return line ∷ strip_returns (next ∷ lines)

-- The `data: ` lines of a block, without the field name
unfoldable pub data_lines : Text → List Text
unfolding split_lines strip_returns filter starts_with
data_lines block =
    map (drop 6) (filter (starts_with (codes "data: ")) (strip_returns (split_lines block)))

abbrev pub is_nil {ℓ} : {A : Type ℓ} → List A → Bool
is_nil [] = true
is_nil (_ ∷ _) = false

-- `\r?\n` at the front of a text: the length of the match
line_end : Text → Option ℕ
line_end [] = none
line_end (c ∷ []) = if c == b'\n' then some 1 else none
line_end (c ∷ d ∷ s) =
    if c == b'\n' then some 1 else if (c == b'\r') && (d == b'\n') then some 2 else none

-- `\r?\n\r?\n` at the front of a text
boundary_at : Text → Option ℕ
unfolding line_end
boundary_at s = elim (line_end s) [
  | none ↦ none
  | some a ↦ Option.map (λ b. a + b) (line_end (drop a s))
]

-- `/\r?\n\r?\n/.exec(buffer)`: where the leftmost match starts, and its length
unfoldable pub find_boundary : Text → Option (ℕ × ℕ)
unfolding boundary_at
find_boundary [] = none
find_boundary (c ∷ s) =
    let later = Option.map (λ (m : ℕ × ℕ). (suc m.0, m.1)) (find_boundary s) in
    elim (boundary_at (c ∷ s)) [ some n ↦ some (0, n) | none ↦ later ]

-- The framing runs over any state `S` with a handler for blocks.
module _ {ℓ} {S : Type ℓ} (process : S → Text → S) where
  -- The loop of `flushCompleteBlocks`; each round shortens the buffer.
  flush_loop : ℕ → Text → S → Text × S
  flush_loop zero buffer s = (buffer, s)
  flush_loop (suc fuel) buffer s = elim (find_boundary buffer) [
    | none ↦ (buffer, s)
    | some (i, n) ↦ flush_loop fuel (drop (i + n) buffer) (process s (take i buffer))
  ]

  unfoldable pub flush_complete_blocks : Text → S → Text × S
  unfolding flush_loop find_boundary
  flush_complete_blocks buffer s = flush_loop (length buffer) buffer s

  -- `transform(chunk, controller)`
  unfoldable pub transform : Text × S → Text → Text × S
  unfolding flush_complete_blocks
  transform (buffer, s) chunk = flush_complete_blocks (buffer ++ chunk) s

  unfoldable pub transform_all : Text × S → List Text → Text × S
  unfolding transform
  transform_all p [] = p
  transform_all p (chunk ∷ chunks) = transform_all (transform p chunk) chunks

module _ (number_text : ℤ → Text) (uuid : Text) (parse_json : Text → Option Json) where
  -- The end of `processSseBlock`, where the data is neither empty nor the end mark
  process_data : Stream → Text → Text → Stream
  process_data s block text = elim (parse_json text) [
    | none ↦ enqueue s (raw (block ++ codes "\n\n"))
    | some (obj chunk) ↦ process_chunk number_text uuid s chunk
    | some _ ↦ s
  ]

  -- `processSseBlock`
  unfoldable pub process_block : Stream → Text → Stream
  unfolding process_data data_lines trim join process_chunk finalize_stream
  process_block s block =
      let lines = data_lines block in
      let text = trim (join (codes "\n") lines) in
      if is_nil lines
      then s
      else if is_empty text
      then s
      else if text == codes "[DONE]"
      then finalize_stream number_text uuid s
      else process_data s block text

  -- `flush(controller)`; `tail` is what the decoder still held.
  unfoldable pub flush_stream : Text × Stream → Text → Stream
  unfolding process_block transform finalize_stream
  flush_stream p tail =
      let (buffer, s) = transform process_block p tail in
      finalize_stream number_text uuid
        (if is_empty (trim buffer) then s else process_block s buffer)

  -- The whole life of a stream that starts at the time `now`.
  unfoldable pub run_stream : ℤ → List Text → Text → Stream
  unfolding flush_stream transform_all create_empty
  run_stream now chunks tail =
      flush_stream (transform_all process_block ([], create_empty now) chunks) tail
