-- ===== src/Think.antt =====
-- The `<think>` tag handling of src/openai-responses-chat-compat.ts: text that a Chat Completions
-- upstream returns is split into visible text and reasoning, all at once (`splitThinkTaggedText`)
-- or chunk by chunk with a parser state (`consumeThinkTaggedTextChunk`, `flushThinkTaggedText`).
pub mod Labels
pub mod Split
pub mod Chunks
pub mod Canonical
pub mod Tests
use llmrelay_service.Base.{
  ℕ, zero, suc, ◌+◌, ◌-◌, Bool, true, false, not, Option, none, some, List, [], ◌∷◌, ◌++◌,
  if◌then◌else◌, Text, codes, starts_with, ends_with, index_of, length, take, drop, is_empty, min,
}

pub data Kind : Type 0 where
  message reasoning : Kind

pub record Segment : Type 0 where
  pub kind : Kind
  pub text : Text

pub record Parser : Type 0 where
  pub buffer : Text
  pub in_think : Bool

abbrev pub open_tag : Text
open_tag = codes "<think>"

abbrev pub close_tag : Text
close_tag = codes "</think>"

-- `inThink ? THINK_CLOSE_TAG : THINK_OPEN_TAG`
abbrev pub tag_of : Bool → Text
tag_of true = close_tag
tag_of false = open_tag

-- `inThink ? 'reasoning' : 'message'`
abbrev pub kind_of : Bool → Kind
kind_of true = reasoning
kind_of false = message

abbrev pub same_kind : Kind → Kind → Bool
same_kind message message = true
same_kind reasoning reasoning = true
same_kind _ _ = false

-- A segment goes behind the last one, or into it where the kinds agree.
unfoldable pub push_last : List Segment → Kind → Text → List Segment
push_last [] k t = record { kind = k; text = t } ∷ []
push_last (s ∷ []) k t =
    if same_kind s.kind k
    then record s { text = s.text ++ t } ∷ []
    else s ∷ record { kind = k; text = t } ∷ []
push_last (s ∷ r ∷ rs) k t = s ∷ push_last (r ∷ rs) k t

unfoldable pub push_segment : List Segment → Kind → Text → List Segment
unfolding push_last
push_segment segments k t = if is_empty t then segments else push_last segments k t

-- The loop of `splitThinkTaggedText`; `rest` is the text from the cursor on, and each round with a
-- tag in it moves the cursor, so the length of the text is fuel enough.
split_loop : ℕ → Bool → Text → List Segment → List Segment
split_loop zero inside rest segments = segments
split_loop (suc fuel) inside [] segments = segments
split_loop (suc fuel) inside (c ∷ rest) segments = elim (index_of (tag_of inside) (c ∷ rest)) [
  | none ↦ push_segment segments (kind_of inside) (c ∷ rest)
  | some i ↦
      split_loop fuel (not inside) (drop (i + length (tag_of inside)) (c ∷ rest))
        (push_segment segments (kind_of inside) (take i (c ∷ rest)))
]

unfoldable pub split_think_tagged_text : Text → List Segment
unfolding split_loop push_segment index_of
split_think_tagged_text text = split_loop (length text) false text []

-- The loop of `longestTagSuffixPrefix`, from `n` down.
longest_from : ℕ → Text → Text → ℕ
longest_from zero value tag = 0
longest_from (suc n) value tag =
    let shorter = longest_from n value tag in
    if ends_with (take (suc n) tag) value then suc n else shorter

unfoldable pub longest_tag_suffix_prefix : Text → Text → ℕ
unfolding longest_from ends_with
longest_tag_suffix_prefix value tag = longest_from (min (length value) (length tag - 1)) value tag

-- The loop of `consumeThinkTaggedTextChunk`.
consume_loop : ℕ → Parser → List Segment → Parser × List Segment
consume_loop zero p segments = (p, segments)
consume_loop (suc fuel) p segments =
    let tag = tag_of p.in_think in
    if is_empty p.buffer then (p, segments) else elim (index_of tag p.buffer) [
      | some i ↦
          consume_loop fuel
            (record { buffer = drop (i + length tag) p.buffer; in_think = not p.in_think })
            (push_segment segments (kind_of p.in_think) (take i p.buffer))
      | none ↦
          let held = longest_tag_suffix_prefix p.buffer tag in
          let safe = length p.buffer - held in
          (
            record p { buffer = drop safe p.buffer },
            push_segment segments (kind_of p.in_think) (take safe p.buffer),
          )
    ]

unfoldable pub consume_chunk : Parser → Text → Parser × List Segment
unfolding consume_loop push_segment index_of longest_tag_suffix_prefix
consume_chunk p chunk =
    consume_loop (suc (length (p.buffer ++ chunk))) (record p { buffer = p.buffer ++ chunk }) []

unfoldable pub flush : Parser → Parser × List Segment
unfolding push_segment
flush p = (record p { buffer = [] }, push_segment [] (kind_of p.in_think) p.buffer)

abbrev pub initial : Parser
initial = record { buffer = []; in_think = false }

-- A stream: the chunks one after the other, then the end; all segments in the order of emission.
unfoldable pub consume_chunks : Parser → List Text → List Segment
consume_chunks p [] = (flush p).1
consume_chunks p (chunk ∷ chunks) =
    let (q, segments) = consume_chunk p chunk in segments ++ consume_chunks q chunks

unfoldable pub stream_segments : List Text → List Segment
unfolding consume_chunks consume_chunk flush
stream_segments chunks = consume_chunks initial chunks
