-- ===== src/Observer/Collector.antt =====
-- `createObservationCollector`: what the log keeps of a body that passes, and when it was seen. Times are
-- whole milliseconds; `now` is `getObservedAt()` and `clock` `Date.now()`. The decoder and the adapter's
-- `hasTextualSignal`, which throws for no text, are parameters. A promise is settled where the
-- microtask for it is queued, since none of the steps comes between.
use llmrelay_service.Base.{
  ℕ, ◌+◌, ◌-◌, max, Bool, true, false, not, ◌&&◌, ◌||◌, Option, none, some, List, [], ◌∷◌, ◌++◌,
  if◌then◌else◌, Text, codes, length, take, concat, is_empty, trim, ends_with, or_else, ltb,
}
use llmrelay_service.Base.Tests.{◌==◌ as nat_beq}
use llmrelay_service.Timeouts.Choice.{includes}

-- `TruncationReason` less `null`
pub data Truncation : Type 0 where
  size_limit duration_limit : Truncation

-- `ResponseObservation` with its timing, less the time that observing took, and with the bytes of which
-- `rawPayload` is the text
pub record Observation : Type 0 where
  pub raw_payload : List ℕ
  pub response_body_bytes : ℕ
  pub first_chunk_at : Option ℕ
  pub first_token_at : Option ℕ
  pub completed_at : Option ℕ
  pub has_streaming_content : Bool
  pub payload_truncated : Bool
  pub truncation_reason : Option Truncation

-- How the promise is settled
pub data Settled : Type 0 where
  resolved : Observation → Settled
  rejected : Settled

-- The variables, with the state of the decoder
pub record Collector (D : Type 0) : Type 0 where
  pub chunks : List (List ℕ)
  pub total_bytes : ℕ
  pub first_chunk : Option ℕ
  pub first_token : Option ℕ
  pub completed : Option ℕ
  pub truncated : Bool
  pub reason : Option Truncation
  pub has_streaming : Bool
  pub pending : Text
  pub stopped : Bool
  pub settled : Option Settled
  pub decoder : D

-- `replace(/\r\n/g, '\n')`
unfoldable pub normalize_lines : Text → Text
normalize_lines [] = []
normalize_lines (c ∷ []) = c ∷ []
normalize_lines (c ∷ d ∷ s) = elim (nat_beq c 13 && nat_beq d 10) [
  | true ↦ 10 ∷ normalize_lines s
  | false ↦ c ∷ normalize_lines (d ∷ s)
]

abbrev put_character : ℕ → List Text → List Text
put_character c [] = (c ∷ []) ∷ []
put_character c (b ∷ bs) = (c ∷ b) ∷ bs

-- `split(/\n\n/)`
unfoldable pub split_blocks : Text → List Text
split_blocks [] = [] ∷ []
split_blocks (c ∷ []) = (c ∷ []) ∷ []
split_blocks (c ∷ d ∷ s) = elim (nat_beq c 10 && nat_beq d 10) [
  | true ↦ [] ∷ split_blocks s
  | false ↦ put_character c (split_blocks (d ∷ s))
]

-- `eventBlocks.pop() ?? ''`, with the blocks before
unfoldable pub pop : List Text → List Text × Text
pop [] = ([], [])
pop (b ∷ []) = ([], b)
pop (b ∷ c ∷ bs) = let (front, last) = pop (c ∷ bs) in (b ∷ front, last)

-- A time that is no earlier than another
abbrev pub not_before : ℕ → Option ℕ → Option ℕ
not_before least none = none
not_before least (some at) = some (max least at)

abbrev is_unseen : Option ℕ → Bool
is_unseen none = true
is_unseen (some n) = false

module _ {D : Type 0} (decode : D → List ℕ → Text × D) (decode_end : D → Text) (start : D)
    (has_signal : Text → Bool) (is_event_stream : Bool) (max_bytes created_at : ℕ) where
  abbrev pub fresh_collector : Collector D
  fresh_collector = record {
    chunks = [];
    total_bytes = 0;
    first_chunk = none;
    first_token = none;
    completed = none;
    truncated = false;
    reason = none;
    has_streaming = is_event_stream;
    pending = [];
    stopped = false;
    settled = none;
    decoder = start;
  }

  unfoldable pub any_signal : List Text → Bool
  unfolding trim
  any_signal [] = false
  any_signal (block ∷ blocks) =
      (not (is_empty (trim block)) && has_signal (trim block)) || any_signal blocks

  -- The blocks of the text that is held, and the part behind them
  unfoldable pub cut_pending : Text → List Text × Text
  unfolding normalize_lines split_blocks pop ends_with
  cut_pending text =
      let normalized = normalize_lines text in
      if ends_with (codes "\n\n") normalized
      then (split_blocks normalized, [])
      else pop (split_blocks normalized)

  -- `consumeSseEvents`
  unfoldable pub consume : ℕ → Collector D → Collector D
  unfolding any_signal cut_pending
  consume now c =
      let idle = not (is_unseen c.first_token) || is_empty c.pending in
      let (blocks, left) = cut_pending c.pending in
      record c {
        pending = if idle then c.pending else left;
        first_token = if idle then c.first_token else if any_signal blocks then some now else none;
      }

  -- What a text that was decoded changes
  unfoldable pub see_text : ℕ → Text → Collector D → Collector D
  unfolding consume includes
  see_text now text c =
      let seen = record c {
        pending = if is_event_stream then c.pending ++ text else c.pending;
        has_streaming =
            c.has_streaming || (includes (codes "event: ") text || includes (codes "data: ") text);
      } in
      let consumed = consume now seen in
      record seen {
        pending = if is_event_stream then consumed.pending else seen.pending;
        first_token =
            if is_event_stream
            then consumed.first_token
            else if is_unseen c.first_token && has_signal text
            then some now
            else c.first_token;
      }

  -- `buildObservation`; what the decoder still held changes no other variables than those of the text.
  unfoldable pub build_observation : ℕ → ℕ → Collector D → Observation
  unfolding see_text
  build_observation now clock c =
      let tail = decode_end c.decoder in
      let seen = if is_empty tail then c else see_text now tail c in
      let first_chunk = not_before created_at c.first_chunk in
      record {
        raw_payload = concat c.chunks;
        response_body_bytes = c.total_bytes;
        first_chunk_at = first_chunk;
        first_token_at = not_before created_at (elim seen.first_token [
          | none ↦ if seen.has_streaming then none else c.first_chunk
          | some at ↦ some at
        ]);
        completed_at =
            if c.truncated
            then none
            else not_before (or_else first_chunk created_at) (some (or_else c.completed clock));
        has_streaming_content = seen.has_streaming;
        payload_truncated = c.truncated;
        truncation_reason = c.reason;
      }

  -- `stopObservation`
  unfoldable pub stop : Bool → Option ℕ → ℕ → ℕ → Collector D → Collector D
  unfolding build_observation
  stop mark at now clock c =
      let last = record c {
        truncated = c.truncated || mark;
        completed = elim at [ none ↦ c.completed | some t ↦ some t ];
        stopped = true;
      } in
      if c.stopped
      then c
      else record last { settled = some (resolved (build_observation now clock last)) }

  -- `failObservation`
  unfoldable pub fail : Collector D → Collector D
  fail c = if c.stopped then c else record c { stopped = true; settled = some rejected }

  -- What is kept of a chunk
  unfoldable pub observed_chunk : List ℕ → Collector D → List ℕ
  observed_chunk chunk c =
      if is_event_stream && ltb max_bytes (c.total_bytes + length chunk)
      then take (max_bytes - c.total_bytes) chunk
      else chunk

  -- The chunk and its bytes in the variables
  unfoldable pub keep_chunk : ℕ → List ℕ → Collector D → Collector D
  unfolding observed_chunk
  keep_chunk now chunk c =
      let over = is_event_stream && ltb max_bytes (c.total_bytes + length chunk) in
      let kept = observed_chunk chunk c in
      record c {
        truncated = over || c.truncated;
        reason = if over then some size_limit else c.reason;
        first_chunk =
            if ltb 0 (length kept) then some (or_else c.first_chunk now) else c.first_chunk;
        total_bytes = c.total_bytes + length kept;
        chunks = if ltb 0 (length kept) then c.chunks ++ (kept ∷ []) else c.chunks;
      }

  -- `observeChunkSafely`
  unfoldable pub observe_chunk : ℕ → ℕ → List ℕ → Collector D → Collector D
  unfolding keep_chunk observed_chunk see_text stop
  observe_chunk now clock chunk c =
      let (text, decoder) = decode c.decoder (observed_chunk chunk c) in
      let seen = see_text now text (record (keep_chunk now chunk c) { decoder = decoder }) in
      if c.stopped then c else if seen.truncated then stop true none now clock seen else seen

  -- What happens to a collector: a chunk, the timer, the end of the source, the client's cancelling, an
  -- exception
  pub data ObserverEvent : Type 0 where
    chunk_read : List ℕ → ℕ → ℕ → ObserverEvent
    timer_fired stream_ended cancelled : ℕ → ℕ → ObserverEvent
    stream_failed : ObserverEvent

  unfoldable pub handle : ObserverEvent → Collector D → Collector D
  unfolding observe_chunk stop fail
  handle (chunk_read chunk now clock) c = observe_chunk now clock chunk c
  handle (timer_fired now clock) c =
      stop true none now clock (record c { reason = some duration_limit })
  handle (stream_ended now clock) c = stop false (some now) now clock c
  handle (cancelled now clock) c = stop true none now clock c
  handle stream_failed c = fail c

  unfoldable pub collect : List ObserverEvent → Collector D → Collector D
  unfolding handle
  collect [] c = c
  collect (e ∷ es) c = collect es (handle e c)
