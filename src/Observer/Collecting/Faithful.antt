-- ===== src/Observer/Collecting/Faithful.antt =====
-- What an observation says of the bytes that passed, and that it is built of variables that hold them
use llmrelay_service.Base.{
  ℕ, ◌≤◌, max, Bool, true, false, Option, none, some, List, if◌then◌else◌, ◌≡◌, refl, Text, take,
  concat, or_else, arith,
}
use llmrelay_service.Observer.Collector.{Observation, Collector, not_before, build_observation}

abbrev pub IsNotBefore : ℕ → Option ℕ → Type 0
IsNotBefore n none = Unit
IsNotBefore n (some t) = n ≤ t

module _ (is_event_stream : Bool) (max_bytes created_at : ℕ) where
  -- What an observation says of the bytes that passed
  pub record IsFaithful (passed : List ℕ) (o : Observation) : Type 0 where
    pub beginning : o.raw_payload ≡ take o.response_body_bytes passed
    pub bounded : is_event_stream ≡ true → o.response_body_bytes ≤ max_bytes
    pub whole : o.payload_truncated ≡ false → o.raw_payload ≡ passed
    pub started : IsNotBefore created_at o.first_chunk_at
    pub token : IsNotBefore created_at o.first_token_at
    pub ended : IsNotBefore (or_else o.first_chunk_at created_at) o.completed_at
    pub unended : o.payload_truncated ≡ true → o.completed_at ≡ none

  -- What the variables hold of them
  pub record IsKept {D : Type 0} (passed : List ℕ) (c : Collector D) : Type 0 where
    pub beginning : concat c.chunks ≡ take c.total_bytes passed
    pub bounded : is_event_stream ≡ true → c.total_bytes ≤ max_bytes
    pub whole : c.truncated ≡ false → concat c.chunks ≡ passed

not_before_lem : (n : ℕ) (at : Option ℕ) → IsNotBefore n (not_before n at)
not_before_lem n none = tt
not_before_lem n (some t) = omega arith

ended_lem :
    (truncated : Bool) (least : ℕ) (at : ℕ)
    → IsNotBefore least (if truncated then none else some (max least at))
ended_lem true least at = tt
ended_lem false least at = omega arith

module _ {D : Type 0} (decode : D → List ℕ → Text × D) (decode_end : D → Text) (start : D)
    (has_signal : Text → Bool) (is_event_stream : Bool) (max_bytes created_at : ℕ) where
  pub build-IsFaithful :
      (now clock : ℕ) (passed : List ℕ) (c : Collector D)
      → IsKept is_event_stream max_bytes created_at passed c
      → IsFaithful is_event_stream max_bytes created_at passed (
          build_observation decode decode_end start has_signal is_event_stream max_bytes created_at
            now clock c)
  unfolding build_observation
  build-IsFaithful now clock passed c v = record {
    beginning = v.beginning;
    bounded = v.bounded;
    whole = v.whole;
    started = not_before_lem created_at c.first_chunk;
    token = not_before_lem created_at _;
    ended = ended_lem c.truncated _ _;
    unended = λ h. rw h refl;
  }
