-- ===== src/Observer/Collecting.antt =====
-- What the log keeps of a body, whatever happens to it
mod Chunks
pub mod Faithful
use llmrelay_service.Base.{
  ℕ, zero, suc, ◌+◌, ◌-◌, ◌≤◌, max, Bool, true, false, ◌&&◌, ◌||◌, Option, none, some, List, [],
  ◌∷◌, ◌++◌, if◌then◌else◌, ◌≡◌, refl, sym, ap, subst, ◌∙◌, inl, inr, Text, length, length-append,
  length-take, append_assoc, append-nil, take, concat, or_else, ltb, Bool-cases, if_true, if_false,
  arith,
}
use llmrelay_service.Observer.Collector.{
  Observation, Settled, resolved, Collector, fresh_collector, see_text, not_before,
  build_observation, stop, fail, observed_chunk, keep_chunk, observe_chunk, ObserverEvent,
  chunk_read, timer_fired, stream_ended, cancelled, stream_failed, handle, collect,
}
use llmrelay_service.Observer.Collecting.Chunks.{
  concat_last, take_all, take-take_lem, kept_chunks, kept_beginning, all_taken,
}
use llmrelay_service.Observer.Collecting.Faithful.{IsFaithful, IsKept, build-IsFaithful}

module _ {D : Type 0} (decode : D → List ℕ → Text × D) (decode_end : D → Text) (start : D)
    (has_signal : Text → Bool) (is_event_stream : Bool) (max_bytes created_at : ℕ) where
  abbrev pub Happening : Type 0
  Happening = ObserverEvent decode decode_end start has_signal is_event_stream max_bytes created_at

  abbrev pub fresh : Collector D
  fresh = fresh_collector decode decode_end start has_signal is_event_stream max_bytes created_at

  abbrev pub handles : Happening → Collector D → Collector D
  handles = handle decode decode_end start has_signal is_event_stream max_bytes created_at

  abbrev pub collects : List Happening → Collector D → Collector D
  collects = collect decode decode_end start has_signal is_event_stream max_bytes created_at

  -- A collection that runs has every byte that passed; one that stopped settled on what it had.
  pub data IsSound (passed : List ℕ) (c : Collector D) : Type 0 where
    runs :
        c.stopped ≡ false
        → c.settled ≡ none
        → c.truncated ≡ false
        → concat c.chunks ≡ passed
        → c.total_bytes ≡ length passed
        → (is_event_stream ≡ true → c.total_bytes ≤ max_bytes)
        → IsSound passed c
    stopped :
        c.stopped ≡ true
        → ((o : Observation)
            → c.settled ≡ some (resolved o)
            → IsFaithful is_event_stream max_bytes created_at passed o)
        → IsSound passed c

  resolved_injective :
      {o p : Observation} → ◌≡◌ {A = Option Settled} (some (resolved o)) (some (resolved p)) → o ≡ p
  resolved_injective h = cc

  stop-IsSound :
      (mark : Bool) (at : Option ℕ) (now clock : ℕ) (passed : List ℕ) (c : Collector D)
      → c.stopped ≡ false
      → concat c.chunks ≡ take c.total_bytes passed
      → (is_event_stream ≡ true → c.total_bytes ≤ max_bytes)
      → ((c.truncated || mark) ≡ false → concat c.chunks ≡ passed)
      → IsSound passed (
          stop decode decode_end start has_signal is_event_stream max_bytes created_at mark at now
            clock c)
  unfolding stop
  stop-IsSound mark at now clock passed c open_yet beginning bounded whole = rw open_yet (
      stopped refl (λ o e.
        subst (IsFaithful is_event_stream max_bytes created_at passed) (resolved_injective e) (
          build-IsFaithful decode decode_end start has_signal is_event_stream max_bytes created_at
            now clock passed _
            (record { beginning = beginning; bounded = bounded; whole = whole }))))

  -- The bytes of an event, which pass a collector that runs
  unfoldable pub passing : Happening → Collector D → List ℕ
  passing (chunk_read chunk now clock) c = if c.stopped then [] else chunk
  passing e c = []

  -- The variables that the bytes are in
  record HasBytes (passed : List ℕ) (c : Collector D) : Type 0 where
    running : c.stopped ≡ false
    unsettled : c.settled ≡ none
    beginning : concat c.chunks ≡ take c.total_bytes passed
    bounded : is_event_stream ≡ true → c.total_bytes ≤ max_bytes
    whole : c.truncated ≡ false → (concat c.chunks ≡ passed) × (c.total_bytes ≡ length passed)

  see_text-HasBytes :
      (now : ℕ) (text : Text) (state : D) (passed : List ℕ) (c : Collector D)
      → HasBytes passed c
      → HasBytes passed (
          see_text decode decode_end start has_signal is_event_stream max_bytes created_at now text
            (record c { decoder = state }))
  unfolding see_text
  see_text-HasBytes now text state passed c v = record {
    running = v.running;
    unsettled = v.unsettled;
    beginning = v.beginning;
    bounded = v.bounded;
    whole = v.whole;
  }

  -- Behind a chunk, a collection that is truncated stops.
  stop_truncated :
      (now clock : ℕ) (passed : List ℕ) (c : Collector D)
      → HasBytes passed c
      → IsSound passed (
          if c.truncated
          then stop decode decode_end start has_signal is_event_stream max_bytes created_at true
              none now clock c
          else c)
  stop_truncated now clock passed c v = elim (Bool-cases c.truncated) [
    | inl cut ↦ subst (IsSound passed) (sym (if_true c.truncated _ _ cut)) (
        stop-IsSound true none now clock passed c v.running v.beginning v.bounded
          (λ h. absurd (or_true c.truncated h)))
    | inr all ↦
        subst (IsSound passed) (sym (if_false c.truncated _ _ all))
          (runs v.running v.unsettled all (v.whole all).0 (v.whole all).1 v.bounded)
  ]
    where
      or_true : (b : Bool) → ¬ ((b || true) ≡ false)
      or_true true h = cc
      or_true false h = cc

  keep_chunk-HasBytes :
      (now : ℕ) (passed chunk : List ℕ) (c : Collector D)
      → c.stopped ≡ false
      → c.settled ≡ none
      → c.truncated ≡ false
      → concat c.chunks ≡ passed
      → c.total_bytes ≡ length passed
      → (is_event_stream ≡ true → c.total_bytes ≤ max_bytes)
      → HasBytes (passed ++ chunk) (
          keep_chunk decode decode_end start has_signal is_event_stream max_bytes created_at now
            chunk c)
  unfolding keep_chunk observed_chunk
  keep_chunk-HasBytes now passed chunk c open_yet unsettled all kept counted bounded =
      elim (Bool-cases (is_event_stream && ltb max_bytes (c.total_bytes + length chunk))) [
        | inl over ↦ rw over (record {
          running = open_yet;
          unsettled = unsettled;
          beginning =
              kept_beginning c.chunks c.total_bytes passed chunk
                (take (max_bytes - c.total_bytes) chunk) kept counted
                (sym (take-take_lem (max_bytes - c.total_bytes) chunk));
          bounded = λ h. omega (arith, length-take (max_bytes - c.total_bytes) chunk, bounded h);
          whole = λ h. cc;
        })
        | inr under ↦ rw under (record {
          running = open_yet;
          unsettled = unsettled;
          beginning =
              kept_beginning c.chunks c.total_bytes passed chunk chunk kept counted
                (sym (take_all chunk));
          bounded = λ h. fits under h;
          whole = λ h. (
            kept_chunks c.chunks chunk ∙ ap (λ l. l ++ chunk) kept,
            omega (arith, length-append passed chunk, counted),
          );
        })
      ]
    where
      fits :
          (is_event_stream && ltb max_bytes (c.total_bytes + length chunk)) ≡ false
          → is_event_stream ≡ true
          → c.total_bytes + length chunk ≤ max_bytes
      fits under h = ground (arith, under, h)

  unchanged :
      (b : Bool) (passed more : List ℕ) (c d : Collector D)
      → b ≡ true
      → more ≡ []
      → IsSound passed c
      → IsSound (passed ++ more) (if b then c else d)
  unchanged true passed more c d h e v = rw (e, append-nil passed) v
  unchanged false passed more c d h e v = cc

  changed :
      (b : Bool) (passed chunk : List ℕ) (c d : Collector D)
      → b ≡ false
      → IsSound (passed ++ chunk) d
      → IsSound (passed ++ (if b then [] else chunk)) (if b then c else d)
  changed true passed chunk c d h v = cc
  changed false passed chunk c d h v = v

  -- A stopped collection stays as it is, but for the reason that the timer notes.
  keeps_IsSound :
      (e : Happening) (passed : List ℕ) (c : Collector D)
      → c.stopped ≡ true
      → ((o : Observation)
          → c.settled ≡ some (resolved o)
          → IsFaithful is_event_stream max_bytes created_at passed o)
      → IsSound (passed ++ passing e c) (handles e c)
  unfolding handle observe_chunk stop fail passing
  keeps_IsSound (chunk_read chunk now clock) passed c h k =
      unchanged c.stopped passed _ c _ h (rw h refl) (stopped h k)
  keeps_IsSound (timer_fired now clock) passed c h k =
      unchanged c.stopped passed [] _ _ h refl (stopped h k)
  keeps_IsSound (stream_ended now clock) passed c h k =
      unchanged c.stopped passed [] c _ h refl (stopped h k)
  keeps_IsSound (cancelled now clock) passed c h k =
      unchanged c.stopped passed [] c _ h refl (stopped h k)
  keeps_IsSound stream_failed passed c h k = unchanged c.stopped passed [] c _ h refl (stopped h k)

  chunk-IsSound :
      (passed chunk : List ℕ) (now clock : ℕ) (c : Collector D)
      → c.stopped ≡ false
      → HasBytes (passed ++ chunk) (
          keep_chunk decode decode_end start has_signal is_event_stream max_bytes created_at now
            chunk c)
      → IsSound (passed ++ (if c.stopped then [] else chunk)) (
          observe_chunk decode decode_end start has_signal is_event_stream max_bytes created_at now
            clock chunk c)
  unfolding observe_chunk
  chunk-IsSound passed chunk now clock c r v =
      let got = decode c.decoder (
        observed_chunk decode decode_end start has_signal is_event_stream max_bytes created_at chunk
          c) in
      changed c.stopped passed chunk c _ r (
        stop_truncated now clock (passed ++ chunk) _
          (see_text-HasBytes now got.0 got.1 (passed ++ chunk) _ v))

  fail-IsSound :
      (passed : List ℕ) (c : Collector D)
      → c.stopped ≡ false
      → IsSound passed
          (fail decode decode_end start has_signal is_event_stream max_bytes created_at c)
  unfolding fail
  fail-IsSound passed c r = rw r (stopped refl (λ o e. cc))

  handle-IsSound :
      (e : Happening) (passed : List ℕ) (c : Collector D)
      → IsSound passed c
      → IsSound (passed ++ passing e c) (handles e c)
  unfolding handle passing
  handle-IsSound e passed c (stopped h k) = keeps_IsSound e passed c h k
  handle-IsSound (chunk_read chunk now clock) passed c (runs r u t k n b) =
      chunk-IsSound passed chunk now clock c r (keep_chunk-HasBytes now passed chunk c r u t k n b)
  handle-IsSound (timer_fired now clock) passed c (runs r u t k n b) =
      rw (append-nil passed)
        (stop-IsSound true none now clock passed _ r (all_taken _ _ _ k n) b (λ _. k))
  handle-IsSound (stream_ended now clock) passed c (runs r u t k n b) =
      rw (append-nil passed)
        (stop-IsSound false (some now) now clock passed c r (all_taken _ _ _ k n) b (λ _. k))
  handle-IsSound (cancelled now clock) passed c (runs r u t k n b) =
      rw (append-nil passed)
        (stop-IsSound true none now clock passed c r (all_taken _ _ _ k n) b (λ _. k))
  handle-IsSound stream_failed passed c (runs r u t k n b) =
      rw (append-nil passed) (fail-IsSound passed c r)

  -- The bytes that pass a collector while it runs
  unfoldable pub passed_bytes : List Happening → Collector D → List ℕ
  unfolding passing handle
  passed_bytes [] c = []
  passed_bytes (e ∷ es) c = passing e c ++ passed_bytes es (handles e c)

  collect-IsSound :
      (es : List Happening) (passed : List ℕ) (c : Collector D)
      → IsSound passed c
      → IsSound (passed ++ passed_bytes es c) (collects es c)
  unfolding collect passed_bytes
  collect-IsSound [] passed c v = rw (append-nil passed) v
  collect-IsSound (e ∷ es) passed c v =
      subst (λ p. IsSound p (collects es (handles e c))) (append_assoc passed (passing e c) _)
        (collect-IsSound es (passed ++ passing e c) _ (handle-IsSound e passed c v))

  -- Whatever happens to a body, an observation of it holds the first bytes that passed, no more than
  -- the limit of an event stream, and all of them unless it says that it was truncated. Its times are
  -- not before the request, and its end is not before its first chunk, with none if it was truncated.
  pub collect-IsFaithful :
      (es : List Happening) (o : Observation)
      → (collects es fresh).settled ≡ some (resolved o)
      → IsFaithful is_event_stream max_bytes created_at (passed_bytes es fresh) o
  collect-IsFaithful es o e =
      of_sound (collect-IsSound es [] _ (runs refl refl refl refl refl (λ h. omega arith))) e
    where
      of_sound :
          {passed : List ℕ} {c : Collector D}
          → IsSound passed c
          → c.settled ≡ some (resolved o)
          → IsFaithful is_event_stream max_bytes created_at passed o
      of_sound (runs r u t k n b) e = cc
      of_sound (stopped h k) e = k o e
