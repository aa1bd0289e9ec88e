-- ===== src/Observer/Guarding.antt =====
-- What holds of a guarded body, whatever the stream, its source, the timer and the client do
use llmrelay_service.Base.{
  Bool, true, false, not, ◌&&◌, List, [], ◌∷◌, ◌++◌, ◌≡◌, refl, ap, ◌∙◌, Text, if◌then◌else◌, arith,
}
use llmrelay_service.Observer.Guard.{
  Signal, sent, ended, source_error, Guard, fresh_guard, pull, receive, close_guard, time_out,
  cancel, GuardStep, pulled, received, source_ended, source_failed, timer_fired, cancelled, Reach,
  here, next,
}

-- The chunks among the signals, the last one first
abbrev pub delivered : List Signal → List Text
delivered [] = []
delivered (sent value ∷ signals) = value ∷ delivered signals
delivered (signal ∷ signals) = delivered signals

abbrev is_sent : Signal → Bool
is_sent (sent value) = true
is_sent signal = false

abbrev all_sent : List Signal → Bool
all_sent [] = true
all_sent (signal ∷ signals) = is_sent signal && all_sent signals

-- Chunks, and behind them at most one other signal
abbrev pub is_ordered : List Signal → Bool
is_ordered [] = true
is_ordered (signal ∷ signals) = all_sent signals

-- The timer runs exactly while an open body waits for its source. What the client got are the first
-- chunks of the source in order, all of them as long as the body is open, and behind them at most
-- one end or error, which only a closed body has.
pub record IsSafe (s : Guard) : Type 0 where
  pub timed : s.armed ≡ (s.reading && not s.closed)
  pub ordered : is_ordered s.signals ≡ true
  pub flowing : s.closed ≡ false → all_sent s.signals ≡ true
  pub late : List Text
  pub in_order : s.read ≡ late ++ delivered s.signals
  pub complete : s.closed ≡ false → late ≡ []

fresh_guard-IsSafe : IsSafe fresh_guard
fresh_guard-IsSafe = record {
  timed = refl;
  ordered = refl;
  flowing = λ h. refl;
  late = [];
  in_order = refl;
  complete = λ h. refl;
}

-- A chunk that comes too late is not sent.
receive-in_order :
    (closed : Bool) (value : Text) (read late : List Text) (signals : List Signal)
    → read ≡ late ++ delivered signals
    → (closed ≡ false → late ≡ [])
    → value ∷ read
      ≡ (if closed then value ∷ late else late)
        ++ delivered (if closed then signals else sent value ∷ signals)
receive-in_order true value read late signals h k = ap (λ l. value ∷ l) h
receive-in_order false value read late signals h k =
    rw (k refl) (ap (λ l. value ∷ l) (h ∙ ap (λ l. l ++ delivered signals) (k refl)))

close_guard-IsSafe :
    (signal : Signal) (s : Guard)
    → ((signals : List Signal) → delivered (signal ∷ signals) ≡ delivered signals)
    → IsSafe s
    → IsSafe (close_guard signal s)
unfolding close_guard
close_guard-IsSafe signal s h v = record {
  timed = ground arith;
  ordered = ground arith;
  flowing = λ e. cc;
  late = v.late;
  in_order = ground (arith, h s.signals);
  complete = λ e. cc;
}

GuardStep-IsSafe : {s t : Guard} → GuardStep s t → IsSafe s → IsSafe t
unfolding pull receive close_guard time_out cancel
GuardStep-IsSafe (pulled s h) v = record {
  timed = ground arith;
  ordered = ground arith;
  flowing = ground arith;
  late = v.late;
  in_order = ground arith;
  complete = ground arith;
}
GuardStep-IsSafe (received s value h) v = record {
  timed = ground arith;
  ordered = ground arith;
  flowing = ground arith;
  late = if s.closed then value ∷ v.late else v.late;
  in_order = receive-in_order s.closed value s.read v.late s.signals v.in_order v.complete;
  complete = ground arith;
}
GuardStep-IsSafe (source_ended s h) v = close_guard-IsSafe ended s (λ signals. refl) v
GuardStep-IsSafe (source_failed s h) v = close_guard-IsSafe source_error s (λ signals. refl) v
GuardStep-IsSafe (timer_fired s h) v = record {
  timed = ground arith;
  ordered = ground arith;
  flowing = ground arith;
  late = v.late;
  in_order = ground arith;
  complete = ground arith;
}
GuardStep-IsSafe (cancelled s) v = record {
  timed = ground arith;
  ordered = ground arith;
  flowing = ground arith;
  late = v.late;
  in_order = ground arith;
  complete = ground arith;
}

-- In every state that a guarded body reaches, the timer runs exactly while an open body waits for its
-- source, and the client got the first chunks of the source in order, all of them while the body is
-- open, with at most one end or error behind them, which only a closed body has.
pub Reach-IsSafe : {s : Guard} → Reach fresh_guard s → IsSafe s
Reach-IsSafe here = fresh_guard-IsSafe
Reach-IsSafe (next r step) = GuardStep-IsSafe step (Reach-IsSafe r)
