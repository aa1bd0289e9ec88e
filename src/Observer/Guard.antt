-- ===== src/Observer/Guard.antt =====
-- `createTimeoutGuardedBody`: a body that fails once its source is silent for too long. The stream, the
-- source, the timer and the client each act when they want, so what happens is a sequence of steps.
use llmrelay_service.Base.{
  ℕ, Bool, true, false, Option, some, List, [], ◌∷◌, ◌≡◌, Text, if◌then◌else◌, ℤ, pos,
}

-- `normalizeIdleTimeoutMs` of whole milliseconds; at 0 the source is passed on as it is.
unfoldable pub normalize_idle_timeout : Option ℤ → ℕ
normalize_idle_timeout (some (pos n)) = n
normalize_idle_timeout _ = 0

-- What the stream hands to the client
pub data Signal : Type 0 where
  sent : Text → Signal
  ended idle_timeout source_error : Signal

-- The variables, with `idleTimer` as `armed`; `reading` while a `pull` waits for the source, `read` what
-- the source gave and `signals` what the controller got, the last one first.
pub record Guard : Type 0 where
  pub closed : Bool
  pub armed : Bool
  pub reading : Bool
  pub source_cancelled : Bool
  pub read : List Text
  pub signals : List Signal

abbrev pub fresh_guard : Guard
fresh_guard = record {
  closed = false;
  armed = false;
  reading = false;
  source_cancelled = false;
  read = [];
  signals = [];
}

-- `pull`, up to its wait
unfoldable pub pull : Guard → Guard
pull s = if s.closed then s else record s { armed = true; reading = true }

-- The rest of `pull`, behind the timer that is cleared: a chunk, the end, and an exception
unfoldable pub receive : Text → Guard → Guard
receive value s = record s {
  armed = false;
  reading = false;
  read = value ∷ s.read;
  signals = if s.closed then s.signals else sent value ∷ s.signals;
}

unfoldable pub close_guard : Signal → Guard → Guard
close_guard signal s = record s {
  closed = true;
  armed = false;
  reading = false;
  signals = if s.closed then s.signals else signal ∷ s.signals;
}

-- The callback of the timer
unfoldable pub time_out : Guard → Guard
time_out s = record s {
  closed = true;
  armed = if s.closed then s.armed else false;
  source_cancelled = if s.closed then s.source_cancelled else true;
  signals = if s.closed then s.signals else idle_timeout ∷ s.signals;
}

-- `cancel`
unfoldable pub cancel : Guard → Guard
cancel s = record s { closed = true; armed = false; source_cancelled = true }

-- What can happen: a `pull` is called only behind the last one.
pub data GuardStep : Guard → Guard → Type 0 where
  pulled : (s : Guard) → s.reading ≡ false → GuardStep s (pull s)
  received : (s : Guard) (value : Text) → s.reading ≡ true → GuardStep s (receive value s)
  source_ended : (s : Guard) → s.reading ≡ true → GuardStep s (close_guard ended s)
  source_failed : (s : Guard) → s.reading ≡ true → GuardStep s (close_guard source_error s)
  timer_fired : (s : Guard) → s.armed ≡ true → GuardStep s (time_out s)
  cancelled : (s : Guard) → GuardStep s (cancel s)

pub data Reach (s : Guard) : Guard → Type 0 where
  here : Reach s s
  next : {t u : Guard} → Reach s t → GuardStep t u → Reach s u
