-- ===== src/Gateway/State.antt =====
-- The state of the loop of `handleProxyRequest` and what it meets.
use llmrelay_service.Base.{ℕ, Bool, Option, List, Text, list_eq, nat_eq, ℤ}
use llmrelay_service.Routing.Types.{RouteResult}
use llmrelay_service.Cooldown.{Entries}
use llmrelay_service.Failover.{Policy, Trigger}
use llmrelay_service.Request.Errors.{CompatError}
use llmrelay_service.Gateway.Attempts.{Request}

-- What `proxy` does: it answers with a status and its `Retry-After`, or throws.
pub data Outcome : Type 0 where
  responded : ℕ → Option Text → Outcome
  timed_out : Outcome
  -- the message of the error
  unreachable : Text → Outcome

-- The answer to the client
pub data Answer : Type 0 where
  -- the gateway's own error, of a route
  answered_locally : RouteResult → CompatError → Answer
  -- 429 for a route with the time that is left of its pause
  cooling_down : RouteResult → ℕ → Answer
  -- 504 and 502 for a route: the number of attempts on it, and the message
  gateway_timeout : RouteResult → ℕ → Answer
  bad_gateway : RouteResult → Text → Answer
  -- the upstream's answer of a route: its status, its `Retry-After`, and if it is converted back
  passed_on : RouteResult → ℕ → Option Text → Bool → Answer
  -- the answer behind the loop, 504 or 502
  no_route : ℕ → Answer
  -- an exception
  crashed : Answer

-- What is the same for all attempts. `fallbacks` are the routes that `buildFallbackRoutes` resolves
-- at a time, in its order, where resolving them does not throw: the configuration may change between
-- two attempts. `requested_model` is the model of the body or the empty text.
pub record Setting : Type 0 where
  pub request : Request
  pub policy : Policy
  pub requested_model : Text
  pub initial_route : RouteResult
  pub is_explicit : Bool
  pub fallbacks : ℕ → List RouteResult
  pub number_text : ℤ → Text
  pub date_parse : Text → Option ℤ

-- What the world does at a moment
pub record World : Type 0 where
  pub interfere : ℕ → Entries → Entries
  pub now : ℕ → ℕ
  pub random : ℕ → ℕ
  pub upstream : ℕ → RouteResult → Outcome

-- An argument of `saveRequestLogForAttempt`, of the fields that the loop sets
pub record SavedAttempt : Type 0 where
  pub route : RouteResult
  pub is_fallback : Bool
  pub failover_chain : List Text
  pub failover_reason : Option Text
  pub retry_attempt : ℕ

-- The variables of the loop. `asked` are the routes whose upstream was asked, the last one first;
-- `saved` the attempts that were saved, the last one first.
pub record Loop : Type 0 where
  pub active_routes : List RouteResult
  pub active_route_index : ℕ
  pub retry_index : ℕ
  pub fallback_attempts : ℕ
  pub attempted_keys : List Text
  pub failed_chain : List Text
  pub failover_reason : Option Text
  pub last_trigger : Option Trigger
  pub initial_status : Option ℕ
  pub entries : Entries
  pub saved : List SavedAttempt
  pub asked : List RouteResult

pub data Progress : Type 0 where
  next : Loop → Progress
  finished : Answer → Loop → Progress
