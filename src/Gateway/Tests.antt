-- ===== src/Gateway/Tests.antt =====
-- A request with two fallback routes, runs of the loop on it, and the properties at it.
use llmrelay_service.Base.{
  ℕ, suc, ◌≤◌, ◌<◌, ◌+◌, ◌*◌, subst, sym, arith, true, false, Option, none, some, List, [], ◌∷◌,
  ◌≡◌, refl, Text, codes, list_beq, list_eq, nat_eq, take, All, In, obj, end, done, contains, map,
  ◌==◌, if◌then◌else◌,
}
use llmrelay_service.Routing.Types.{openai, RouteResult}
use llmrelay_service.Failover.{Policy, default_policy, should_trigger_failover}
use llmrelay_service.Gateway.Attempts.{Request, build_attempt}
use llmrelay_service.Gateway.State.{
  responded, timed_out, Answer, passed_on, gateway_timeout, Setting, World, Loop,
}
use llmrelay_service.Gateway.Fallbacks.{cooldown_enabled}
use llmrelay_service.Gateway.Loop.{run}
use llmrelay_service.Gateway.Moves.{all_attempts}
use llmrelay_service.Gateway.Bounds.{Ends, run-Ends}
use llmrelay_service.Gateway.Queue.{run-OfFirstTwo}
use llmrelay_service.Gateway.Retries.{IsRetried, late, run-passed_on}

abbrev route_to : Text → RouteResult
route_to channel = record {
  channel_name = channel;
  type = openai;
  target_url = channel;
  system_prompt = none;
  auth = none;
  claude_code_compat = false;
  responses_mode = none;
  resolved_model = none;
  upstream_request_model = none;
  virtual_model = none;
  return_real_model = none;
}

-- The code's default policy with 408 as the only status that is listed
abbrev no_pauses : Policy
no_pauses = record default_policy { retry_on_status_codes = 408 ∷ []; retry_attempts = 0 }

abbrev sample_request : Request
sample_request = record {
  is_post = true;
  lookup_pathname = codes "/v1/chat/completions";
  payload = some (codes "{}");
  summary_model = none;
  original_model = codes "gpt";
  prepare = λ route raw. (some raw, codes "gpt");
  parse = λ raw. some (obj end);
  runtime = record {
    number_text = λ n. codes "1";
    to_string = λ v. done (codes "text");
    stringify = λ v. codes "{}";
    hostname = λ url. none;
  };
  urls = record {
    pathname = λ url. some (codes "/v1/chat/completions");
    with_pathname = λ url path. url;
  };
}

abbrev with_policy : Policy → Setting
with_policy policy = record {
  request = sample_request;
  policy = policy;
  requested_model = codes "gpt";
  initial_route = route_to (codes "a");
  is_explicit = false;
  fallbacks = λ now. route_to (codes "a") ∷ route_to (codes "b") ∷ route_to (codes "c") ∷ [];
  number_text = λ n. codes "1";
  date_parse = λ t. none;
}

abbrev all_time_out : World
all_time_out = record {
  interfere = λ moment entries. entries;
  now = λ moment. moment;
  random = λ moment. 0;
  upstream = λ moment route. timed_out;
}

-- Only the third channel works.
abbrev only_c_works : World
only_c_works = record all_time_out {
  upstream = λ moment (route : RouteResult).
      if route.channel_name == codes "c" then responded 200 none else timed_out;
}

abbrev asked_channels : Option (Answer × Loop) → List Text
asked_channels none = []
asked_channels (some (answer, s)) = map (λ (r : RouteResult). r.channel_name) s.asked

abbrev active_channels : Option (Answer × Loop) → List Text
active_channels none = []
active_channels (some (answer, s)) = map (λ (r : RouteResult). r.channel_name) s.active_routes

abbrev answer_of : Option (Answer × Loop) → Option Answer
answer_of none = none
answer_of (some (answer, s)) = some answer

-- With the two fallback attempts of the default policy, both other channels are queued, but the
-- loop answers with the timeout of the second one and never asks the third, which works.
queued :
    active_channels (run (with_policy no_pauses) only_c_works 5 [])
    ≡ codes "a" ∷ codes "b" ∷ codes "c" ∷ []
unfolding run list_beq
queued = refl

unasked :
    asked_channels (run (with_policy no_pauses) only_c_works 5 []) ≡ codes "b" ∷ codes "a" ∷ []
unfolding run list_beq
unasked = refl

given_up :
    answer_of (run (with_policy no_pauses) only_c_works 5 [])
    ≡ some (gateway_timeout (route_to (codes "b")) 1)
unfolding run list_beq
given_up = refl

run-Ends_example :
    Ends
      (with_policy default_policy)
      all_time_out
      (run (with_policy default_policy) all_time_out (suc (all_attempts 2 1)) [])
run-Ends_example = run-Ends (with_policy default_policy) all_time_out []

no_pauses_lem : cooldown_enabled no_pauses ≡ false
unfolding cooldown_enabled contains
no_pauses_lem = refl

run-OfFirstTwo_example :
    (answer : Answer) × ((s : Loop) × ((run
            (with_policy no_pauses)
            only_c_works
            (suc (all_attempts 2 0))
            []
          ≡ some (answer, s))
        × ((s.active_route_index ≤ 1) × All (λ r. In r (take 2 s.active_routes)) s.asked)))
run-OfFirstTwo_example =
    run-OfFirstTwo (with_policy no_pauses) no_pauses_lem (λ m n. refl) only_c_works []

abbrev one_retry : Policy
one_retry = record no_pauses { retry_attempts = 1 }

-- The first request times out.
abbrev late_once : World
late_once = record all_time_out {
  upstream = λ moment route. if moment == 1 then timed_out else responded 200 none;
}

one_retry_lem : cooldown_enabled one_retry ≡ false
unfolding cooldown_enabled contains
one_retry_lem = refl

late_first :
    (i : ℕ)
    → i < 1
    → IsRetried (with_policy one_retry) (if 2 * i + 1 == 1 then timed_out else responded 200 none)
unfolding should_trigger_failover
late_first i h =
    subst
      (λ k.
        IsRetried (with_policy one_retry)
          (if 2 * k + 1 == 1 then timed_out else responded 200 none))
      (sym (only_zero i h)) (late refl)
  where
    only_zero : (i : ℕ) → i < 1 → i ≡ 0
    only_zero i h = omega arith

run-passed_on_example :
    (header : Option Text) × ((s : Loop) × (run
          (with_policy one_retry)
          late_once
          (suc (all_attempts 2 1))
          []
        ≡ some (passed_on (route_to (codes "a")) 200 header false, s)))
unfolding build_attempt should_trigger_failover list_beq
run-passed_on_example =
    run-passed_on (with_policy one_retry) late_once [] (some (codes "{}")) (codes "gpt") (codes "a")
      false 1 200 none one_retry_lem refl (omega arith) late_first refl refl
