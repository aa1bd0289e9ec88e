-- ===== src/Observer/Tests.antt =====
-- Bodies with the name of a model, a guarded body and an observed one, and the properties at them.
use llmrelay_service.Base.{
  ℕ, Bool, true, ◌||◌, List, [], ◌∷◌, ◌++◌, if◌then◌else◌, ◌≡◌, refl, none, some, Text, codes,
  length, is_empty, ◌==◌, list_eq, nat_eq, list_beq, concat, replicate,
}
use llmrelay_service.Observer.Guard.{
  sent, idle_timeout, Guard, fresh_guard, pull, receive, time_out, pulled, received, Reach, here,
  next,
}
use llmrelay_service.Observer.Guarding.{IsSafe, Reach-IsSafe}
use llmrelay_service.Observer.Collector.{
  size_limit, Observation, resolved, ObserverEvent, chunk_read, stream_ended, fresh_collector,
  collect,
}
use llmrelay_service.Observer.Collecting.Faithful.{IsFaithful}
use llmrelay_service.Observer.Collecting.{passed_bytes, collect-IsFaithful}
use llmrelay_service.Observer.Rewrite.{replace, rewrite_body}
use llmrelay_service.Observer.Rewriting.{has_field, rewrite_body_unchanged}
use llmrelay_service.Observer.Uncut.{uncut_pump, rewrite_body-replace}

abbrev field : Text
field = codes "{\"model\": \"gpt-4o\"}"

abbrev renamed : Text
renamed = codes "{\"model\": \"fast\"}"

replaces : replace (codes "gpt-4o") (codes "fast") field ≡ renamed
unfolding replace
replaces = refl

-- A field that the end of what is sent cuts in two reaches the client with the upstream's name.
abbrev long_body : Text
long_body = field ++ replicate 54 b' '

leaks : concat (rewrite_body length (codes "gpt-4o") (codes "fast") (long_body ∷ []) []) ≡ long_body
unfolding rewrite_body list_beq
leaks = refl

-- The cut can part the two code units of one character, which the encoder gets in two texts.
abbrev smile : Text
smile = 0xd83d ∷ 0xde00 ∷ []

parts_character :
    rewrite_body length (codes "gpt-4o") (codes "fast") ((smile ++ replicate 63 b' ') ∷ []) []
    ≡ (0xd83d ∷ []) ∷ (0xde00 ∷ replicate 63 b' ') ∷ []
unfolding rewrite_body list_beq
parts_character = refl

rewrite_body_unchanged_example :
    concat (
      rewrite_body length
        (codes "gpt-4o")
        (codes "fast")
        (renamed ∷ codes "gpt-4o" ∷ [])
        (codes "!"))
    ≡ concat (renamed ∷ codes "gpt-4o" ∷ []) ++ codes "!"
unfolding has_field list_beq
rewrite_body_unchanged_example =
    rewrite_body_unchanged length (codes "gpt-4o") (codes "fast") (renamed ∷ codes "gpt-4o" ∷ [])
      (codes "!") refl

-- Two chunks, of which the second starts in the field, and of which a part is sent with the second one
abbrev padded : List Text
padded = codes "{\"mod" ∷ (codes "el\": \"gpt-4o\"}" ++ replicate 80 b' ') ∷ []

rewrite_body-replace_example :
    concat (rewrite_body length (codes "gpt-4o") (codes "fast") padded []) ≡ (
      if is_empty (codes "gpt-4o") || codes "gpt-4o" == codes "fast"
      then concat padded ++ []
      else replace (codes "gpt-4o") (codes "fast") (concat padded ++ []))
unfolding uncut_pump list_beq
rewrite_body-replace_example =
    rewrite_body-replace length (codes "gpt-4o") (codes "fast") padded [] refl

abbrev waiting : Guard
waiting = pull (receive (codes "a") (pull fresh_guard))

waiting-Reach : Reach fresh_guard waiting
unfolding pull receive
waiting-Reach =
    next (next (next here (pulled fresh_guard refl)) (received (pull fresh_guard) (codes "a") refl))
      (pulled (receive (codes "a") (pull fresh_guard)) refl)

silent : (time_out waiting).signals ≡ idle_timeout ∷ sent (codes "a") ∷ []
unfolding pull receive time_out
silent = refl

Reach-IsSafe_example : IsSafe waiting
Reach-IsSafe_example = Reach-IsSafe waiting-Reach

abbrev decode_ascii : ℕ → List ℕ → Text × ℕ
decode_ascii state bytes = (bytes, state)

abbrev nothing_left : ℕ → Text
nothing_left state = []

abbrev has_text : Text → Bool
has_text text = true

abbrev events : List (ObserverEvent decode_ascii nothing_left 0 has_text true 5 100)
events =
    chunk_read (codes "abc") 110 111
    ∷ chunk_read (codes "\n\nd") 120 121
    ∷ stream_ended 130 131
    ∷ []

-- The second chunk passes the limit of five bytes; the first event ends in it.
abbrev observation : Observation
observation = record {
  raw_payload = codes "abc\n\n";
  response_body_bytes = 5;
  first_chunk_at = some 110;
  first_token_at = some 120;
  completed_at = none;
  has_streaming_content = true;
  payload_truncated = true;
  truncation_reason = some size_limit;
}

observes :
    (collect decode_ascii nothing_left 0 has_text true 5 100 events
      (fresh_collector decode_ascii nothing_left 0 has_text true 5 100)).settled
    ≡ some (resolved observation)
unfolding collect list_beq
observes = refl

collect-IsFaithful_example :
    IsFaithful true 5 100
      (passed_bytes decode_ascii nothing_left 0 has_text true 5 100 events
        (fresh_collector decode_ascii nothing_left 0 has_text true 5 100))
      observation
collect-IsFaithful_example =
    collect-IsFaithful decode_ascii nothing_left 0 has_text true 5 100 events observation observes
