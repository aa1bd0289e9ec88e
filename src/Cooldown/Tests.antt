-- ===== src/Cooldown/Tests.antt =====
-- Runs of the pauses on concrete channels.

use llmrelay_service.Base.{
  ◌+◌, ◌-◌, ◌≤◌, ◌≡◌, ◌≢◌, refl, true, [], ◌∷◌, Text, codes, Option, none, some, ℤ, lookup, list_eq,
  nat_eq, if◌then◌else◌, leb, ltb, ◌^◌, All, IsSorted, contains,
}
use llmrelay_service.Cooldown.{
  Entries, key, parse_key, parse_retry_after_ms, record_rate_limit_429, get_remaining_ms,
  jittered_ms, clear_cooldowns, list_cooldowns,
}
use llmrelay_service.Cooldown.Keys.{parse_key-key}
use llmrelay_service.Cooldown.Backoff.{record-get_remaining}
use llmrelay_service.Cooldown.Clearing.{
  Clears, clear_cooldowns-Clears, list_cooldowns-IsSorted, IsRunning,
}

abbrev main_channel : Text
main_channel = codes "main"

abbrev gpt : Text
gpt = codes "gpt"

abbrev no_dates : Text → Option ℤ
no_dates t = none

abbrev some_entries : Entries
some_entries =
    (codes "main", record { consecutive_429s = 2; cooldown_ms = 60000; expires_at = 90000 })
    ∷ (codes "side", record { consecutive_429s = 1; cooldown_ms = 30000; expires_at = 40000 })
    ∷ []

retry_after-seconds : parse_retry_after_ms no_dates (some (codes " 7 ")) 0 ≡ some 7000
unfolding parse_retry_after_ms
retry_after-seconds = refl

parse_key-key_example : parse_key (key main_channel gpt) ≡ (main_channel, gpt)
unfolding contains
parse_key-key_example = parse_key-key main_channel gpt refl

record-get_remaining_example :
    let (after, cooldown) =
      record_rate_limit_429 no_dates some_entries main_channel gpt (some (codes "7")) true 1000 5 in
    (1000 ≤ cooldown)
    × (cooldown ≤ 300000)
    × ((get_remaining_ms after main_channel gpt true 2000).1
        ≡ (if leb (1000 + cooldown) 2000 then none else some (1000 + cooldown - 2000)))
    × (key main_channel gpt ≢ key (codes "side") gpt
        → (get_remaining_ms after (codes "side") gpt true 2000).1
          ≡ (get_remaining_ms some_entries (codes "side") gpt true 2000).1)
record-get_remaining_example =
    record-get_remaining no_dates some_entries main_channel gpt (some (codes "7")) 1000 5 2000
      (codes "side") gpt

-- The sum of the doubles 0.8 and 0.4 is above 1.2, so the longest pause is a millisecond longer.
longest_pause : jittered_ms 30000 (2 ^ 53) ≡ 36001
unfolding jittered_ms
longest_pause = refl

abbrev two_models : Entries
two_models =
    (key main_channel gpt, record { consecutive_429s = 2; cooldown_ms = 60000; expires_at = 90000 })
    ∷ (
      key main_channel (codes "o1"),
      record { consecutive_429s = 1; cooldown_ms = 30000; expires_at = 40000 },
    )
    ∷ []

clear_cooldowns-Clears_example :
    Clears
      (some main_channel)
      (some gpt)
      main_channel
      (codes "o1")
      (lookup (key main_channel (codes "o1")) two_models)
      (lookup
        (key main_channel (codes "o1"))
        (clear_cooldowns (some main_channel) (some gpt) two_models).0)
unfolding contains
clear_cooldowns-Clears_example =
    clear_cooldowns-Clears (some main_channel) (some gpt) two_models main_channel (codes "o1") refl

list_cooldowns-IsSorted_example :
    IsSorted (λ a b. ltb a.expires_at b.expires_at) (list_cooldowns some_entries 35000)
    × All (IsRunning 35000) (list_cooldowns some_entries 35000)
list_cooldowns-IsSorted_example = list_cooldowns-IsSorted some_entries 35000
