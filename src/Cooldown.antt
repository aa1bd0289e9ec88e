-- ===== src/Cooldown.antt =====
-- src/rate-limit-cooldown.ts: the pause of a channel and model after the upstream's HTTP 429.
-- Times are whole milliseconds. `date_parse` is `Date.parse`, with `none` for `NaN`. `random` is the
-- numerator of what `Math.random` returns over 2 ^ 53. The sum and the products of the
-- jitter are rounded to doubles.
pub mod Doubles
pub mod Keys
pub mod Backoff
pub mod Clearing
pub mod Tests
use llmrelay_service.Base.{
  ℕ, zero, suc, ◌+◌, ◌-◌, ◌*◌, ◌/◌, ◌^◌, min, max, Bool, true, false, not, ◌&&◌, ◌||◌, Option, none,
  some, List, [], ◌∷◌, ◌++◌, map, if◌then◌else◌, ltb, leb, Text, codes, index_of, take, drop,
  length, is_empty, trim, ◌==◌, list_eq, nat_eq, lookup, insert, erase, filter, all, or_else, ℤ,
  pos, negsuc, pos_part, sub_ℕ, sort_by,
}
use mathlib.Core.Option
use llmrelay_service.Cooldown.Doubles.{round}

abbrev pub base_cooldown_ms : ℕ
base_cooldown_ms = 30000

abbrev pub min_cooldown_ms : ℕ
min_cooldown_ms = 1000

abbrev pub max_rate_limit_cooldown_ms : ℕ
max_rate_limit_cooldown_ms = 300000

pub record Entry : Type 0 where
  pub consecutive_429s : ℕ
  pub cooldown_ms : ℕ
  pub expires_at : ℕ

pub record Snapshot : Type 0 where
  pub channel : Text
  pub model : Text
  pub consecutive_429s : ℕ
  pub cooldown_ms : ℕ
  pub remaining_ms : ℕ
  pub expires_at : ℕ

-- The module's `entries`
abbrev pub Entries : Type 0
Entries = List (Text × Entry)

unfoldable pub key : Text → Text → Text
key channel model = channel ++ 0 ∷ model

-- `parseKey`; without a separator `slice(0, -1)` drops the last character.
unfoldable pub parse_key : Text → Text × Text
unfolding index_of
parse_key value = elim (index_of (0 ∷ []) value) [
  | some separator ↦ (take separator value, drop (separator + 1) value)
  | none ↦ (take (length value - 1) value, value)
]

-- `clampDuration` of a whole number of milliseconds
unfoldable pub clamp_duration : ℤ → ℕ
clamp_duration d = min max_rate_limit_cooldown_ms (max min_cooldown_ms (pos_part d))

abbrev is_digit : ℕ → Bool
is_digit c = leb b'0' c && leb c b'9'

-- `Number(digits)`
decimal_value : ℕ → Text → ℕ
decimal_value n [] = n
decimal_value n (c ∷ s) = decimal_value (n * 10 + (c - b'0')) s

-- `retryAt - now`
abbrev minus_ℕ : ℤ → ℕ → ℤ
minus_ℕ (pos a) n = sub_ℕ a n
minus_ℕ (negsuc a) n = negsuc (a + n)

-- `parseRetryAfterMs`
unfoldable pub parse_retry_after_ms : (Text → Option ℤ) → Option Text → ℕ → Option ℕ
unfolding clamp_duration decimal_value trim
parse_retry_after_ms date_parse none now = none
parse_retry_after_ms date_parse (some value) now =
    let normalized = trim value in
    if is_empty normalized
    then none
    else if all is_digit normalized
    then some (clamp_duration (pos (decimal_value 0 normalized * 1000)))
    else Option.map (λ at. clamp_duration (minus_ℕ at now)) (date_parse normalized)

-- `exponentialMs` of the number of consecutive answers
unfoldable pub exponential_ms : ℕ → ℕ
exponential_ms consecutive =
    min max_rate_limit_cooldown_ms (base_cooldown_ms * 2 ^ min (consecutive - 1) 31)

-- The double that 0.4 is, times 2 ^ 54; that of 0.8 is twice as large.
abbrev pub two_fifths : ℕ
two_fifths = 7205759403792794

-- `Math.ceil` of `exponentialMs * (0.8 + r * 0.4)`, clamped; doubles are their numerators over 2 ^ 107.
unfoldable pub jittered_ms : ℕ → ℕ → ℕ
unfolding clamp_duration round
jittered_ms exponential random =
    let r = min random (2 ^ 53) in
    let factor = round (two_fifths * 2 ^ 54 + round (r * two_fifths)) in
    clamp_duration (pos ((round (exponential * factor) + (2 ^ 107 - 1)) / 2 ^ 107))

-- `entries.get(entryKey)?.consecutive429s ?? 0`
abbrev pub consecutive_of : Option Entry → ℕ
consecutive_of none = 0
consecutive_of (some e) = e.consecutive_429s

-- `recordRateLimit429`: the new entries and the result
unfoldable pub record_rate_limit_429 :
    (Text → Option ℤ) → Entries → Text → Text → Option Text → Bool → ℕ → ℕ → Entries × ℕ
unfolding key lookup insert erase parse_retry_after_ms exponential_ms jittered_ms
record_rate_limit_429 date_parse entries channel model retry_after enabled now random =
    let entry_key = key channel model in
    let consecutive = consecutive_of (lookup entry_key entries) + 1 in
    let cooldown =
      or_else (parse_retry_after_ms date_parse retry_after now)
        (jittered_ms (exponential_ms consecutive) random) in
    if enabled
    then (
      insert entry_key
          (record {
            consecutive_429s = consecutive;
            cooldown_ms = cooldown;
            expires_at = now + cooldown;
          })
          entries,
      cooldown,
    )
    else (erase entry_key entries, 0)

-- The part of `getRateLimitCooldownRemainingMs` behind the look-up
abbrev pub remaining_of : Option Entry → ℕ → Option ℕ
remaining_of none now = none
remaining_of (some e) now = if leb e.expires_at now then none else some (e.expires_at - now)

-- `getRateLimitCooldownRemainingMs`
unfoldable pub get_remaining_ms : Entries → Text → Text → Bool → ℕ → Entries × Option ℕ
unfolding key lookup erase
get_remaining_ms entries channel model enabled now =
    if enabled
    then (entries, remaining_of (lookup (key channel model) entries) now)
    else (erase (key channel model) entries, none)

-- `clearRateLimitCooldown`
unfoldable pub clear_cooldown : Entries → Text → Text → Entries
unfolding key erase
clear_cooldown entries channel model = erase (key channel model) entries

abbrev pub matches_one : Option Text → Text → Bool
matches_one none value = true
matches_one (some wanted) value = value == wanted

-- The test of `clearRateLimitCooldowns`
unfoldable pub matches_key : Option Text → Option Text → Text → Bool
unfolding parse_key
matches_key channel model entry_key =
    let (c, m) = parse_key entry_key in matches_one channel c && matches_one model m

-- The loop of `clearRateLimitCooldowns` over the keys
clear_loop : Option Text → Option Text → List Text → Entries → ℕ → Entries × ℕ
unfolding erase
clear_loop channel model [] entries cleared = (entries, cleared)
clear_loop channel model (k ∷ ks) entries cleared =
    let hit = matches_key channel model k in
    clear_loop channel model ks (if hit then erase k entries else entries)
      (if hit then cleared + 1 else cleared)

abbrev pub keys_of : Entries → List Text
keys_of entries = map (λ (e : Text × Entry). e.0) entries

-- `clearRateLimitCooldowns`
unfoldable pub clear_cooldowns : Option Text → Option Text → Entries → Entries × ℕ
unfolding clear_loop matches_key
clear_cooldowns channel model entries = clear_loop channel model (keys_of entries) entries 0

abbrev snapshot_of : ℕ → Text × Entry → Snapshot
snapshot_of now (k, e) =
    let (channel, model) = parse_key k in
    record {
      channel = channel;
      model = model;
      consecutive_429s = e.consecutive_429s;
      cooldown_ms = e.cooldown_ms;
      remaining_ms = e.expires_at - now;
      expires_at = e.expires_at;
    }

-- `a.expiresAt - b.expiresAt < 0`
abbrev pub expires_before : Snapshot → Snapshot → Bool
expires_before a b = ltb a.expires_at b.expires_at

-- `listRateLimitCooldowns`
unfoldable pub list_cooldowns : Entries → ℕ → List Snapshot
unfolding parse_key filter sort_by
list_cooldowns entries now =
    sort_by expires_before
      (map (snapshot_of now) (filter (λ (e : Text × Entry). ltb now e.1.expires_at) entries))
