-- ===== src/Timeouts.antt =====
-- src/gateway-timeouts.ts: the timeout settings, their defaults from the environment, and the cache
-- of the stored settings. `parse_int` is `Number.parseInt(raw, 10)`, with `none` for `NaN`, and
-- `env` what `process.env` holds. A `none` as a result is an exception that the source throws.
pub mod Cached
pub mod Choice
pub mod Tests
use llmrelay_service.Base.{
  ℕ, suc, ◌+◌, ◌-◌, Bool, true, false, ◌||◌, Option, none, some, Text, codes, trim, is_empty,
  and_then, or_else, if◌then◌else◌, ltb, ℤ, pos, negsuc, of_ℕ, Json, Props, end, get, as_number,
}
use mathlib.Core.Option
use llmrelay_service.Base.JsonValues
use llmrelay_service.Failover.{whole, within}

-- `GatewayTimeoutSettings`
pub record Settings : Type 0 where
  pub connect_timeout_ms : ℕ
  pub default_first_byte_timeout_ms : ℕ
  pub stream_first_byte_timeout_ms : ℕ
  pub image_first_byte_timeout_ms : ℕ
  pub response_idle_timeout_ms : ℕ

-- `GatewayTimeoutSettingsInput`, each field with what stands in it
pub record Input : Type 0 where
  pub connect : Option Json
  pub default_first_byte : Option Json
  pub stream_first_byte : Option Json
  pub image_first_byte : Option Json
  pub response_idle : Option Json

-- `{}`
abbrev pub no_input : Input
no_input = record {
  connect = none;
  default_first_byte = none;
  stream_first_byte = none;
  image_first_byte = none;
  response_idle = none;
}

-- `readPositiveIntegerEnv` and `readNonNegativeIntegerEnv`, with the least value
unfoldable pub read_integer_env : (Text → Option ℤ) → (Text → Option Text) → ℕ → Text → Option ℕ
unfolding trim
read_integer_env parse_int env least name = elim (env name) [
  | none ↦ none
  | some raw ↦ elim (parse_int raw) [
    | some (pos n) ↦ if is_empty (trim raw) || ltb n least then none else some n
    | _ ↦ none
  ]
]

-- `getGatewayTimeoutDefaults`
unfoldable pub get_defaults : (Text → Option ℤ) → (Text → Option Text) → Settings
unfolding read_integer_env
get_defaults parse_int env =
    let positive = read_integer_env parse_int env 1 in
    let all_requests = or_else (positive (codes "UPSTREAM_REQUEST_TIMEOUT_MS")) 300000 in
    record {
      connect_timeout_ms = or_else (positive (codes "UPSTREAM_CONNECT_TIMEOUT_MS")) 3000;
      default_first_byte_timeout_ms =
          or_else (positive (codes "UPSTREAM_DEFAULT_FIRST_BYTE_TIMEOUT_MS")) all_requests;
      stream_first_byte_timeout_ms =
          or_else (positive (codes "UPSTREAM_STREAM_FIRST_BYTE_TIMEOUT_MS")) all_requests;
      image_first_byte_timeout_ms =
          or_else (positive (codes "UPSTREAM_IMAGE_FIRST_BYTE_TIMEOUT_MS")) all_requests;
      response_idle_timeout_ms =
          or_else (read_integer_env parse_int env 0 (codes "UPSTREAM_RESPONSE_IDLE_TIMEOUT_MS"))
            300000;
    }

-- `assertTimeoutInRange` of `input.field ?? defaults.field`
unfoldable pub timeout_in_range : Option Json → ℕ → ℕ → ℕ → Option ℕ
unfolding whole
timeout_in_range none fallback lo hi = within lo hi (some fallback)
timeout_in_range (some Json.null) fallback lo hi = within lo hi (some fallback)
timeout_in_range (some (Json.num x)) fallback lo hi = within lo hi (whole x)
timeout_in_range (some _) fallback lo hi = none

-- `normalizeGatewayTimeoutSettings`
unfoldable pub normalize_settings : Input → Settings → Option Settings
unfolding timeout_in_range
normalize_settings input d =
    and_then (timeout_in_range input.connect d.connect_timeout_ms 100 60000) (λ connect.
      and_then
        (timeout_in_range input.default_first_byte d.default_first_byte_timeout_ms 1000 900000)
        (λ default_first_byte.
          and_then
            (timeout_in_range input.stream_first_byte d.stream_first_byte_timeout_ms 1000 900000)
            (λ stream_first_byte.
              and_then
                (timeout_in_range input.image_first_byte d.image_first_byte_timeout_ms 1000 900000)
                (λ image_first_byte.
                  and_then
                    (timeout_in_range input.response_idle d.response_idle_timeout_ms 0 3600000)
                    (λ response_idle. some (record {
                      connect_timeout_ms = connect;
                      default_first_byte_timeout_ms = default_first_byte;
                      stream_first_byte_timeout_ms = stream_first_byte;
                      image_first_byte_timeout_ms = image_first_byte;
                      response_idle_timeout_ms = response_idle;
                    }))))))

-- `typeof parsed.field === 'number' ? parsed.field : undefined`
abbrev number_field : Text → Props → Option Json
unfolding get
number_field name parsed = Option.map (λ n. Json.num n) (as_number (get name parsed))

-- `parseStoredSettings`; a stored value that is no object has none of the fields, but `null` throws.
unfoldable pub parse_stored : (Text → Option Json) → Text → Option Input
unfolding number_field trim
parse_stored parse_json value_json =
    if is_empty (trim value_json) then some no_input else elim (parse_json value_json) [
      | none ↦ none
      | some Json.null ↦ none
      | some (Json.obj parsed) ↦ some (record {
        connect = number_field (codes "connectTimeoutMs") parsed;
        default_first_byte = number_field (codes "defaultFirstByteTimeoutMs") parsed;
        stream_first_byte = number_field (codes "streamFirstByteTimeoutMs") parsed;
        image_first_byte = number_field (codes "imageFirstByteTimeoutMs") parsed;
        response_idle = number_field (codes "responseIdleTimeoutMs") parsed;
      })
      | some _ ↦ some no_input
    ]

-- `cachedSettings` and `cachedSettingsLoadedAt`
pub record Cache : Type 0 where
  pub settings : Option Settings
  pub loaded_at : ℕ

-- `clearGatewayTimeoutSettingsCache`
unfoldable pub clear_cache : Cache → Cache
clear_cache cache = record { settings = none; loaded_at = 0 }

-- What the database gives: an exception, no row, or the text of the row
pub data Loaded : Type 0 where
  failed no_row : Loaded
  row : Text → Loaded

-- The `try` block of `getGatewayTimeoutSettings`
unfoldable pub load_settings : (Text → Option Json) → Settings → Loaded → Option Settings
unfolding parse_stored normalize_settings
load_settings parse_json d failed = none
load_settings parse_json d no_row = normalize_settings no_input d
load_settings parse_json d (row value_json) =
    and_then (parse_stored parse_json value_json) (λ input. normalize_settings input d)

-- What follows it: the cache is filled, or the `catch` block falls back.
unfoldable pub after_load : Cache → Settings → ℕ → Option Settings → Cache × Option Settings
unfolding normalize_settings
after_load cache d now (some view) = (record { settings = some view; loaded_at = now }, some view)
after_load cache d now none = elim cache.settings [
  | some old ↦ (cache, some old)
  | none ↦ (cache, normalize_settings no_input d)
]

-- `getGatewayTimeoutSettings`
unfoldable pub get_settings :
    (Text → Option Json) → Settings → Cache → ℕ → Loaded → Cache × Option Settings
unfolding load_settings after_load
get_settings parse_json d cache now loaded =
    let fresh_result = after_load cache d now (load_settings parse_json d loaded) in
    elim cache.settings [
      | none ↦ fresh_result
      | some old ↦ if ltb (now - cache.loaded_at) 5000 then (cache, some old) else fresh_result
    ]

-- The settings as an input again
abbrev pub to_input : Settings → Input
unfolding of_ℕ
to_input s = record {
  connect = some (Json.num (of_ℕ s.connect_timeout_ms));
  default_first_byte = some (Json.num (of_ℕ s.default_first_byte_timeout_ms));
  stream_first_byte = some (Json.num (of_ℕ s.stream_first_byte_timeout_ms));
  image_first_byte = some (Json.num (of_ℕ s.image_first_byte_timeout_ms));
  response_idle = some (Json.num (of_ℕ s.response_idle_timeout_ms));
}

-- What follows the `await` of `updateGatewayTimeoutSettings`, if the row was written
abbrev pub after_write : Cache → ℕ → Bool → Option Settings → Cache × Option Settings
after_write cache now true (some view) =
    (record { settings = some view; loaded_at = now }, some view)
after_write cache now true none = (cache, none)
after_write cache now false view = (cache, none)

-- `updateGatewayTimeoutSettings`: the cache, and the result or `none` where it throws. `writes`
-- says if the database takes the row with the settings and the time.
unfoldable pub update_settings :
    Settings → Cache → Input → (Settings → ℕ → Bool) → ℕ → Cache × Option Settings
unfolding normalize_settings to_input
update_settings d cache input writes now = elim (normalize_settings input d) [
  | none ↦ (cache, none)
  | some settings ↦
      after_write cache now (writes settings now) (normalize_settings (to_input settings) d)
]
