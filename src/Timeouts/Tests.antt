-- ===== src/Timeouts/Tests.antt =====
-- Runs of the cached settings.
use llmrelay_service.Base.{true, false, ◌≡◌, refl, Option, none, some, Text, codes, arith, Json}
use llmrelay_service.Timeouts.{
  Settings, no_input, Cache, failed, row, get_settings, update_settings, get_defaults,
}
use llmrelay_service.Timeouts.Choice.{select_first_byte_timeout}
use llmrelay_service.Timeouts.Cached.{
  AreWithin, Serves, get_settings-Serves, Updates, update_settings-Updates,
}

abbrev no_json : Text → Option Json
no_json t = none

abbrev code_defaults : Settings
code_defaults = record {
  connect_timeout_ms = 3000;
  default_first_byte_timeout_ms = 300000;
  stream_first_byte_timeout_ms = 300000;
  image_first_byte_timeout_ms = 300000;
  response_idle_timeout_ms = 300000;
}

empty-environment : get_defaults (λ t. none) (λ t. none) ≡ code_defaults
unfolding get_defaults
empty-environment = refl

code_defaults-AreWithin : AreWithin code_defaults
code_defaults-AreWithin = record {
  connect = (omega arith, omega arith);
  default_first_byte = (omega arith, omega arith);
  stream_first_byte = (omega arith, omega arith);
  image_first_byte = (omega arith, omega arith);
  response_idle = (omega arith, omega arith);
}

get_settings-Serves_example : Serves (
    get_settings no_json code_defaults
      (record { settings = none; loaded_at = 0 })
      9000
      (row (codes "{")))
get_settings-Serves_example =
    get_settings-Serves no_json code_defaults (record { settings = none; loaded_at = 0 }) 9000
      (row (codes "{")) code_defaults-AreWithin tt

update_settings-Updates_example :
    Updates no_json code_defaults
      (record { settings = none; loaded_at = 0 })
      no_input
      (λ s at. true)
      1000
      2000
      failed
      (update_settings code_defaults
        (record { settings = none; loaded_at = 0 })
        no_input
        (λ s at. true)
        1000)
update_settings-Updates_example =
    update_settings-Updates no_json code_defaults (record { settings = none; loaded_at = 0 })
      no_input (λ s at. true) 1000 2000 failed (omega arith)

-- A write that fails leaves the cache empty.
unwritten : (c : Cache) → update_settings code_defaults c no_input (λ s at. false) 1000 ≡ (c, none)
unfolding update_settings
unwritten c = refl

-- A path of an image as the target's
image_first :
    (settings : Settings)
    → select_first_byte_timeout
        (λ t. t)
        (λ url. some (codes "/v1/images/edits"))
        (codes "/v1/responses")
        (codes "https://a.test/v1/images/edits")
        settings
        true
      ≡ settings.image_first_byte_timeout_ms
unfolding select_first_byte_timeout
image_first settings = refl
