-- ===== src/Timeouts/Choice.antt =====
-- `isImageRequestPath` and `selectUpstreamFirstByteTimeoutMs`. `to_lower` is `toLowerCase`, and
-- `url_pathname` the `pathname` of a `URL`, `none` where it throws.
use llmrelay_service.Base.{
  ℕ, Bool, ◌||◌, Option, List, [], ◌∷◌, Text, codes, starts_with, is_empty, or_else, if◌then◌else◌,
  any,
}
use llmrelay_service.Timeouts.{Settings}

-- `String.prototype.includes`
unfoldable pub includes : Text → Text → Bool
unfolding starts_with
includes p [] = is_empty p
includes p (c ∷ s) = starts_with p (c ∷ s) || includes p s

-- The paths that are tested; a target that is empty does not count.
unfoldable pub candidates : (Text → Option Text) → Text → Text → List Text
candidates url_pathname pathname [] = pathname ∷ []
candidates url_pathname pathname (c ∷ target) =
    pathname ∷ or_else (url_pathname (c ∷ target)) (c ∷ target) ∷ []

-- The test of one of them
unfoldable pub is_image_path : Text → Bool
unfolding includes
is_image_path path =
    includes (codes "/images/generations") path
    || (includes (codes "/images/edits") path || includes (codes "/images/variations") path)

-- `isImageRequestPath`
unfoldable pub is_image_request_path : (Text → Text) → (Text → Option Text) → Text → Text → Bool
unfolding candidates is_image_path
is_image_request_path to_lower url_pathname pathname target =
    any (λ path. is_image_path (to_lower path)) (candidates url_pathname pathname target)

-- `selectUpstreamFirstByteTimeoutMs`
unfoldable pub select_first_byte_timeout :
    (Text → Text) → (Text → Option Text) → Text → Text → Settings → Bool → ℕ
unfolding is_image_request_path
select_first_byte_timeout to_lower url_pathname pathname target settings is_streaming =
    if is_image_request_path to_lower url_pathname pathname target
    then settings.image_first_byte_timeout_ms
    else if is_streaming
    then settings.stream_first_byte_timeout_ms
    else settings.default_first_byte_timeout_ms
