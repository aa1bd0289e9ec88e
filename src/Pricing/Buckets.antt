-- ===== src/Pricing/Buckets.antt =====
-- `inferPricingUsageUpstreamType` and `getCostTokenBuckets`
use Prim.Native.Nat.{max, min}
use llmrelay_service.Base.{
  ℕ, ◌+◌, ◌-◌, ◌≤◌, ◌<◌, Option, none, some, ◌≡◌, refl, ◌⊎◌, inl, inr, ltb, leb, Bool-cases, arith,
  if◌then◌else◌,
}

-- `PricingUsageUpstreamType`
pub data UpstreamType : Type 0 where
  anthropic openai : UpstreamType

-- `PricingUsage`
pub record PricingUsage : Type 0 where
  pub input_tokens : Option ℕ
  pub output_tokens : Option ℕ
  pub cache_read_input_tokens : Option ℕ
  pub cache_creation_input_tokens : Option ℕ
  pub cached_input_tokens : Option ℕ
  pub ephemeral_5m_input_tokens : Option ℕ
  pub ephemeral_1h_input_tokens : Option ℕ

-- What `getCostTokenBuckets` returns
pub record Buckets : Type 0 where
  pub upstream_type : UpstreamType
  pub uncached_input_tokens : ℕ
  pub cache_read_tokens : ℕ
  pub cache_write_tokens : ℕ
  pub cache_write_5m_tokens : ℕ
  pub cache_write_1h_tokens : ℕ

-- `?? 0`
abbrev pub or_zero : Option ℕ → ℕ
or_zero none = 0
or_zero (some n) = n

-- `inferPricingUsageUpstreamType`
unfoldable pub infer_upstream_type : PricingUsage → UpstreamType
infer_upstream_type u =
    if ltb 0 (or_zero u.cache_creation_input_tokens)
    then anthropic
    else if ltb 0 (or_zero u.cache_read_input_tokens)
    then anthropic
    else if ltb 0 (or_zero u.cached_input_tokens)
    then openai
    else anthropic

-- The `openai` branch, where the difference stops at 0
unfoldable pub openai_buckets : PricingUsage → Buckets
openai_buckets u = record {
  upstream_type = openai;
  uncached_input_tokens = or_zero u.input_tokens - or_zero u.cached_input_tokens;
  cache_read_tokens = or_zero u.cached_input_tokens;
  cache_write_tokens = 0;
  cache_write_5m_tokens = 0;
  cache_write_1h_tokens = 0;
}

-- `cacheWriteTokens`
abbrev pub written : PricingUsage → ℕ
written u =
    max (or_zero u.cache_creation_input_tokens)
      (or_zero u.ephemeral_5m_input_tokens + or_zero u.ephemeral_1h_input_tokens)

-- `cacheWrite1hTokens`
abbrev pub written_1h : PricingUsage → ℕ
written_1h u = min (or_zero u.ephemeral_1h_input_tokens) (written u)

-- The rest of `getCostTokenBuckets`
unfoldable pub anthropic_buckets : PricingUsage → Buckets
anthropic_buckets u = record {
  upstream_type = anthropic;
  uncached_input_tokens = or_zero u.input_tokens;
  cache_read_tokens = or_zero u.cache_read_input_tokens;
  cache_write_tokens = written u;
  cache_write_5m_tokens = written u - written_1h u;
  cache_write_1h_tokens = written_1h u;
}

abbrev buckets_of : UpstreamType → PricingUsage → Buckets
buckets_of openai u = openai_buckets u
buckets_of anthropic u = anthropic_buckets u

-- `upstreamType ?? inferPricingUsageUpstreamType(usage)`
abbrev pub resolved_type : Option UpstreamType → PricingUsage → UpstreamType
resolved_type none u = infer_upstream_type u
resolved_type (some t) u = t

-- `getCostTokenBuckets`
unfoldable pub token_buckets : PricingUsage → Option UpstreamType → Buckets
unfolding openai_buckets anthropic_buckets infer_upstream_type
token_buckets u t = buckets_of (resolved_type t u) u

-- The type that a record is charged as: the one that is named, or else that of OpenAI if it has cached
-- tokens of the input and none that Anthropic read from or wrote to its cache
pub data IsFor (u : PricingUsage) : Option UpstreamType → UpstreamType → Type 0 where
  named : (t : UpstreamType) → IsFor u (some t) t
  cached :
      0 < or_zero u.cached_input_tokens
      → or_zero u.cache_creation_input_tokens + or_zero u.cache_read_input_tokens ≡ 0
      → IsFor u none openai
  uncached :
      (or_zero u.cached_input_tokens ≡ 0)
        ⊎ (0 < or_zero u.cache_creation_input_tokens + or_zero u.cache_read_input_tokens)
      → IsFor u none anthropic

-- The buckets of a record: an OpenAI input has its cached part in the read bucket and the rest in that
-- of the input, and nothing is written. Of an Anthropic one the input and the tokens that were read
-- are in their buckets, and what was written is the larger one of what was reported as written and
-- the sum of both lifetimes, of which the tokens of an hour are those reported.
pub data IsSplit (u : PricingUsage) (t : Option UpstreamType) : Buckets → Type 0 where
  openai_split :
      (b : Buckets)
      → b.upstream_type ≡ openai
      → IsFor u t openai
      → b.uncached_input_tokens + b.cache_read_tokens
        ≡ max (or_zero u.input_tokens) (or_zero u.cached_input_tokens)
      → b.cache_read_tokens ≡ or_zero u.cached_input_tokens
      → b.cache_write_tokens ≡ 0
      → b.cache_write_5m_tokens + b.cache_write_1h_tokens ≡ 0
      → IsSplit u t b
  anthropic_split :
      (b : Buckets)
      → b.upstream_type ≡ anthropic
      → IsFor u t anthropic
      → b.uncached_input_tokens ≡ or_zero u.input_tokens
      → b.cache_read_tokens ≡ or_zero u.cache_read_input_tokens
      → b.cache_write_5m_tokens + b.cache_write_1h_tokens ≡ b.cache_write_tokens
      → b.cache_write_1h_tokens ≡ or_zero u.ephemeral_1h_input_tokens
      → or_zero u.ephemeral_5m_input_tokens ≤ b.cache_write_5m_tokens
      → or_zero u.cache_creation_input_tokens ≤ b.cache_write_tokens
      → (b.cache_write_tokens ≡ or_zero u.cache_creation_input_tokens)
        ⊎ (b.cache_write_tokens
            ≡ or_zero u.ephemeral_5m_input_tokens + or_zero u.ephemeral_1h_input_tokens)
      → IsSplit u t b

infer_upstream_type-IsFor : (u : PricingUsage) → IsFor u none (infer_upstream_type u)
unfolding infer_upstream_type
infer_upstream_type-IsFor u = elim (Bool-cases (ltb 0 (or_zero u.cache_creation_input_tokens))) [
  | inl a ↦ rw a (uncached (inr (ground (arith, a))))
  | inr a ↦ rw a (elim (Bool-cases (ltb 0 (or_zero u.cache_read_input_tokens))) [
    | inl b ↦ rw b (uncached (inr (ground (arith, b))))
    | inr b ↦ rw b (elim (Bool-cases (ltb 0 (or_zero u.cached_input_tokens))) [
      | inl c ↦ rw c (cached (ground (arith, c)) (ground (arith, a, b)))
      | inr c ↦ rw c (uncached (inl (ground (arith, c))))
    ])
  ])
]

resolved_type-IsFor : (t : Option UpstreamType) (u : PricingUsage) → IsFor u t (resolved_type t u)
resolved_type-IsFor none u = infer_upstream_type-IsFor u
resolved_type-IsFor (some t) u = named t

max_one : (m n : ℕ) → (max m n ≡ m) ⊎ (max m n ≡ n)
max_one m n = elim (Bool-cases (leb m n)) [
  | inl h ↦ inr (ground (arith, h))
  | inr h ↦ inl (ground (arith, h))
]

buckets_of-IsSplit :
    (s : UpstreamType) (u : PricingUsage) (t : Option UpstreamType)
    → IsFor u t s
    → IsSplit u t (buckets_of s u)
unfolding openai_buckets anthropic_buckets
buckets_of-IsSplit openai u t h = openai_split _ refl h (ground arith) refl refl refl
buckets_of-IsSplit anthropic u t h =
    anthropic_split _ refl h refl refl (ground arith) (ground arith) (ground arith) (ground arith)
      (max_one (or_zero u.cache_creation_input_tokens) _)

-- The tokens of a usage record are split into the buckets of the type that is named or else inferred.
-- For OpenAI the cached tokens are a part of the input, and nothing is written. For Anthropic the
-- input and the tokens read from the cache are as reported, and the tokens written for five minutes
-- and for an hour make up all that were written: what was reported as written or, if that is more,
-- the sum of both lifetimes, with the tokens of an hour as reported.
pub token_buckets-IsSplit :
    (u : PricingUsage) (t : Option UpstreamType) → IsSplit u t (token_buckets u t)
unfolding token_buckets
token_buckets-IsSplit u t = buckets_of-IsSplit (resolved_type t u) u t (resolved_type-IsFor t u)
