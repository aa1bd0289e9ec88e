-- ===== src/Pricing/Costs.antt =====
-- `resolveEffectiveCachePricing` and `calculateCostWithPricing`
use llmrelay_service.Base.{ℕ, ◌+◌, ◌*◌, Bool, true, false, Option, none, some, ◌≡◌, ◌||◌, arith}
use llmrelay_service.Pricing.Buckets.{
  UpstreamType, openai, anthropic, PricingUsage, Buckets, or_zero, token_buckets, openai_buckets,
  anthropic_buckets,
}

-- `ModelPricing`
pub record ModelPricing : Type 0 where
  pub input : ℕ
  pub output : ℕ
  pub cache_read : Option ℕ
  pub cache_write : Option ℕ

-- `EffectiveCachePricing`, in twentieths
pub record EffectiveCachePricing : Type 0 where
  pub cache_read : ℕ
  pub cache_write_5m : ℕ
  pub cache_write_1h : ℕ
  pub derived : Bool

abbrev is_none : Option ℕ → Bool
is_none none = true
is_none (some n) = false

-- `price ?? input * ratio`, both as twentieths: the ratio is given in twentieths
unfoldable pub price_or : Option ℕ → ℕ → ℕ → ℕ
price_or none input ratio = ratio * input
price_or (some price) input ratio = 20 * price

-- `cacheWrite1h`: 1.6 times the price of a write, or twice that of the input
unfoldable pub hour_price : Option ℕ → ℕ → ℕ
hour_price none input = 40 * input
hour_price (some price) input = 32 * price

-- `resolveEffectiveCachePricing`
unfoldable pub effective_cache_pricing : ModelPricing → UpstreamType → EffectiveCachePricing
unfolding price_or hour_price
effective_cache_pricing p openai = record {
  cache_read = price_or p.cache_read p.input 2;
  cache_write_5m = 20 * or_zero p.cache_write;
  cache_write_1h = 20 * or_zero p.cache_write;
  derived = is_none p.cache_read;
}
effective_cache_pricing p anthropic = record {
  cache_read = price_or p.cache_read p.input 2;
  cache_write_5m = price_or p.cache_write p.input 25;
  cache_write_1h = hour_price p.cache_write p.input;
  derived = is_none p.cache_read || is_none p.cache_write;
}

-- `CostBreakdown` less the tokens, which are those of the buckets
pub record CostBreakdown : Type 0 where
  pub tokens : Buckets
  pub input_cost : ℕ
  pub output_cost : ℕ
  pub cache_read_cost : ℕ
  pub cache_write_cost : ℕ
  pub total_cost : ℕ
  pub cache_read_price : ℕ
  pub cache_write_5m_price : ℕ
  pub cache_write_1h_price : ℕ
  pub cache_pricing_derived : Bool

-- Without a price nothing is charged.
unfoldable pub without_price : Buckets → CostBreakdown
without_price b = record {
  tokens = b;
  input_cost = 0;
  output_cost = 0;
  cache_read_cost = 0;
  cache_write_cost = 0;
  total_cost = 0;
  cache_read_price = 0;
  cache_write_5m_price = 0;
  cache_write_1h_price = 0;
  cache_pricing_derived = false;
}

abbrev write_cost : Buckets → EffectiveCachePricing → ℕ
write_cost b e =
    b.cache_write_5m_tokens * e.cache_write_5m + b.cache_write_1h_tokens * e.cache_write_1h

-- The rest of `calculateCostWithPricing`
unfoldable pub with_price : Buckets → ℕ → ModelPricing → EffectiveCachePricing → CostBreakdown
with_price b output p e = record {
  tokens = b;
  input_cost = b.uncached_input_tokens * (20 * p.input);
  output_cost = output * (20 * p.output);
  cache_read_cost = b.cache_read_tokens * e.cache_read;
  cache_write_cost = write_cost b e;
  total_cost =
      b.uncached_input_tokens * (20 * p.input)
      + output * (20 * p.output)
      + b.cache_read_tokens * e.cache_read
      + write_cost b e;
  cache_read_price = e.cache_read;
  cache_write_5m_price = e.cache_write_5m;
  cache_write_1h_price = e.cache_write_1h;
  cache_pricing_derived = e.derived;
}

-- `calculateCostWithPricing`
unfoldable pub calculate_cost :
    PricingUsage → Option ModelPricing → Option UpstreamType → CostBreakdown
unfolding token_buckets without_price with_price effective_cache_pricing
calculate_cost u none t = without_price (token_buckets u t)
calculate_cost u (some p) t =
    with_price (token_buckets u t) (or_zero u.output_tokens) p
      (effective_cache_pricing p (token_buckets u t).upstream_type)

hour_ratio : (w : Option ℕ) (input : ℕ) → 5 * hour_price w input ≡ 8 * price_or w input 25
unfolding hour_price price_or
hour_ratio none input = omega arith
hour_ratio (some price) input = omega arith

-- For an Anthropic record a token written for an hour always costs 1.6 times one written for five
-- minutes, whether the price of a write is given or derived.
pub calculate_cost-ratio :
    (u : PricingUsage) (p : ModelPricing)
    → 5 * (calculate_cost u (some p) (some anthropic)).cache_write_1h_price
      ≡ 8 * (calculate_cost u (some p) (some anthropic)).cache_write_5m_price
unfolding calculate_cost with_price effective_cache_pricing token_buckets anthropic_buckets
calculate_cost-ratio u p = hour_ratio p.cache_write p.input

-- The price of an entry that has none for the cache
abbrev pub without_cache_prices : ℕ → ℕ → ModelPricing
without_cache_prices i o = record { input = i; output = o; cache_read = none; cache_write = none }

-- A bucket's share of the input's price, in twentieths
abbrev pub weight : Buckets → ℕ
weight b =
    20 * b.uncached_input_tokens
    + 2 * b.cache_read_tokens
    + 25 * b.cache_write_5m_tokens
    + 40 * b.cache_write_1h_tokens

derived_total :
    (a r w h i o : ℕ)
    → a * (20 * i) + o + r * (2 * i) + (w * (25 * i) + h * (40 * i))
      ≡ (20 * a + 2 * r + 25 * w + 40 * h) * i + o
derived_total a r w h i o = omega arith

derived_openai :
    (a r i o : ℕ) → a * (20 * i) + o + r * (2 * i) + 0 ≡ (20 * a + 2 * r + 0 + 0) * i + o
derived_openai a r i o = omega arith

-- Where no prices of the cache are known, the total is that of the input's price times the tokens,
-- those that are read from the cache at a tenth and those that are written at 1.25 or twice their
-- number, together with the price of the output, whatever the type of the upstream.
pub calculate_cost-total :
    (u : PricingUsage) (i o : ℕ) (t : UpstreamType)
    → (calculate_cost u (some (without_cache_prices i o)) (some t)).total_cost
      ≡ weight (token_buckets u (some t)) * i + or_zero u.output_tokens * (20 * o)
unfolding calculate_cost with_price effective_cache_pricing token_buckets anthropic_buckets
    openai_buckets price_or hour_price
calculate_cost-total u i o anthropic = derived_total _ _ _ _ i _
calculate_cost-total u i o openai = derived_openai _ _ i _
