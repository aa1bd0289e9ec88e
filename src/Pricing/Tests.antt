-- ===== src/Pricing/Tests.antt =====
-- Records of both types of upstream, their buckets and costs.
use llmrelay_service.Base.{◌+◌, ◌*◌, none, some, ◌≡◌, refl}
use llmrelay_service.Pricing.Buckets.{
  anthropic, PricingUsage, token_buckets, IsSplit, token_buckets-IsSplit, or_zero,
}
use llmrelay_service.Pricing.Costs.{
  calculate_cost, calculate_cost-total, without_cache_prices, weight,
}

abbrev claude_usage : PricingUsage
claude_usage = record {
  input_tokens = some 3;
  output_tokens = some 200;
  cache_read_input_tokens = some 40000;
  cache_creation_input_tokens = some 1500;
  cached_input_tokens = none;
  ephemeral_5m_input_tokens = some 500;
  ephemeral_1h_input_tokens = some 1000;
}

abbrev gpt_usage : PricingUsage
gpt_usage = record {
  input_tokens = some 1000;
  output_tokens = some 50;
  cache_read_input_tokens = none;
  cache_creation_input_tokens = none;
  cached_input_tokens = some 800;
  ephemeral_5m_input_tokens = none;
  ephemeral_1h_input_tokens = none;
}

infers_openai : (token_buckets gpt_usage none).uncached_input_tokens ≡ 200
unfolding token_buckets
infers_openai = refl

splits_writes : (token_buckets claude_usage none).cache_write_5m_tokens ≡ 500
unfolding token_buckets
splits_writes = refl

token_buckets-IsSplit_example : IsSplit claude_usage none (token_buckets claude_usage none)
token_buckets-IsSplit_example = token_buckets-IsSplit claude_usage none

calculate_cost-total_example :
    (calculate_cost claude_usage (some (without_cache_prices 3 15)) (some anthropic)).total_cost
    ≡ weight (token_buckets claude_usage (some anthropic)) * 3 + or_zero (some 200) * (20 * 15)
calculate_cost-total_example = calculate_cost-total claude_usage 3 15 anthropic
