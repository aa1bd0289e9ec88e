-- ===== src/Pricing.antt =====
-- src/pricing.ts, lines 6 to 78, 123 to 182 and 196 to 268: which tokens of a usage record are charged
-- at which price, and what they cost. Prices are whole numbers of some unit, as a price of a million
-- tokens. Prices of the cache and costs are in twentieths of it, in which the ratios 0.1, 1.25, 2 and
-- 1.6 of the source are whole, so a cost is the source's one times twenty million. The rounding of
-- floating-point numbers is left out, and counts of tokens are no negative numbers. The cache of
-- prices, which is filled from the network and the database, is left out.
pub mod Buckets
pub mod Costs
mod Tests
