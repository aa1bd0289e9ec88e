-- ===== src/Lib.antt =====
-- LLMRelayService: a gateway that relays requests for language models to configured upstream
-- channels. This library models the part of its TypeScript code that decides what a client gets:
-- where a request is routed, how long a channel pauses after it was rate limited, and how an answer
-- of a Chat Completions upstream becomes an answer of the Responses API. The conversion feeds the
-- text of each upstream chunk through the tag parser into the stream state machine; routing and
-- pauses are independent of it. The loop of src/index.ts over routes and attempts calls the conversion
-- of requests, the failover policy and the pauses.
--
-- Base passes on the libraries' names and those of its children: tests, lists, JavaScript maps and
-- strings (UTF-16 code units), numbers (a finite double is a multiple of 2 ^ -1074), JSON, sorting.
-- Think models src/openai-responses-chat-compat.ts, lines 581 to 666: splitThinkTaggedText,
-- consumeThinkTaggedTextChunk and flushThinkTaggedText. Think/Labels states what the tags mean by a
-- scan, character by character; Think/Split, Think/Chunks and Think/Canonical compare with it.
-- Responses models the same file, lines 521 to 579 and 668 to 1190. Items has the values that both
-- conversions build, Stream the state StreamState and the functions that change it, Chunks
-- processChatCompletionChunk and finalizeStream, Sse the framing of the event stream, Batch the
-- buffered conversion. Protocol is the client's view as a step relation, and its children show that
-- the machine keeps to it. Agreement relates the two conversions.
-- Request models the same file, lines 3 to 519: Errors what is thrown, Content the content of a
-- message, Items the input items, System the merging of system messages, Tools the tools, the choice
-- among them and the format, MiniMax what a MiniMax upstream accepts, Payload the whole conversion.
-- Accepted says which requests are convertible, Refusals what an error names, Merging, Fields and
-- Tooling what the payload holds.
-- Gateway models the loop of handleProxyRequest in src/index.ts: Attempts buildAttempt, State the
-- variables, Fallbacks the closures that the loop calls, Loop one iteration and the runs. Moves and
-- Bounds are about how long it goes on, Queue about the fallback routes it comes to, Retries about
-- the answer behind failed attempts on the initial route.
-- Cooldown models src/rate-limit-cooldown.ts, function by function, with the jitter in doubles, of
-- which Doubles has the rounding.
-- Routing models src/config.ts, lines 6 to 81, 236 to 440, 734 to 758 and 784 to 1110: Types the configuration,
-- Tables setProviderConfigs, reloadProviderConfigs and the reading of a path, Routes
-- findRoutesByModel, buildRouteResult and resolveExplicitTargetRoute, Resolve the resolve functions,
-- Models getModels and getChannelModels; Selection, Targets and Listing are about these. Mutations
-- models createProvider, updateProvider, deleteProvider and toggleProvider from the checked entry on.
-- Failover models src/gateway-failover.ts: normalizeGatewayFailoverPolicy with all that it calls,
-- shouldTriggerFailover and getCustomModelFallbackModels. Failover/Rules is about the custom
-- fallback rules, Failover/Limits about the whole policy.
-- Timeouts models src/gateway-timeouts.ts: the defaults, normalizeGatewayTimeoutSettings, the cache
-- that getGatewayTimeoutSettings and updateGatewayTimeoutSettings keep. The database's answer is an
-- argument. Timeouts/Cached is about the cache, Timeouts/Choice models the timeout for the first byte
-- of an answer.
-- ApiKeys models src/api-key-model-filter.ts, buildApiKeyQuotaSnapshot of src/api-key-quota.ts and the
-- test of a key in the handler of src/index.ts. Pricing models src/pricing.ts, lines 6 to 78, 123 to
-- 182 and 196 to 268: Buckets getCostTokenBuckets, Costs resolveEffectiveCachePricing and
-- calculateCostWithPricing, in whole numbers: a price of the cache is in twentieths of the unit of
-- the prices, and a cost in twentieths of a millionth of it.
-- Observer models parts of src/response-observer.ts: Rewrite createModelFieldRewriteBody, Guard
-- createTimeoutGuardedBody as a relation between states, Collector createObservationCollector with
-- the calls that the two observers make of it. Rewriting, Uncut, Guarding and Collecting are about
-- these.
--
-- State is passed explicitly; what a controller enqueues is a list of events. Errors that the
-- source throws are `none`, or values where what they say matters. Parameters stand for JSON.parse,
-- JSON.stringify, String, toLowerCase, URL, Date.parse, Math.random,
-- crypto.randomUUID, localeCompare and the text of a number. Loops over a text run on
-- its length as fuel, which is enough since each round shortens the text: the comparisons with
-- fuel-free descriptions hold for every text. The loop over attempts runs on a number of iterations:
-- one more than (1 + maxFallbackAttempts) * (1 + retryAttempts) is enough. The numbers of bits that a
-- double does not hold are counted up to 128, where those of the jitter have less than 128. Logs and measurements of
-- the loop are left out but for the attempts that it saves; the adapters of the providers are a
-- parameter, prepareRequestForProvider.
--
-- Not modelled: the textual form of events, HTTP, the finding of a request's key, the adapters of the
-- providers, the database, the normalisation of the console's entries, its user interface, the caches
-- of prices and of the failover policy, the process that runs the Rust proxy, and the Rust proxy itself.
-- The channel names that Object.prototype has are outside the model of the tables.
pub mod ApiKeys
pub mod Base
pub mod Cooldown
pub mod Failover
pub mod Gateway
pub mod Observer
pub mod Pricing
pub mod Request
pub mod Responses
pub mod Routing
pub mod Think
pub mod Timeouts
