-- ===== src/Lib.antt =====
-- llm_proxy, a gateway that speaks the OpenAI chat API in front of pools of upstream keys.
--
-- A chat request is routed by its model name to a pool of keys, and the retry loop picks a key,
-- refreshes its credential, asks the circuit breaker, calls the upstream, and on a failure records
-- it, demotes the key and tries again. In front of the loop stand the check of the client's key, the
-- rate limiter and the concurrency limits; around it the alert channel, the prompt cache, the prices
-- and the task that rebuilds the router. What the upstream answers is normalised, whole or as a
-- stream.
--
-- AppError        src/error.rs: the error type and the status code of its response.
-- Alerts          src/alerts/mod.rs: events, the bounded snapshot, the delivery loop of a channel.
-- CircuitBreaker  src/circuit_breaker.rs: the breaker of each key, one function per method; the
--                 clock is an argument in nanoseconds, counters wrap at 2^32 and 2^64.
-- Config          src/config/mod.rs: keys and pools (Config/KeyEntry), the entries of model_to_pool
--                 (Config/Routing) and Config::validate (Config/Validate).
-- BadKeyRegistry  src/router.rs: the registry of excluded keys.
-- Router          src/router.rs and src/chat_service.rs: resolution, selection and demotion.
-- Failover        src/server/handler.rs, chat_completions_handler: the retry loop.
-- Concurrency     src/concurrency.rs: the semaphores per tenant and in all.
-- PromptCache     src/cache/mod.rs: the prompt cache, and the in-memory backend
--                 (PromptCache/Backend).
-- Stream          src/provider/anthropic_stream.rs and gemini_stream.rs: the relays of the upstream's
--                 events (Lines cuts the bytes, Anthropic and Gemini read a line, poll_next is in
--                 Stream). serde_json and the decoding of a line are its interface Json.
-- Pricing         src/config/pricing.rs and src/config_store.rs, compose_pricing: prices, costs and the
--                 four layers of the price table; f64 is the interface Float.
-- Health          src/health.rs, run_health_loop: one round of probes.
-- Credential      src/credential/mod.rs: the cache of OAuth tokens, ensure_fresh.
-- AuthStore       src/auth_store.rs: the client keys, one function per method of AuthStore; a
--                 method returns the new store beside its result.
-- Auth            src/auth/mod.rs, src/auth_store.rs and src/server/middleware.rs: require_auth,
--                 the same check on the store alone, and the guard by address.
-- Json            JSON values as data, with get, insert and remove on objects.
-- ResponseNormalize  src/response_normalize.rs: the think-tag accumulator, and the pass over the
--                 messages of a whole response (ResponseNormalize/Message).
-- StreamNormalize src/server/stream_normalize.rs: the pass over an SSE stream, poll by poll, and the
--                 rewriting of one chunk (StreamNormalize/Delta).
-- Runtime         src/runtime.rs, src/bootstrap.rs and src/provider/registry.rs: the router built from
--                 a snapshot of the configuration, and the task that rebuilds it, whose ticks read
--                 the store four times.
-- ModelCatalog    src/model_catalog.rs: the thinking levels that are advertised, and the translation of
--                 a request's reasoning_effort.
-- RateLimit       src/ratelimit/mod.rs: the token buckets, over an interface for f64.
-- Inspector       src/provider/inspector.rs: what is collected from a stream's lines.
-- Config/Metadata src/config/mod.rs: the metadata of a model in its layers, for_model.
-- ModelImport     src/model_import.rs: the import of a model catalog: which candidate fits
--                 (ModelImport/Match), what is taken from it (ModelImport/Mapping), the rows.
-- Provider        src/types.rs, src/provider/http.rs and the adapters openai.rs, anthropic.rs and
--                 gemini.rs beside it (Provider/OpenAi, Anthropic, Gemini): what is sent, what is made
--                 of the reply and of its errors, and the audit fields of an answer. reqwest and
--                 serde_json are the interface Wire, and the deserialiser that serde derives, the
--                 clock and the random id are arguments.
-- Metrics         src/metrics.rs: the counters and their text.
-- Handler         src/server/handler.rs, chat_completions_handler around the loop of Failover: permit,
--                 cache, route, the request that is sent, and the log, metrics and cache entry of an
--                 answer; compute_cost. The loop is given max_retries + 1 rounds and any number more.
-- Prelude         lists, tests, keys with a Boolean equality, and maps as association lists.
--
-- A method that locks and mutates shared state is a function from the state to the new state; one
-- call is one atomic step. A HashMap or a DashMap is an association list whose first entry of a key
-- counts; the order of its iteration is not claimed anywhere. What the code takes from outside the
-- repository is a parameter: the SHA-256 of a key, the clocks, the weighted sampler of rand (with
-- its documented behaviour as the hypothesis IsWeightedIndex), the token refresh, the upstream.
-- The retry loop runs on fuel, and max_retries + 1 rounds are enough; the delivery loop runs on
-- three rounds, the number of its tries; the cutting of lines and the search for think tags run on one
-- round for each byte and one more. The state that other requests share with the loop is not
-- changed in between its rounds.
--
-- Not modelled: HTTP, JSON and SSE transport (serde_json and UTF-8 are parameters), SQL, logging, the
-- dashboards, the command line and the start-up code that wires the parts together.
pub mod Prelude
pub mod AppError
pub mod Alerts
pub mod CircuitBreaker
pub mod Config
pub mod BadKeyRegistry
pub mod Router
pub mod Runtime
pub mod Failover
pub mod Concurrency
pub mod PromptCache
pub mod Pricing
pub mod Health
pub mod Credential
pub mod RateLimit
pub mod AuthStore
pub mod Auth
pub mod Stream
pub mod Json
pub mod ModelCatalog
pub mod ResponseNormalize
pub mod StreamNormalize
pub mod Handler
pub mod Inspector
pub mod Metrics
pub mod ModelImport
pub mod Provider
