-- ===== src/Inspector.antt =====
-- src/provider/inspector.rs: what is collected from the lines of a stream (`StreamInspector`). Of
-- `serde_json`, UTF-8 and `memchr` the code takes what `Reader` lists; an `Instant` counts
-- nanoseconds.
pub mod Last
mod Examples
use llm_proxy.Prelude.{
  ℕ, ◌-◌, ◌/◌, String, Bool, not, Option, none, some, List, [], ◌∷◌, if◌then◌else◌, get_or, is_some,
  any, ◌==◌, pair_eq, string_eq, nat_eq,
}
use llm_proxy.Prelude.Text.{trim, strip_prefix}
use llm_proxy.Json.{Value, null, number, Items, no_items, item, value_get, as_str, get_in, items_of}

-- `N` are JSON's numbers, `I` the `i64`s, `U` the parsed `Usage`.
pub record Reader (N I U : Type 0) : Type 0 where
  pub from_str : String → Option (Value N)
  pub from_utf8 : List ℕ → Option String
  pub contains : List ℕ → String → Bool
  pub usage_from_value : Value N → Option U
  pub as_i64 : N → Option I
  pub positive : I → Bool
  pub zero_i64 : I

-- `ProviderCacheKind`, as far as the inspector sets it.
pub data CacheSource : Type 0 where
  no_cache open_ai_prompt_cache : CacheSource

pub record StreamInspector (N I U : Type 0) : Type 0 where
  pub accumulated_usage : Option U
  pub finish_reason : Option String
  pub upstream_model : Option String
  pub raw_usage_json : Option (Value N)
  pub first_chunk_at : Option ℕ
  pub start_at : ℕ
  pub reasoning_tokens : I
  pub audio_tokens : I
  pub cache_hit_tokens : Option I
  pub cache_source : CacheSource

-- The loop over the choices; the text "null" does not count.
abbrev pub counted_reason : Option String → Option String
counted_reason none = none
counted_reason (some fr) = if fr == "null" then none else some fr

abbrev pub later {ℓ} : {A : Type ℓ} → Option A → Option A → Option A
later old none = old
later old (some new_) = some new_

module _ {N : Type 0} where
  unfoldable pub finish_in : Option String → Items N → Option String
  finish_in fr no_items = fr
  finish_in fr (item choice choices) =
      finish_in (later fr (counted_reason (as_str (value_get "finish_reason" choice)))) choices

module _ {N I U : Type 0} (reader : Reader N I U) where
  unfoldable pub new_started_at : ℕ → StreamInspector N I U
  new_started_at start_at = record {
    accumulated_usage = none;
    finish_reason = none;
    upstream_model = none;
    raw_usage_json = none;
    first_chunk_at = none;
    start_at = start_at;
    reasoning_tokens = reader.zero_i64;
    audio_tokens = reader.zero_i64;
    cache_hit_tokens = none;
    cache_source = no_cache;
  }

  unfoldable pub ttft_ms : StreamInspector N I U → Option ℕ
  ttft_ms i = elim i.first_chunk_at [
    | none ↦ none
    | some at_ ↦ some ((at_ - i.start_at) / 1_000_000)
  ]

  -- The pre-filter: a line without one of the words is not parsed.
  abbrev interesting : List ℕ → Bool
  interesting line =
      any (reader.contains line) ("usage" ∷ "finish_reason" ∷ "model" ∷ "[DONE]" ∷ [])

  abbrev parsed_text : Option String → Option (Value N)
  parsed_text none = none
  parsed_text (some payload) = reader.from_str payload

  abbrev parsed_line : Option String → Option (Value N)
  parsed_line none = none
  parsed_line (some s) =
      if trim s == "data: [DONE]" then none else parsed_text (strip_prefix "data: " (trim s))

  -- The chunk that a line holds, if any.
  unfoldable pub chunk_of : List ℕ → Option (Value N)
  chunk_of line = if interesting line then parsed_line (reader.from_utf8 line) else none

  abbrev number_of : Option (Value N) → Option I
  number_of (some (number n)) = reader.as_i64 n
  number_of (some v) = none
  number_of none = none

  abbrev usage_of : Option (Value N) → Option U
  usage_of none = none
  usage_of (some u) = reader.usage_from_value u

  abbrev raw_of : Option (Value N) → Option (Value N)
  raw_of none = none
  raw_of (some u) = if is_some (reader.usage_from_value u) then some u else none

  abbrev source_after : CacheSource → Option I → CacheSource
  source_after old none = old
  source_after old (some n) = open_ai_prompt_cache

  unfoldable pub absorb : StreamInspector N I U → Value N → StreamInspector N I U
  unfolding value_get finish_in
  absorb i chunk =
      let usage = value_get "usage" chunk in
      let cached = number_of (get_in "cached_tokens" (get_in "prompt_tokens_details" usage)) in
      let details = get_in "completion_tokens_details" usage in
      record i {
        upstream_model = later i.upstream_model (as_str (value_get "model" chunk));
        accumulated_usage = later i.accumulated_usage (usage_of usage);
        raw_usage_json = later i.raw_usage_json (raw_of usage);
        finish_reason = finish_in i.finish_reason (items_of (value_get "choices" chunk));
        cache_hit_tokens = later i.cache_hit_tokens cached;
        cache_source = source_after i.cache_source cached;
        reasoning_tokens =
            get_or (number_of (get_in "reasoning_tokens" details)) i.reasoning_tokens;
        audio_tokens = get_or (number_of (get_in "audio_tokens" details)) i.audio_tokens;
      }

  abbrev started : ℕ → StreamInspector N I U → StreamInspector N I U
  started now i = record i { first_chunk_at = later (some now) i.first_chunk_at }

  abbrev absorbed : StreamInspector N I U → Option (Value N) → StreamInspector N I U
  absorbed i none = i
  absorbed i (some chunk) = absorb i chunk

  unfoldable pub ingest_chunk : ℕ → StreamInspector N I U → List ℕ → StreamInspector N I U
  unfolding chunk_of absorb
  ingest_chunk now i line = absorbed (started now i) (chunk_of line)

  -- The lines of a stream, each with the clock's reading.
  unfoldable pub ingest_all : StreamInspector N I U → List (ℕ × List ℕ) → StreamInspector N I U
  unfolding ingest_chunk
  ingest_all i [] = i
  ingest_all i ((now, line) ∷ lines) = ingest_all (ingest_chunk now i line) lines

  -- The part of `AuditFromProvider` that the stream decides.
  pub record AuditFromStream : Type 0 where
    pub hit_tokens : Option I
    pub source : CacheSource
    pub reasoning : Option I
    pub audio : Option I
    pub model : Option String
    pub finish : Option String

  abbrev if_positive : I → Option I
  if_positive n = if reader.positive n then some n else none

  unfoldable pub into_audit : StreamInspector N I U → AuditFromStream
  into_audit i = record {
    hit_tokens = i.cache_hit_tokens;
    source = i.cache_source;
    reasoning = if_positive i.reasoning_tokens;
    audio = if_positive i.audio_tokens;
    model = i.upstream_model;
    finish = i.finish_reason;
  }
