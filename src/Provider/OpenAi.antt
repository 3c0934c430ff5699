-- ===== src/Provider/OpenAi.antt =====
-- src/provider/openai.rs: the adapter for upstreams that speak the OpenAI API. `J` is the text that
-- is sent; the printing of a request may fail with a message.
use llm_proxy.Prelude.{
  String, ◌⊎◌, inl, inr, Bool, true, false, Option, none, some, [], ◌∷◌, if◌then◌else◌, pair_eq,
  string_eq, nat_eq,
}
use llm_proxy.AppError.{upstream, internal, Result, ok, err, ◌>>=◌}
use llm_proxy.Json.{Value, value_get, get_in}
use llm_proxy.Config.Validate.{ℤ}
use llm_proxy.Provider.{
  ChatCompletionRequest, ChatCompletionResponse, forwarded, ProviderResponse, once, stream,
  KeyedProvider, HttpRequest, HttpReply, no_reply, reply, Wire, is_success, is_server_error,
  upstream_error_message, integer_field, items, rejected, parsed, open_ai_prompt_cache,
  deep_seek_prompt_cache, CacheReport, AuditFromProvider, no_cache, no_audit, first_reason,
}
use Prim.Native.String.{◌++◌ as ◌⧺◌}
use text.Mathlib.Text.{starts_with}

abbrev is_event_stream : Option String → Bool
is_event_stream none = false
is_event_stream (some content_type) = starts_with content_type "text/event-stream"

module _ {N W C : Type 0} (wire : Wire N W C) where
  abbrev deep_seek_cache : Option ℤ → CacheReport
  deep_seek_cache none = no_cache
  deep_seek_cache (some cached) = record {
    hit_tokens = some cached;
    creation_tokens = none;
    source = deep_seek_prompt_cache;
  }

  abbrev open_ai_cache : Value N → Option ℤ → CacheReport
  open_ai_cache raw none = deep_seek_cache (integer_field wire "prompt_cache_hit_tokens" (some raw))
  open_ai_cache raw (some cached) = record {
    hit_tokens = some cached;
    creation_tokens = none;
    source = open_ai_prompt_cache;
  }

  unfoldable pub extract_cache_from_usage : Value N → CacheReport
  unfolding value_get
  extract_cache_from_usage raw =
      open_ai_cache raw (integer_field wire "cached_tokens" (value_get "prompt_tokens_details" raw))

  abbrev cache_of : Option (Value N) → CacheReport
  cache_of none = no_cache
  cache_of (some raw) = extract_cache_from_usage raw

  -- `/completion_tokens_details/…`
  abbrev detail : String → Option (Value N) → Option ℤ
  detail name raw = integer_field wire name (get_in "completion_tokens_details" raw)

  unfoldable pub probe_openai : HttpReply W → Result (Unit {0})
  probe_openai (no_reply e) = err (upstream none true false ("probe connect error: " ⧺ e))
  probe_openai (reply status content_type body) =
      if is_success status
      then ok tt
      else err (upstream (some status) true false ("probe returned " ⧺ wire.to_string status))

module _ {N T W C : Type 0} (wire : Wire N W C) where
  unfoldable pub extract_audit : ProviderResponse N T C → AuditFromProvider
  unfolding extract_cache_from_usage value_get
  extract_audit (once r) = record {
    cache = cache_of wire r.raw_usage_json;
    reasoning_tokens = detail wire "reasoning_tokens" r.raw_usage_json;
    audio_tokens = detail wire "audio_tokens" r.raw_usage_json;
    upstream_model = some r.model;
    system_fingerprint = none;
    finish_reason = first_reason r.choices;
  }
  extract_audit (stream body) = no_audit

module _ {N F T W C J : Type 0} (wire : Wire N W C)
    (to_vec : ChatCompletionRequest N F T → String ⊎ J) (send : HttpRequest J → HttpReply W)
    (from_value : Value N → String ⊎ ChatCompletionResponse N T) where
  abbrev once_of : Value N × ChatCompletionResponse N T → Result (ProviderResponse N T C)
  once_of (raw, resp) = ok (once (record resp { raw_usage_json = value_get "usage" raw }))

  abbrev parse_label : String
  parse_label = "failed to parse upstream response: "

  abbrev replied : KeyedProvider → HttpReply W → Result (ProviderResponse N T C)
  replied p (no_reply e) = err (upstream none true false ("upstream connect error: " ⧺ e))
  replied p (reply status content_type body) =
      if is_success status
      then (if is_event_stream content_type
          then ok (stream (forwarded (items wire "stream read error: " body)))
          else parsed wire status parse_label parse_label from_value body >>= once_of)
      else err (rejected wire p (is_server_error status) status body)

  abbrev sent : KeyedProvider → String → String ⊎ J → Result (ProviderResponse N T C)
  sent p key (inl e) = err (internal ("failed to serialize request: " ⧺ e))
  sent p key (inr body) = replied p (
      send (record {
        url = p.base_url ⧺ "/chat/completions";
        headers = ("authorization", "Bearer " ⧺ key) ∷ ("content-type", "application/json") ∷ [];
        json = body;
      }))

  unfoldable pub chat :
      KeyedProvider → ChatCompletionRequest N F T → String → Result (ProviderResponse N T C)
  unfolding upstream_error_message value_get
  chat p req key = sent p key (to_vec req)
