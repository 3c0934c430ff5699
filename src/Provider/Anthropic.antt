-- ===== src/Provider/Anthropic.antt =====
-- src/provider/anthropic.rs: the adapter for Anthropic's Messages API. Sums of `u32` wrap, as they
-- do in a release build.
use llm_proxy.Prelude.{
  ℕ, ◌+◌, ◌%◌, ◌^◌, String, ◌⊎◌, Bool, true, false, not, ◌||◌, Option, none, some, List, [], ◌∷◌,
  ◌++◌, leb, if◌then◌else◌, get_or, is_some, ◌==◌, pair_eq, string_eq, nat_eq,
}
use llm_proxy.Prelude.Text.{join}
use llm_proxy.AppError.{upstream, Result, ok, err, ◌>>=◌}
use llm_proxy.Json.{Value, value_get}
use llm_proxy.Provider.{
  Message, ChatCompletionRequest, ChatCompletionResponse, relayed_anthropic, ProviderResponse, once,
  stream, KeyedProvider, HttpRequest, HttpReply, no_reply, reply, Wire, is_success, is_bad_status,
  upstream_error_message, count_field, integer_field, items, rejected, parsed, stop_sequences,
  anthropic_cache_control, CacheReport, AuditFromProvider, no_cache, no_audit, first_reason,
  first_some, add_text, assistant, joined_system, system_part, text_of,
}
use Prim.Native.String.{◌++◌ as ◌⧺◌}

pub record AnthropicMessage : Type 0 where
  pub role : String
  pub content : String

pub record AnthropicRequest (N F : Type 0) : Type 0 where
  pub model : String
  pub max_tokens : ℕ
  pub system : Option String
  pub messages : List AnthropicMessage
  pub stop_sequences_ : Option (List String)
  pub temperature : Option F
  pub top_p : Option F
  pub thinking : Option (Value N)
  pub stream_ : Bool

pub record AnthropicContent : Type 0 where
  pub type_ : String
  pub text : Option String
  pub thinking : Option String

pub record AnthropicResponse (N : Type 0) : Type 0 where
  pub id : String
  pub model : String
  pub content : List AnthropicContent
  pub stop_reason : Option String
  pub usage : Value N

-- Where the parts of the contents go: reasoning and text.
unfoldable pub split_contents : List AnthropicContent → List String × List String
split_contents [] = ([], [])
split_contents (c ∷ cs) =
    let (reasons, texts) = split_contents cs in
    if c.type_ == "thinking"
    then (add_text c.thinking reasons, texts)
    else if c.type_ == "text"
    then (reasons, add_text c.text texts)
    else (reasons, texts)

abbrev pub join_parts : List String → Option String
join_parts [] = none
join_parts (s ∷ ss) = some (join "" (s ∷ ss))

abbrev pub finish_reason_of : Option String → Option String
finish_reason_of none = none
finish_reason_of (some s) =
    if s == "end_turn"
    then some "stop"
    else if s == "max_tokens"
    then some "length"
    else if s == "stop_sequence"
    then some "stop"
    else if s == "tool_use"
    then some "tool_calls"
    else none

module _ {N W C : Type 0} (wire : Wire N W C) where
  abbrev anthropic_cache : Value N → CacheReport
  anthropic_cache raw =
      let hit = integer_field wire "cache_read_input_tokens" (some raw) in
      let creation = integer_field wire "cache_creation_input_tokens" (some raw) in
      if is_some hit || is_some creation
      then record { hit_tokens = hit; creation_tokens = creation; source = anthropic_cache_control }
      else no_cache

  abbrev cache_of : Option (Value N) → CacheReport
  cache_of none = no_cache
  cache_of (some raw) = anthropic_cache raw

module _ {N T W C : Type 0} (wire : Wire N W C) where
  -- The loop over the messages.
  unfoldable pub gather :
      List String → List AnthropicMessage → List (Message N T) → List String × List AnthropicMessage
  gather system_parts messages [] = (system_parts, messages)
  gather system_parts messages (m ∷ ms) =
      if m.role == "system"
      then gather (system_part m.content system_parts) messages ms
      else if m.role == "user" || m.role == "assistant"
      then gather system_parts
          (messages ++ record { role = m.role; content = text_of wire m.content } ∷ []) ms
      else gather system_parts messages ms

  -- The clock's reading `now` is in seconds.
  unfoldable pub anthropic_to_openai : ℕ → AnthropicResponse N → String → ChatCompletionResponse N T
  unfolding split_contents join
  anthropic_to_openai now an model =
      let (reasons, texts) = split_contents an.content in
      let prompt = get_or (count_field wire "input_tokens" (some an.usage)) 0 % 2 ^ 32 in
      let completion = get_or (count_field wire "output_tokens" (some an.usage)) 0 % 2 ^ 32 in
      record {
        id = an.id;
        object_ = "chat.completion";
        created = now;
        model = model;
        choices =
            record {
              index = 0;
              message = assistant (join "" texts) (join_parts reasons);
              finish_reason = finish_reason_of an.stop_reason;
            }
            ∷ [];
        usage = some (record {
          prompt_tokens = prompt;
          completion_tokens = completion;
          total_tokens = (prompt + completion) % 2 ^ 32;
        });
        raw_usage_json = none;
      }

  unfoldable pub extract_audit : ProviderResponse N T C → AuditFromProvider
  extract_audit (once r) = record no_audit {
    cache = cache_of wire r.raw_usage_json;
    upstream_model = some r.model;
    finish_reason = first_reason r.choices;
  }
  extract_audit (stream body) = no_audit

module _ {N F T W C : Type 0} (wire : Wire N W C) where
  unfoldable pub openai_to_anthropic_base :
      ChatCompletionRequest N F T → Bool → AnthropicRequest N F
  unfolding gather stop_sequences join value_get
  openai_to_anthropic_base req streamed =
      let (system_parts, messages) = gather wire [] [] req.messages in
      record {
        model = req.model;
        max_tokens = get_or req.max_tokens 4096;
        system = joined_system system_parts;
        messages = messages;
        stop_sequences_ = stop_sequences req.stop;
        temperature = req.temperature;
        top_p = req.top_p;
        thinking =
            first_some (value_get "thinking" req.extra) (value_get "thinking_config" req.extra);
        stream_ = streamed;
      }

  module _ (send : HttpRequest (AnthropicRequest N F) → HttpReply W)
      (from_value : Value N → String ⊎ AnthropicResponse N) (now : ℕ) where
    abbrev once_of : String → Value N × AnthropicResponse N → Result (ProviderResponse N T C)
    once_of model (raw, an) = ok (
        once (record (anthropic_to_openai wire now an model) {
          raw_usage_json = value_get "usage" raw;
        }))

    -- A streamed answer is relayed; its error is retryable only for a status from 500 on.
    abbrev stream_reply : KeyedProvider → String → HttpReply W → Result (ProviderResponse N T C)
    stream_reply p model (no_reply e) = err (upstream none true false ("stream connect: " ⧺ e))
    stream_reply p model (reply status content_type body) =
        if not (is_success status)
        then err (
            upstream (some status) (leb 500 status) (is_bad_status p status)
              (upstream_error_message wire status body))
        else ok (stream (relayed_anthropic model (items wire "stream error: " body)))

    abbrev once_reply : KeyedProvider → String → HttpReply W → Result (ProviderResponse N T C)
    once_reply p model (no_reply e) =
        err (upstream none true false ("anthropic connect error: " ⧺ e))
    once_reply p model (reply status content_type body) =
        if is_success status
        then parsed wire status "parse error: " "deserialize error: " from_value body
          >>= once_of model
        else err (rejected wire p (leb 500 status) status body)

    unfoldable pub chat :
        KeyedProvider → ChatCompletionRequest N F T → String → Result (ProviderResponse N T C)
    unfolding openai_to_anthropic_base anthropic_to_openai upstream_error_message value_get
    chat p req key =
        let url = p.base_url ⧺ "/messages" in
        let headers = ("x-api-key", key) ∷ ("anthropic-version", "2023-06-01") ∷ [] in
        if get_or req.stream_ false
        then stream_reply p req.model (
            send
              (record { url = url; headers = headers; json = openai_to_anthropic_base req true }))
        else once_reply p req.model (
            send (record {
              url = url;
              headers = headers ++ ("content-type", "application/json") ∷ [];
              json = openai_to_anthropic_base req false;
            }))
