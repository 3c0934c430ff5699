-- ===== src/Provider/Gemini.antt =====
-- src/provider/gemini.rs: the adapter for Gemini's generateContent API. Sums of `u32` wrap, as they
-- do in a release build.
use llm_proxy.Prelude.{
  ℕ, ◌+◌, ◌%◌, ◌^◌, String, ◌⊎◌, Bool, true, false, not, ◌||◌, Option, none, some, List, [], ◌∷◌,
  ◌++◌, ltb, leb, if◌then◌else◌, get_or, ◌==◌, pair_eq, string_eq, nat_eq,
}
use llm_proxy.Prelude.Text.{join}
use llm_proxy.AppError.{upstream, Result, ok, err, ◌>>=◌}
use llm_proxy.Json.{Value, value_get}
use llm_proxy.Config.Validate.{ℤ}
use llm_proxy.Provider.{
  Message, ChatCompletionRequest, ChatCompletionResponse, relayed_gemini, ProviderResponse, once,
  stream, KeyedProvider, HttpRequest, HttpReply, no_reply, reply, Wire, is_success, is_bad_status,
  upstream_error_message, count_field, integer_field, items, rejected, parsed, stop_sequences,
  gemini_cached_content, CacheReport, AuditFromProvider, no_cache, no_audit, first_reason,
  first_some, add_text, assistant, joined_system, system_part, text_of,
}
use Prim.Native.String.{◌++◌ as ◌⧺◌}
use llm_proxy.Provider.Anthropic.{join_parts}

pub record GeminiContent : Type 0 where
  pub role : String
  pub parts : List String

pub record GeminiGenerationConfig (N F : Type 0) : Type 0 where
  pub max_output_tokens : Option ℕ
  pub temperature : Option F
  pub top_p : Option F
  pub stop_sequences_ : Option (List String)
  pub thinking_config : Option (Value N)

pub record GeminiRequest (N F : Type 0) : Type 0 where
  pub contents : List GeminiContent
  pub system_instruction : Option (List String)
  pub generation_config : Option (GeminiGenerationConfig N F)

pub record GeminiResponsePart : Type 0 where
  pub text : Option String
  pub thought : Bool

pub record GeminiCandidate : Type 0 where
  pub parts : List GeminiResponsePart
  pub finish_reason : Option String

pub record GeminiResponse (N : Type 0) : Type 0 where
  pub candidates : List GeminiCandidate
  pub usage_metadata : Option (Value N)

-- Where the texts of the parts go: reasoning and answer.
unfoldable pub split_parts : List GeminiResponsePart → List String × List String
split_parts [] = ([], [])
split_parts (p ∷ ps) =
    let (reasons, answers) = split_parts ps in
    if p.thought then (add_text p.text reasons, answers) else (reasons, add_text p.text answers)

abbrev parts_of : List GeminiCandidate → List GeminiResponsePart
parts_of [] = []
parts_of (c ∷ cs) = c.parts

abbrev pub finish_of : String → String
finish_of fr =
    if fr == "STOP"
    then "stop"
    else if fr == "MAX_TOKENS"
    then "length"
    else if fr == "SAFETY" || fr == "RECITATION"
    then "content_filter"
    else "stop"

abbrev reason_of : List GeminiCandidate → Option String
reason_of [] = none
reason_of (c ∷ cs) = elim c.finish_reason [ none ↦ none | some fr ↦ some (finish_of fr) ]

abbrev total_of : ℕ → ℕ → ℕ → ℕ
total_of from_field prompt completion =
    if ltb 0 from_field then from_field else (prompt + completion) % 2 ^ 32

abbrev gemini_cache : Option ℤ → CacheReport
gemini_cache none = no_cache
gemini_cache (some cached) = record {
  hit_tokens = some cached;
  creation_tokens = none;
  source = gemini_cached_content;
}

abbrev pub instruction : Option String → Option (List String)
instruction none = none
instruction (some text) = some (text ∷ [])

module _ {N T W C : Type 0} (wire : Wire N W C) where
  -- The loop over the messages.
  unfoldable pub gather :
      List String → List GeminiContent → List (Message N T) → List String × List GeminiContent
  gather system_texts contents [] = (system_texts, contents)
  gather system_texts contents (m ∷ ms) =
      if m.role == "system"
      then gather (system_part m.content system_texts) contents ms
      else if m.role == "user"
      then gather system_texts
          (contents ++ record { role = "user"; parts = text_of wire m.content ∷ [] } ∷ []) ms
      else if m.role == "assistant"
      then gather system_texts
          (contents ++ record { role = "model"; parts = text_of wire m.content ∷ [] } ∷ []) ms
      else gather system_texts contents ms

  -- The random id and the clock's reading in seconds are arguments.
  unfoldable pub gemini_to_openai :
      String → ℕ → GeminiResponse N → String → ChatCompletionResponse N T
  unfolding split_parts join
  gemini_to_openai fresh_id now gm model =
      let (reasons, answers) = split_parts (parts_of gm.candidates) in
      let prompt = get_or (count_field wire "promptTokenCount" gm.usage_metadata) 0 % 2 ^ 32 in
      let completion =
        get_or (count_field wire "candidatesTokenCount" gm.usage_metadata) 0 % 2 ^ 32 in
      let from_field = get_or (count_field wire "totalTokenCount" gm.usage_metadata) 0 % 2 ^ 32 in
      record {
        id = fresh_id;
        object_ = "chat.completion";
        created = now;
        model = model;
        choices =
            record {
              index = 0;
              message = assistant (join "" answers) (join_parts reasons);
              finish_reason = reason_of gm.candidates;
            }
            ∷ [];
        usage = some (record {
          prompt_tokens = prompt;
          completion_tokens = completion;
          total_tokens = total_of from_field prompt completion;
        });
        raw_usage_json = none;
      }

  unfoldable pub extract_audit : ProviderResponse N T C → AuditFromProvider
  extract_audit (once r) = record no_audit {
    cache = gemini_cache (integer_field wire "cachedContentTokenCount" r.raw_usage_json);
    upstream_model = some r.model;
    finish_reason = first_reason r.choices;
  }
  extract_audit (stream body) = no_audit

module _ {N F T W C : Type 0} (wire : Wire N W C) where
  unfoldable pub openai_to_gemini : ChatCompletionRequest N F T → GeminiRequest N F
  unfolding gather stop_sequences join value_get
  openai_to_gemini req =
      let (system_texts, contents) = gather wire [] [] req.messages in
      record {
        contents = contents;
        system_instruction = instruction (joined_system system_texts);
        generation_config = some (record {
          max_output_tokens = some (get_or req.max_tokens 8192);
          temperature = req.temperature;
          top_p = req.top_p;
          stop_sequences_ = stop_sequences req.stop;
          thinking_config =
              first_some (value_get "thinkingConfig" req.extra) (
                first_some (value_get "thinking_config" req.extra)
                  (value_get "thinking" req.extra));
        });
      }

  module _ (send : HttpRequest (GeminiRequest N F) → HttpReply W)
      (from_value : Value N → String ⊎ GeminiResponse N) (fresh_id : String) (now : ℕ) where
    abbrev once_of : String → Value N × GeminiResponse N → Result (ProviderResponse N T C)
    once_of model (raw, gm) = ok (
        once (record (gemini_to_openai wire fresh_id now gm model) {
          raw_usage_json = value_get "usageMetadata" raw;
        }))

    abbrev stream_reply : KeyedProvider → String → HttpReply W → Result (ProviderResponse N T C)
    stream_reply p model (no_reply e) = err (upstream none true false ("stream connect: " ⧺ e))
    stream_reply p model (reply status content_type body) =
        if not (is_success status)
        then err (
            upstream (some status) (leb 500 status) (is_bad_status p status)
              (upstream_error_message wire status body))
        else ok (stream (relayed_gemini model (items wire "stream error: " body)))

    abbrev once_reply : KeyedProvider → String → HttpReply W → Result (ProviderResponse N T C)
    once_reply p model (no_reply e) = err (upstream none true false ("gemini connect error: " ⧺ e))
    once_reply p model (reply status content_type body) =
        if is_success status
        then parsed wire status "parse error: " "deserialize error: " from_value body
          >>= once_of model
        else err (rejected wire p (leb 500 status) status body)

    unfoldable pub chat :
        KeyedProvider → ChatCompletionRequest N F T → String → Result (ProviderResponse N T C)
    unfolding openai_to_gemini gemini_to_openai upstream_error_message value_get
    chat p req key =
        let models = p.base_url ⧺ ("/models/" ⧺ req.model) in
        let headers = ("x-goog-api-key", key) ∷ [] in
        if get_or req.stream_ false
        then stream_reply p req.model (
            send (record {
              url = models ⧺ ":streamGenerateContent?alt=sse";
              headers = headers;
              json = openai_to_gemini req;
            }))
        else once_reply p req.model (
            send (record {
              url = models ⧺ ":generateContent";
              headers = headers ++ ("content-type", "application/json") ∷ [];
              json = openai_to_gemini req;
            }))
