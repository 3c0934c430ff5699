-- ===== src/Provider/Examples.antt =====
-- Tests of the adapters, and their theorems at concrete inputs.
use llm_proxy.Prelude.{
  ℕ, String, ◌≡◌, refl, inl, inr, Bool, true, false, Option, none, some, [], ◌∷◌, map, arith,
  if◌then◌else◌, filter_by, ◌==◌, pair_eq, string_eq, nat_eq,
}
use llm_proxy.Prelude.Assoc.{lookup}
use llm_proxy.Prelude.Text.{join, split_words, char_count}
use llm_proxy.AppError.{upstream, internal, Result, ok, err}
use llm_proxy.Json.{null, number, string, object, no_fields, field, get, value_get}
use llm_proxy.Config.Validate.{pos}
use llm_proxy.Config.KeyEntry.{api_key, KeyEntry}
use llm_proxy.Provider.{
  Message, ChatCompletionRequest, ProviderResponse, KeyedProvider, reply, Wire, truncate_error_body,
  format_upstream_error, upstream_error_message, joined_system,
}
use llm_proxy.Provider.Signals.{signal, chat-signal}
use llm_proxy.Provider.Conversation.{content_of, is_turn, system_texts, turn, requests_agree}
use llm_proxy.Failover.{Env, State, Verdict, call_upstream}
use llm_proxy.Failover.Streamed.{stream-surfaced}
use llm_proxy.Router.{is_selectable, healthy_key_count, try_demote}
use llm_proxy.BadKeyRegistry.{is_bad}
use llm_proxy.Provider.OpenAi
use llm_proxy.Provider.Anthropic
use llm_proxy.Provider.Gemini
use mathlib.Core.Option

-- A body is its text; as JSON it is that text.
abbrev plain_wire : Wire ℕ String String
plain_wire = record {
  text = λ body. some body;
  json = λ body. inr (string body);
  bytes_stream = λ body. inr body ∷ [];
  from_str = λ s. none;
  print = λ v. "null";
  to_string = λ n. if n == 429 then "429" else "?";
  as_u64 = λ n. some n;
  as_i64 = λ n. some (pos n);
}

abbrev message : String → String → Message ℕ ℕ
message role text = record {
  role = role;
  content = string text;
  name = none;
  tool_calls = none;
  tool_call_id = none;
}

abbrev request : Option Bool → ChatCompletionRequest ℕ ℕ ℕ
request streamed = record {
  model = "m";
  messages =
      message "system" "be brief"
      ∷ message "user" "hi"
      ∷ message "tool" "42"
      ∷ message "assistant" "hello"
      ∷ [];
  stream_ = streamed;
  max_tokens = none;
  temperature = none;
  top_p = none;
  stop = some (string "END");
  presence_penalty = none;
  frequency_penalty = none;
  user = none;
  tools = none;
  tool_choice = none;
  stream_options = none;
  extra = null;
}

abbrev listed : KeyedProvider
listed = record { id = "p"; base_url = "https://up"; bad_status_codes = 401 ∷ 429 ∷ [] }

collapsed : format_upstream_error plain_wire 429 "  too  many " ≡ "upstream 429: too many"
unfolding format_upstream_error truncate_error_body join split_words char_count
collapsed = refl

turns :
    (Anthropic.openai_to_anthropic_base plain_wire (request none) false).messages
    ≡ record { role = "user"; content = "hi" }
      ∷ record { role = "assistant"; content = "hello" }
      ∷ []
unfolding Anthropic.openai_to_anthropic_base Anthropic.gather
turns = refl

answer : Anthropic.AnthropicResponse ℕ
answer = record {
  id = "a";
  model = "c";
  content =
      record { type_ = "thinking"; text = none; thinking = some "hm" }
      ∷ record { type_ = "text"; text = some "yes"; thinking = none }
      ∷ [];
  stop_reason = some "end_turn";
  usage = object (field "input_tokens" (number 3) (field "output_tokens" (number 4) no_fields));
}

converted :
    (Anthropic.anthropic_to_openai {T = ℕ} plain_wire 0 answer "m").usage
    ≡ some (record { prompt_tokens = 3; completion_tokens = 4; total_tokens = 7 })
unfolding Anthropic.anthropic_to_openai answer get value_get join
converted = refl

requests_agree_example :
    let a = Anthropic.openai_to_anthropic_base plain_wire (request none) true in
    let g = Gemini.openai_to_gemini plain_wire (request none) in
    (a.messages ≡ map (turn plain_wire) (filter_by (is_turn plain_wire) (request none).messages))
    × (a.system ≡ joined_system (system_texts plain_wire (request none).messages))
    × (g.contents ≡ map content_of a.messages)
    × (g.system_instruction ≡ Gemini.instruction a.system)
    × (Option.map (λ c. c.stop_sequences_) g.generation_config ≡ some a.stop_sequences_)
requests_agree_example = requests_agree plain_wire (request none) true

chat-signal_example :
    let e : Result (ProviderResponse ℕ ℕ String) =
      err (signal listed 429 (upstream_error_message plain_wire 429 "no")) in
    (OpenAi.chat {J = String} plain_wire
        (λ (r : ChatCompletionRequest ℕ ℕ ℕ). inr "{}")
        (λ _. reply 429 none "no")
        (λ v. inl "")
        listed
        (request none)
        "k"
      ≡ e)
    × (Anthropic.chat plain_wire
          (λ _. reply 429 none "no")
          (λ v. inl "")
          0
          listed
          (request none)
          "k"
        ≡ e)
    × (Gemini.chat plain_wire
          (λ _. reply 429 none "no")
          (λ v. inl "")
          "id"
          0
          listed
          (request none)
          "k"
        ≡ e)
chat-signal_example =
    chat-signal {J = String} plain_wire (λ (r : ChatCompletionRequest ℕ ℕ ℕ). inr "{}")
      (λ v. inl "") (λ v. inl "") (λ v. inl "") "id" 0 listed (request none) "k" 429 none "no" "{}"
      refl refl refl (omega arith)

abbrev key_a : KeyEntry
key_a = record {
  key = "a";
  weight = 1;
  cred_type = api_key;
  refresh = none;
  expires = none;
  issuer = none;
  identity = some "a";
}

abbrev surroundings : Env (ProviderResponse ℕ ℕ String)
surroundings = record {
  compute_key_hash = λ s. s;
  pool = record { keys = key_a ∷ record key_a { key = "b"; identity = some "b" } ∷ [] };
  pool_id = "p";
  max_retries = 1;
  bad_status_codes = 401 ∷ 429 ∷ [];
  min_error_burst = 3;
  sample = λ n ws. none;
  ensure_fresh = λ n k. ok k;
  chat = λ n k. err (internal "unused");
  instant = λ n. n;
  now_ms = λ n. n;
  to_string = λ n. "1";
}

abbrev first_attempt : State
first_attempt = record {
  attempts = 1;
  retries = [];
  bad = [];
  circuits = record {
    circuits = [];
    failure_threshold = 5;
    cooldown_secs = 60;
    half_open_max = 3;
    total_trips = 0;
  };
  bursts = [];
  key_demotions = 0;
  alerts = [];
  calls = [];
}

demotes : (try_demote (λ s. s) [] surroundings.pool "p" key_a).1 ≡ true
unfolding try_demote healthy_key_count is_selectable is_bad lookup
demotes = refl

stream-surfaced_example :
    let msg = upstream_error_message plain_wire 429 "no" in
    let surfaced_ : Verdict (ProviderResponse ℕ ℕ String) =
      some (err (upstream (some 429) false false msg)) in
    ((call_upstream surroundings first_attempt key_a (
        Anthropic.chat plain_wire
          (λ _. reply 429 none "no")
          (λ v. inl "")
          0
          listed
          (request (some true))
          "a")).1
      ≡ surfaced_)
    × ((call_upstream surroundings first_attempt key_a (
          Gemini.chat plain_wire
            (λ _. reply 429 none "no")
            (λ v. inl "")
            "id"
            0
            listed
            (request (some true))
            "a")).1
        ≡ surfaced_)
    × ((call_upstream surroundings first_attempt key_a (err (signal listed 429 msg))).1 ≡ none)
stream-surfaced_example =
    stream-surfaced plain_wire surroundings first_attempt key_a (λ v. inl "") (λ v. inl "") "id" 0
      listed (request (some true)) 429 none "no" refl refl refl (omega arith) refl demotes refl
