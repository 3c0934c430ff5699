-- ===== src/Provider.antt =====
-- src/types.rs and src/provider: what the adapters share: the OpenAI request and response, the HTTP
-- exchange with the upstream and the message that is made of its error. `N` are JSON's numbers, `F`
-- is `f64`, `T` a list of tool calls, `W` the body of a reply and `C` a chunk of bytes. Of
-- serde_json and reqwest the code takes what `Wire` lists.
pub mod OpenAi
pub mod Anthropic
pub mod Gemini
pub mod Signals
pub mod Conversation
mod Examples
use llm_proxy.Prelude.{
  ℕ, String, ◌⊎◌, inl, inr, Bool, true, false, not, ◌&&◌, Option, none, some, List, [], ◌∷◌, ◌++◌,
  map, ltb, leb, if◌then◌else◌, get_or, any, ◌==◌, pair_eq, string_eq, nat_eq,
}
use llm_proxy.Prelude.Text.{trim, join, split_words, char_count, take_chars}
use llm_proxy.AppError.{AppError, upstream, Result, ok, err}
use llm_proxy.Json.{Value, number, string, array, Items, no_items, item, value_get, as_str, get_in}
use llm_proxy.Config.Validate.{ℤ}
use llm_proxy.ResponseNormalize.Message.{ResponseMessage}
use Prim.Native.String.{◌++◌ as ◌⧺◌}

pub record Message (N T : Type 0) : Type 0 where
  pub role : String
  pub content : Value N
  pub name : Option String
  pub tool_calls : Option T
  pub tool_call_id : Option String

pub record ChatCompletionRequest (N F T : Type 0) : Type 0 where
  pub model : String
  pub messages : List (Message N T)
  pub stream_ : Option Bool
  pub max_tokens : Option ℕ
  pub temperature : Option F
  pub top_p : Option F
  pub stop : Option (Value N)
  pub presence_penalty : Option F
  pub frequency_penalty : Option F
  pub user : Option String
  pub tools : Option (Value N)
  pub tool_choice : Option (Value N)
  pub stream_options : Option (Value N)
  pub extra : Value N

pub record Usage : Type 0 where
  pub prompt_tokens : ℕ
  pub completion_tokens : ℕ
  pub total_tokens : ℕ

pub record Choice (N T : Type 0) : Type 0 where
  pub index : ℕ
  pub message : ResponseMessage N T
  pub finish_reason : Option String

pub record ChatCompletionResponse (N T : Type 0) : Type 0 where
  pub id : String
  pub object_ : String
  pub created : ℕ
  pub model : String
  pub choices : List (Choice N T)
  pub usage : Option Usage
  pub raw_usage_json : Option (Value N)

-- The body of a streamed answer: the upstream's chunks, as they are or relayed (Stream).
pub data Body (C : Type 0) : Type 0 where
  forwarded : List (Result C) → Body C
  relayed_anthropic relayed_gemini : String → List (Result C) → Body C

pub data ProviderResponse (N T C : Type 0) : Type 0 where
  once : ChatCompletionResponse N T → ProviderResponse N T C
  stream : Body C → ProviderResponse N T C

pub record KeyedProvider : Type 0 where
  pub id : String
  pub base_url : String
  pub bad_status_codes : List ℕ

-- A POST: the URL, the headers and the JSON that is sent.
pub record HttpRequest (J : Type 0) : Type 0 where
  pub url : String
  pub headers : List (String × String)
  pub json : J

-- What comes back: the text of an error, or a status, the content type and the body.
pub data HttpReply (W : Type 0) : Type 0 where
  no_reply : String → HttpReply W
  reply : ℕ → Option String → W → HttpReply W

-- The text and the JSON of a body (or the text of its error), its chunks, JSON's parser, the
-- printing of a value and of a number, and the integers that a JSON number stands for.
pub record Wire (N W C : Type 0) : Type 0 where
  pub text : W → Option String
  pub json : W → String ⊎ Value N
  pub bytes_stream : W → List (String ⊎ C)
  pub from_str : String → Option (Value N)
  pub print : Value N → String
  pub to_string : ℕ → String
  pub as_u64 : N → Option ℕ
  pub as_i64 : N → Option ℤ

abbrev pub is_success : ℕ → Bool
is_success status = leb 200 status && ltb status 300

abbrev pub is_server_error : ℕ → Bool
is_server_error status = leb 500 status && ltb status 600

abbrev pub is_bad_status : KeyedProvider → ℕ → Bool
is_bad_status p status = any (λ code. code == status) p.bad_status_codes

abbrev pub max_upstream_error_chars : ℕ
max_upstream_error_chars = 512

unfoldable pub truncate_error_body : String → String
unfolding join split_words char_count take_chars
truncate_error_body body =
    let collapsed = join " " (split_words "" body) in
    if leb (char_count collapsed) max_upstream_error_chars
    then collapsed
    else take_chars max_upstream_error_chars collapsed ⧺ "…"

abbrev or_text : Option String → Option String → Option String
or_text none later = later
or_text (some s) later = some s

module _ {N : Type 0} where
  -- `pointer("/error/message")`, then `message`, then `error`.
  unfoldable pub extract_json_error_message : Value N → Option String
  unfolding value_get
  extract_json_error_message json =
      or_text (as_str (get_in "message" (value_get "error" json)))
        (or_text (as_str (value_get "message" json)) (as_str (value_get "error" json)))

  module _ {W C : Type 0} (wire : Wire N W C) where
    abbrev message_in : Option (Value N) → Option String
    message_in none = none
    message_in (some json) = extract_json_error_message json

    unfoldable pub format_upstream_error : ℕ → String → String
    unfolding extract_json_error_message truncate_error_body
    format_upstream_error status body =
        let trimmed = trim body in
        let label = "upstream " ⧺ wire.to_string status in
        if trimmed == ""
        then label
        else label
          ⧺ (": " ⧺ truncate_error_body (get_or (message_in (wire.from_str trimmed)) trimmed))

    unfoldable pub upstream_error_message : ℕ → W → String
    unfolding format_upstream_error
    upstream_error_message status body = format_upstream_error status (get_or (wire.text body) "")

    abbrev pub count_field : String → Option (Value N) → Option ℕ
    count_field name v = elim (get_in name v) [
      | none ↦ none
      | some x ↦ elim x [ number n ↦ wire.as_u64 n | _ ↦ none ]
    ]

    abbrev pub integer_field : String → Option (Value N) → Option ℤ
    integer_field name v = elim (get_in name v) [
      | none ↦ none
      | some x ↦ elim x [ number n ↦ wire.as_i64 n | _ ↦ none ]
    ]

    -- `bytes_stream().map(…)`: an error of the transport becomes a retryable one.
    abbrev pub item_of : String → String ⊎ C → Result C
    item_of label (inl e) = err (upstream none true false (label ⧺ e))
    item_of label (inr chunk) = ok chunk

    abbrev pub items : String → W → List (Result C)
    items label body = map (item_of label) (wire.bytes_stream body)

    -- The error for a status that is no success, of an answer that is not streamed.
    abbrev pub rejected : KeyedProvider → Bool → ℕ → W → AppError
    rejected p server_error status body =
        let msg = upstream_error_message status body in
        if server_error
        then upstream (some status) true false msg
        else if is_bad_status p status
        then upstream (some status) true true msg
        else upstream (some status) false false msg

    -- `response.json()`, then `from_value`, with the label of each error.
    abbrev pub parsed :
        {A : Type 0} → ℕ → String → String → (Value N → String ⊎ A) → W → Result (Value N × A)
    parsed status parse_label typed_label from_value body = elim (wire.json body) [
      | inl e ↦ err (upstream (some status) false false (parse_label ⧺ e))
      | inr raw ↦ elim (from_value raw) [
        | inl e ↦ err (upstream (some status) false false (typed_label ⧺ e))
        | inr a ↦ ok (raw, a)
      ]
    ]

abbrev with_text : Option String → List String → List String
with_text none ss = ss
with_text (some s) ss = s ∷ ss

abbrev nonempty_list : List String → Option (List String)
nonempty_list [] = none
nonempty_list (s ∷ ss) = some (s ∷ ss)

-- `match &req.stop`: one text or the texts of a list.
module _ {N : Type 0} where
  abbrev pub texts_of : Items N → List String
  texts_of no_items = []
  texts_of (item v vs) = with_text (as_str (some v)) (texts_of vs)

  unfoldable pub stop_sequences : Option (Value N) → Option (List String)
  stop_sequences (some (string s)) = some (s ∷ [])
  stop_sequences (some (array vs)) = nonempty_list (texts_of vs)
  stop_sequences (some v) = none
  stop_sequences none = none

-- The audit fields that an adapter contributes (`AuditFromProvider`, `CacheReport`).
pub data ProviderCacheKind : Type 0 where
  none_ open_ai_prompt_cache deep_seek_prompt_cache gemini_cached_content : ProviderCacheKind
  anthropic_cache_control : ProviderCacheKind

pub record CacheReport : Type 0 where
  pub hit_tokens : Option ℤ
  pub creation_tokens : Option ℤ
  pub source : ProviderCacheKind

pub record AuditFromProvider : Type 0 where
  pub cache : CacheReport
  pub reasoning_tokens : Option ℤ
  pub audio_tokens : Option ℤ
  pub upstream_model : Option String
  pub system_fingerprint : Option String
  pub finish_reason : Option String

abbrev pub no_cache : CacheReport
no_cache = record { hit_tokens = none; creation_tokens = none; source = none_ }

abbrev pub no_audit : AuditFromProvider
no_audit = record {
  cache = no_cache;
  reasoning_tokens = none;
  audio_tokens = none;
  upstream_model = none;
  system_fingerprint = none;
  finish_reason = none;
}

abbrev pub first_reason : {N T : Type 0} → List (Choice N T) → Option String
first_reason [] = none
first_reason (c ∷ cs) = c.finish_reason

abbrev pub first_some : {A : Type 0} → Option A → Option A → Option A
first_some none later = later
first_some (some a) later = some a

abbrev pub add_text : Option String → List String → List String
add_text none ss = ss
add_text (some s) ss = s ∷ ss

-- The message of a converted answer.
abbrev pub assistant : {N T : Type 0} → String → Option String → ResponseMessage N T
assistant content reasoning = record {
  role = "assistant";
  content = some content;
  tool_calls = none;
  reasoning_content = reasoning;
  reasoning_alias = none;
  reasoning_text = none;
  thinking = none;
}

-- The system texts and the turns of a conversation, as both adapters collect them.
abbrev pub joined_system : List String → Option String
joined_system [] = none
joined_system (s ∷ ss) = some (join "\n\n" (s ∷ ss))

module _ {N : Type 0} where
  abbrev pub system_part : Value N → List String → List String
  system_part (string s) parts = parts ++ s ∷ []
  system_part v parts = parts

module _ {N W C : Type 0} (wire : Wire N W C) where
  abbrev pub text_of : Value N → String
  text_of (string s) = s
  text_of v = wire.print v
