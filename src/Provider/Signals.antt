-- ===== src/Provider/Signals.antt =====
-- What the retry loop learns of a rejected call.
use llm_proxy.Prelude.{
  ℕ, ◌<◌, String, ◌≡◌, refl, ap, ◌⊎◌, inr, Bool, false, not, ◌&&◌, ◌||◌, Option, some, arith, leb,
  get_or, pair_eq, string_eq, nat_eq,
}
use llm_proxy.AppError.{AppError, upstream, Result, err}
use llm_proxy.Json.{Value}
use llm_proxy.Provider.{
  ChatCompletionRequest, ChatCompletionResponse, ProviderResponse, KeyedProvider, reply, Wire,
  is_success, is_server_error, is_bad_status, upstream_error_message, rejected,
}
use llm_proxy.Provider.OpenAi
use llm_proxy.Provider.Anthropic
use llm_proxy.Provider.Gemini

-- The table at the top of openai.rs: retryable for a server error or a status that is listed as
-- bad, and a hint at a bad key for a listed status that is no server error.
abbrev pub signal : KeyedProvider → ℕ → String → AppError
signal p status msg =
    upstream (some status) (is_server_error status || is_bad_status p status)
      (not (is_server_error status) && is_bad_status p status) msg

module _ {N W C : Type 0} (wire : Wire N W C) where
  rejected-signal :
      (p : KeyedProvider) (server : Bool) (status : ℕ) (body : W)
      → server ≡ is_server_error status
      → rejected wire p server status body
        ≡ signal p status (upstream_error_message wire status body)
  rejected-signal p server status body h = ground (arith, h)

from_500 : (status : ℕ) → status < 600 → leb 500 status ≡ is_server_error status
from_500 status h = ground arith

module _ {N F T W C J : Type 0} (wire : Wire N W C) where
  -- The same rejection of a call that is not streamed, with a status below 600, is the same error
  -- for all three adapters, and the one of the documented table.
  pub chat-signal :
      (to_vec : ChatCompletionRequest N F T → String ⊎ J)
      (from_openai : Value N → String ⊎ ChatCompletionResponse N T)
      (from_anthropic : Value N → String ⊎ Anthropic.AnthropicResponse N)
      (from_gemini : Value N → String ⊎ Gemini.GeminiResponse N) (fresh_id : String) (now : ℕ)
      (p : KeyedProvider) (req : ChatCompletionRequest N F T) (key : String) (status : ℕ)
      (content_type : Option String) (body : W) (j : J)
      → to_vec req ≡ inr j
      → get_or req.stream_ false ≡ false
      → is_success status ≡ false
      → status < 600
      → let e : Result (ProviderResponse N T C) =
          err (signal p status (upstream_error_message wire status body)) in
        (OpenAi.chat wire to_vec (λ _. reply status content_type body) from_openai p req key ≡ e)
        × (Anthropic.chat wire (λ _. reply status content_type body) from_anthropic now p req key
            ≡ e)
        × (Gemini.chat wire (λ _. reply status content_type body) from_gemini fresh_id now p req key
            ≡ e)
  unfolding OpenAi.chat Anthropic.chat Gemini.chat
  chat-signal to_vec fo fa fg fresh_id now p req key status content_type body j v s n b = (
    rw (v, n) (ap err (rejected-signal wire p _ status body refl)),
    rw (s, n) (ap err (rejected-signal wire p _ status body (from_500 status b))),
    rw (s, n) (ap err (rejected-signal wire p _ status body (from_500 status b))),
  )
