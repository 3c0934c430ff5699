-- ===== src/Failover/Streamed.antt =====
-- The retry loop over a call that is streamed (src/provider/anthropic.rs and gemini.rs).
use llm_proxy.Prelude.{
  ℕ, ◌<◌, String, ◌≡◌, subst, ◌⊎◌, true, false, Option, none, some, arith, leb, get_or, any, ◌==◌,
  pair_eq, string_eq, nat_eq,
}
use llm_proxy.AppError.{upstream, err}
use llm_proxy.Json.{Value}
use llm_proxy.Provider.{
  ChatCompletionRequest, ProviderResponse, KeyedProvider, reply, Wire, is_success, is_server_error,
  is_bad_status, upstream_error_message,
}
use llm_proxy.Provider.Signals.{signal}
use llm_proxy.Failover.{
  Env, State, Verdict, spent, count_burst, surfaced, give_up, punish, chat_failed, call_upstream,
}
use llm_proxy.Router.{try_demote}
use llm_proxy.Config.KeyEntry.{KeyEntry}
use llm_proxy.Provider.Anthropic
use llm_proxy.Provider.Gemini

module _ {Q : Type 0} (env : Env Q) (st : State) (key : KeyEntry) (status : ℕ) (msg : String) where
  -- A listed status without `retryable` ends the loop, whether the key is demoted or not.
  call_upstream-surfaced :
      any (λ c. c == status) env.bad_status_codes ≡ true
      → (call_upstream env st key (err (upstream (some status) false true msg))).1
        ≡ some (err (upstream (some status) false false msg))
  unfolding call_upstream chat_failed punish give_up surfaced count_burst
  call_upstream-surfaced bad = ground (arith, bad)

  call_upstream-retried :
      any (λ c. c == status) env.bad_status_codes ≡ true
      → (try_demote env.compute_key_hash st.bad env.pool env.pool_id key).1 ≡ true
      → spent env st ≡ false
      → (call_upstream env st key (err (upstream (some status) true true msg))).1 ≡ none
  unfolding call_upstream chat_failed punish give_up surfaced count_burst
  call_upstream-retried bad demoted left = ground (arith, bad, demoted, left)

below_500 : (status : ℕ) → status < 500 → is_server_error status ≡ false
below_500 status h = ground arith

not_500 : (status : ℕ) → status < 500 → leb 500 status ≡ false
not_500 status h = ground arith

module _ {N F T W C : Type 0} (wire : Wire N W C) where
  -- The fault of a streamed call: where the key can be demoted and an attempt is left, a rejection
  -- with a status below 500 that is listed as bad is marked as not retryable by Anthropic's and
  -- Gemini's adapter, so the retry loop hands the error to the client at once, while it goes on
  -- with the next key after the same rejection of a call that is not streamed.
  pub stream-surfaced :
      (env : Env (ProviderResponse N T C)) (st : State) (key : KeyEntry)
      (from_anthropic : Value N → String ⊎ Anthropic.AnthropicResponse N)
      (from_gemini : Value N → String ⊎ Gemini.GeminiResponse N) (fresh_id : String) (now : ℕ)
      (p : KeyedProvider) (req : ChatCompletionRequest N F T) (status : ℕ)
      (content_type : Option String) (body : W)
      → p.bad_status_codes ≡ env.bad_status_codes
      → is_bad_status p status ≡ true
      → is_success status ≡ false
      → status < 500
      → get_or req.stream_ false ≡ true
      → (try_demote env.compute_key_hash st.bad env.pool env.pool_id key).1 ≡ true
      → spent env st ≡ false
      → let msg = upstream_error_message wire status body in
        let surfaced_ : Verdict (ProviderResponse N T C) =
          some (err (upstream (some status) false false msg)) in
        ((call_upstream env st key (
            Anthropic.chat wire
              (λ _. reply status content_type body)
              from_anthropic
              now
              p
              req
              key.key)).1
          ≡ surfaced_)
        × ((call_upstream env st key (
              Gemini.chat wire
                (λ _. reply status content_type body)
                from_gemini
                fresh_id
                now
                p
                req
                key.key)).1
            ≡ surfaced_)
        × ((call_upstream env st key (err (signal p status msg))).1 ≡ none)
  unfolding Anthropic.chat Gemini.chat
  stream-surfaced env st key fa fg fresh_id now p req status content_type body l b n below s demoted
        left =
      let msg = upstream_error_message wire status body in
      let bad : any (λ c. c == status) env.bad_status_codes ≡ true =
        subst (λ codes. any (λ c. c == status) codes ≡ true) l b in
      (
        rw (s, n, b, not_500 status below) (call_upstream-surfaced env st key status msg bad),
        rw (s, n, b, not_500 status below) (call_upstream-surfaced env st key status msg bad),
        rw (below_500 status below, b)
            (call_upstream-retried env st key status msg bad demoted left),
      )
