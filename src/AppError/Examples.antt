-- ===== src/AppError/Examples.antt =====
-- Responses to concrete errors.
use llm_proxy.Prelude.{◌≡◌, refl, true, false, some, pair_eq, string_eq, nat_eq}
use llm_proxy.AppError.{upstream, into_response}

passed_on : (into_response (upstream (some 429) true false "busy")).code ≡ 429
unfolding into_response
passed_on = refl

hidden : (into_response (upstream (some 302) true false "moved")).code ≡ 502
unfolding into_response
hidden = refl
