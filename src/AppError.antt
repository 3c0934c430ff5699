-- ===== src/AppError.antt =====
-- src/error.rs: the error type and its OpenAI-format response.
mod Examples
use llm_proxy.Prelude.{
  ℕ, ◌≤◌, ◌<◌, String, Bool, true, false, ◌&&◌, Option, none, some, arith, ltb, leb, if◌then◌else◌,
  pair_eq, string_eq, nat_eq,
}

pub data AppError : Type 0 where
  config : String → AppError
  auth : String → AppError
  not_found : String → AppError
  bad_request : String → AppError
  -- status, retryable, bad_key_hint, msg
  upstream : Option ℕ → Bool → Bool → String → AppError
  internal : String → AppError

pub data Result {ℓ} (A : Type ℓ) : Type ℓ where
  ok : A → Result A
  err : AppError → Result A

abbrev pub is_ok {ℓ} : {A : Type ℓ} → Result A → Bool
is_ok (ok a) = true
is_ok (err e) = false

infixl 5 ◌>>=◌
abbrev pub ◌>>=◌ {ℓ κ} : {A : Type ℓ} {B : Type κ} → Result A → (A → Result B) → Result B
ok a >>= f = f a
err e >>= f = err e

-- `Option::ok_or_else`
abbrev pub ok_or {ℓ} : {A : Type ℓ} → Option A → AppError → Result A
ok_or none e = err e
ok_or (some a) e = ok a

-- `upstream_status.filter(|s| (400..600).contains(s))`, else 502. `StatusCode::from_u16` accepts
-- 100 to 999, so it succeeds on what the filter leaves.
upstream_status : Option ℕ → ℕ
upstream_status none = 502
upstream_status (some s) = if leb 400 s && ltb s 600 then s else 502

-- The response's status code, its error type and its message.
pub record ErrorResponse : Type 0 where
  pub code : ℕ
  pub error_type : String
  pub message : String

unfoldable pub into_response : AppError → ErrorResponse
unfolding upstream_status
into_response (config msg) = record { code = 500; error_type = "config_error"; message = msg }
into_response (auth msg) = record { code = 401; error_type = "auth_error"; message = msg }
into_response (not_found msg) = record { code = 404; error_type = "not_found"; message = msg }
into_response (bad_request msg) = record { code = 400; error_type = "bad_request"; message = msg }
into_response (upstream status retryable hint msg) = record {
  code = upstream_status status;
  error_type = "upstream_error";
  message = msg;
}
into_response (internal msg) = record { code = 500; error_type = "internal_error"; message = msg }

-- Every error is answered with a client or server error status, from 400 to 599.
pub into_response-code :
    (e : AppError) → (400 ≤ (into_response e).code) × ((into_response e).code < 600)
unfolding into_response
into_response-code (config msg) = omega arith
into_response-code (auth msg) = omega arith
into_response-code (not_found msg) = omega arith
into_response-code (bad_request msg) = omega arith
into_response-code (upstream none retryable hint msg) = omega arith
into_response-code (upstream (some s) retryable hint msg) = ground arith
into_response-code (internal msg) = omega arith
