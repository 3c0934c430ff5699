-- ===== src/PromptCache/Key/Examples.antt =====
-- An encoding whose bytes are the code points, above the separator, and two requests whose other
-- fields differ.
use Prim.Native.String.{[] as no_chars, ◌∷◌ as ◌▹◌}
use llm_proxy.Prelude.{
  ℕ, ◌+◌, String, ◌≡◌, refl, false, Option, none, some, List, [], ◌∷◌, map, arith, any, ◌==◌,
  pair_eq, string_eq, nat_eq,
}
use llm_proxy.Json.{null}
use llm_proxy.Provider.{ChatCompletionRequest}
use llm_proxy.PromptCache.Key.{
  Encoding, IsUtf8, temperature_text, tools_json, key_bytes, covered, key_bytes-covers,
}
use text.Mathlib.TextEquality.{Char-path}
use Prim.Native.Char.{code}

abbrev codes : String → List ℕ
codes no_chars = []
codes (c ▹ s) = (256 + code c) ∷ codes s

codes-clean : (s : String) → any (λ b. b == 255) (codes s) ≡ false
codes-clean no_chars = refl
codes-clean (c ▹ s) = ground (arith, codes-clean s)

codes-distinct : (a b : String) → codes a ≡ codes b → a ≡ b
codes-distinct no_chars no_chars h = refl
codes-distinct no_chars (d ▹ b) h = cc
codes-distinct (c ▹ a) no_chars h = cc
codes-distinct (c ▹ a) (d ▹ b) h =
    let head : 256 + code c ≡ 256 + code d = cc in
    let same : code c ≡ code d = omega arith in
    let rest = codes-distinct a b cc in rw (Char-path c d same, rest) refl

abbrev points : Encoding ℕ ℕ
points = record {
  utf8 = codes;
  to_vec = λ v. [];
  float_text = λ n. "0";
  sha256 = λ bs. bs;
  hex = λ b. "00";
}

points-IsUtf8 : IsUtf8 points
points-IsUtf8 = record { texts = codes-clean; values = λ v. refl; distinct = codes-distinct }

abbrev asks : Option ℕ → ChatCompletionRequest ℕ ℕ ℕ
asks max_tokens = record {
  model = "m";
  messages =
      record { role = "user"; content = null; name = none; tool_calls = none; tool_call_id = none }
      ∷ [];
  stream_ = none;
  max_tokens = max_tokens;
  temperature = none;
  top_p = none;
  stop = none;
  presence_penalty = none;
  frequency_penalty = none;
  user = none;
  tools = none;
  tool_choice = none;
  stream_options = none;
  extra = null;
}

key_bytes-covers_example :
    ((asks none).model ≡ (asks (some 5)).model)
    × (map (covered points) (asks none).messages ≡ map (covered points) (asks (some 5)).messages)
    × (temperature_text points (asks none).temperature
        ≡ temperature_text points (asks (some 5)).temperature)
    × (tools_json points (asks none) ≡ tools_json points (asks (some 5)))
unfolding key_bytes
key_bytes-covers_example = key_bytes-covers points points-IsUtf8 (asks none) (asks (some 5)) refl
