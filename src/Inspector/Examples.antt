-- ===== src/Inspector/Examples.antt =====
-- Two chunks with a model each; the second carries the usage and the reason.
use llm_proxy.Prelude.{
  ℕ, String, ◌≡◌, refl, Option, none, some, List, [], ◌∷◌, ltb, if◌then◌else◌, length, ◌==◌,
  pair_eq, string_eq, nat_eq,
}
use llm_proxy.Json.{
  Value, number, string, array, object, no_items, item, no_fields, field, get, value_get,
}
use llm_proxy.Inspector.{
  Reader, no_cache, finish_in, new_started_at, ttft_ms, chunk_of, absorb, ingest_chunk, ingest_all,
  into_audit,
}
use llm_proxy.Inspector.Last.{last_some, found, model_in, usage_in, reason_in, ingest_all-last}

abbrev text_of : List ℕ → Option String
text_of bs =
    if length bs == 1
    then some "data: A\n"
    else if length bs == 2
    then some "data: B\n"
    else some "data: [DONE]\n"

abbrev first_chunk : Value ℕ
first_chunk = object (field "model" (string "m1") no_fields)

abbrev second_chunk : Value ℕ
second_chunk = object (
    field "model" (string "m2") (
      field "usage" (number 7) (
        field "choices"
          (array (item (object (field "finish_reason" (string "stop") no_fields)) no_items))
          no_fields)))

abbrev reader : Reader ℕ ℕ ℕ
reader = record {
  from_str =
      λ s. if s == "A" then some first_chunk else if s == "B" then some second_chunk else none;
  from_utf8 = text_of;
  contains = λ bs w. w == "model";
  usage_from_value = λ v. some 15;
  as_i64 = λ n. some n;
  positive = λ n. ltb 0 n;
  zero_i64 = 0;
}

abbrev lines : List (ℕ × List ℕ)
lines = (3_000_000, 1 ∷ []) ∷ (4_000_000, 1 ∷ 2 ∷ []) ∷ (5_000_000, 1 ∷ 2 ∷ 3 ∷ []) ∷ []

collected : into_audit reader (ingest_all reader (new_started_at reader 1_000_000) lines) ≡ record {
  hit_tokens = none;
  source = no_cache;
  reasoning = none;
  audio = none;
  model = some "m2";
  finish = some "stop";
}
unfolding into_audit ingest_all ingest_chunk chunk_of absorb new_started_at finish_in value_get get
collected = refl

waited : ttft_ms reader (ingest_all reader (new_started_at reader 1_000_000) lines) ≡ some 2
unfolding ttft_ms ingest_all ingest_chunk chunk_of absorb new_started_at finish_in value_get get
waited = refl

ingest_all-last_example :
    ((ingest_all reader (new_started_at reader 0) lines).upstream_model
      ≡ last_some (found reader (model_in reader)) lines)
    × ((ingest_all reader (new_started_at reader 0) lines).accumulated_usage
        ≡ last_some (found reader (usage_in reader)) lines)
    × ((ingest_all reader (new_started_at reader 0) lines).finish_reason
        ≡ last_some (found reader (reason_in reader)) lines)
ingest_all-last_example = ingest_all-last reader 0 lines
