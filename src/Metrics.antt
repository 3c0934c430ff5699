-- ===== src/Metrics.antt =====
-- src/metrics.rs: the counters, which wrap at 2^64, and their text for Prometheus.
use llm_proxy.Prelude.{ℕ, ◌+◌, ◌-◌, ◌^◌, String, pair_eq, string_eq, nat_eq}
use llm_proxy.CircuitBreaker.{u64}
use Prim.Native.String.{◌++◌}

pub record Metrics : Type 0 where
  pub total_requests : ℕ
  pub failed_requests : ℕ
  pub stream_requests : ℕ
  pub cache_hits : ℕ
  pub active_connections : ℕ
  pub total_prompt_tokens : ℕ
  pub total_completion_tokens : ℕ
  pub retry_count : ℕ
  pub key_demotions : ℕ
  pub upstream_5xx : ℕ
  pub upstream_4xx : ℕ
  pub request_latency_sum_ms : ℕ

abbrev pub inc_total_requests : Metrics → Metrics
inc_total_requests m = record m { total_requests = u64 (m.total_requests + 1) }

abbrev pub inc_failed : Metrics → Metrics
inc_failed m = record m { failed_requests = u64 (m.failed_requests + 1) }

abbrev pub inc_stream : Metrics → Metrics
inc_stream m = record m { stream_requests = u64 (m.stream_requests + 1) }

abbrev pub inc_cache_hit : Metrics → Metrics
inc_cache_hit m = record m { cache_hits = u64 (m.cache_hits + 1) }

abbrev pub inc_active : Metrics → Metrics
inc_active m = record m { active_connections = u64 (m.active_connections + 1) }

abbrev pub dec_active : Metrics → Metrics
dec_active m = record m { active_connections = u64 (m.active_connections + 2 ^ 64 - 1) }

abbrev pub inc_retry : Metrics → Metrics
inc_retry m = record m { retry_count = u64 (m.retry_count + 1) }

abbrev pub inc_upstream_5xx : Metrics → Metrics
inc_upstream_5xx m = record m { upstream_5xx = u64 (m.upstream_5xx + 1) }

abbrev pub inc_upstream_4xx : Metrics → Metrics
inc_upstream_4xx m = record m { upstream_4xx = u64 (m.upstream_4xx + 1) }

abbrev pub add_prompt_tokens : ℕ → Metrics → Metrics
add_prompt_tokens n m = record m { total_prompt_tokens = u64 (m.total_prompt_tokens + n) }

abbrev pub add_completion_tokens : ℕ → Metrics → Metrics
add_completion_tokens n m = record m {
  total_completion_tokens = u64 (m.total_completion_tokens + n);
}

abbrev pub record_latency_ms : ℕ → Metrics → Metrics
record_latency_ms ms m = record m { request_latency_sum_ms = u64 (m.request_latency_sum_ms + ms) }

-- `to_string` prints a number.
module _ (to_string : ℕ → String) where
  abbrev lines : String → String → String → ℕ → String
  lines name help kind value =
      "# HELP llm_proxy_"
      ++ (name
          ++ (" "
              ++ (help
                  ++ ("\n# TYPE llm_proxy_"
                      ++ (name
                          ++ (" "
                              ++ (kind
                                  ++ ("\nllm_proxy_"
                                      ++ (name ++ (" " ++ (to_string value ++ "\n")))))))))))

  unfoldable pub render : Metrics → String
  render m =
      lines "requests_total" "Total requests" "counter" m.total_requests
      ++ (lines "requests_failed_total" "Failed requests" "counter" m.failed_requests
          ++ (lines "stream_requests_total" "Streaming requests" "counter" m.stream_requests
              ++ (lines "cache_hits_total" "Cache hits" "counter" m.cache_hits
                  ++ (lines "active_connections" "Active connections" "gauge" m.active_connections
                      ++ (lines "prompt_tokens_total" "Prompt tokens" "counter"
                            m.total_prompt_tokens
                          ++ (lines "completion_tokens_total" "Completion tokens" "counter"
                                m.total_completion_tokens
                              ++ (lines "retries_total" "Retry events" "counter" m.retry_count
                                  ++ (lines "key_demotions_total" "Key demotion events" "counter"
                                        m.key_demotions
                                      ++ (lines "upstream_5xx_total" "Upstream 5xx" "counter"
                                            m.upstream_5xx
                                          ++ (lines "upstream_4xx_total" "Upstream 4xx" "counter"
                                                m.upstream_4xx
                                              ++ lines "request_latency_ms_sum" "Total latency ms"
                                                  "counter" m.request_latency_sum_ms))))))))))
