-- ===== src/Config/Metadata/Examples.antt =====
-- A configuration whose pool and model layers each set something.
use llm_proxy.Prelude.{ℕ, ◌≡◌, refl, true, false, none, some, [], ◌∷◌, pair_eq, string_eq, nat_eq}
use llm_proxy.Prelude.Assoc.{lookup}
use llm_proxy.Config.Metadata.{ModelMetadataConfig, empty_partial, apply_partial}
use llm_proxy.Config.Metadata.{for_model, built_in}

abbrev config : ModelMetadataConfig ℕ
config = record {
  defaults = record empty_partial { context_window = some 1000; reasoning = some true };
  pools = ("p", record empty_partial { context_window = some 2000 }) ∷ [];
  models =
      (
        "m",
        record empty_partial {
          reasoning = some false;
          pricing = record {
            input_usd_per_million_tokens = some 3;
            output_usd_per_million_tokens = none;
            cache_read_usd_per_million_tokens = none;
            cache_write_usd_per_million_tokens = none;
          };
        },
      )
      ∷ [];
}

merged : for_model 0 config "m" "p" ≡ record (built_in 0 "m") {
  context_window = 2000;
  pricing = record {
    input_usd_per_million_tokens = 3;
    output_usd_per_million_tokens = 0;
    cache_read_usd_per_million_tokens = 0;
    cache_write_usd_per_million_tokens = 0;
  };
}
unfolding for_model apply_partial built_in lookup
merged = refl
