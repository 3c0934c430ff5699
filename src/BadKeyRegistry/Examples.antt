-- ===== src/BadKeyRegistry/Examples.antt =====
-- The registry at concrete pools and keys.
use llm_proxy.Prelude.{String, ◌≡◌, refl, [], ◌∷◌, pair_eq, string_eq, nat_eq}
use llm_proxy.Prelude.Assoc.{lookup, insert, remove}
use llm_proxy.BadKeyRegistry.{BadKeyRegistry, mark_bad, snapshot, remove_bad}
use llm_proxy.BadKeyRegistry.Laws.{HasNoEmpty}

abbrev marked : BadKeyRegistry
marked = ("p1", "hash-a" ∷ "hash-b" ∷ []) ∷ []

abbrev pool : String
pool = "p1"

abbrev hash_a : String
hash_a = "hash-a"

abbrev hash_b : String
hash_b = "hash-b"

abbrev hash_c : String
hash_c = "hash-c"

marks : mark_bad (mark_bad [] "p1" "hash-a") "p1" "hash-b" ≡ marked
unfolding mark_bad lookup insert
marks = refl

listed : snapshot marked ≡ ("p1", "hash-a") ∷ ("p1", "hash-b") ∷ []
unfolding snapshot
listed = refl

emptied : remove_bad (remove_bad marked "p1" "hash-a") "p1" "hash-b" ≡ []
unfolding remove_bad lookup insert remove
emptied = refl

empty-HasNoEmpty : HasNoEmpty []
unfolding lookup
empty-HasNoEmpty p e = cc
