-- ===== src/Specs/Query.antt =====
-- specs.go, `parseKV`: how a query is split.
use urnetwork_client.Base.{◌≡◌, ap, ◌∙◌, ◌↔◌, [], ◌∷◌, ◌++◌, some, Bytes}
use urnetwork_client.Text.Split.{Lacks, cut_at-append, cut_at_elim}
use urnetwork_client.Specs.{parse_kv}

parse_kv-append :
    (key value : Bytes) → Lacks b':' key → parse_kv (key ++ (b':' ∷ value)) ≡ some (key, value)
unfolding parse_kv
parse_kv-append [] value h = cut_at-append [] value b':' h
parse_kv-append (c ∷ key) value h = cut_at-append (c ∷ key) value b':' h

parse_kv_elim :
    (q key value : Bytes)
    → parse_kv q ≡ some (key, value)
    → (q ≡ key ++ (b':' ∷ value)) × Lacks b':' key
unfolding parse_kv
parse_kv_elim [] key value h = cc
parse_kv_elim (c ∷ q) key value h = cut_at_elim (c ∷ q) key value b':' h

-- A query is read as a key and a value exactly when it is the key, a colon and the value, and the
-- key has no colon.
pub parse_kv_iff :
    (q key value : Bytes)
    → (parse_kv q ≡ some (key, value)) ↔ ((q ≡ key ++ (b':' ∷ value)) × Lacks b':' key)
parse_kv_iff q key value =
    (parse_kv_elim q key value, λ h. ap parse_kv h.0 ∙ parse_kv-append key value h.1)
