-- ===== src/Cypher/Examples/Evaluation.antt =====
-- The evaluation of WHERE in internal/cypher/engine.go at concrete inputs.
use pincher_mcp.Prelude.{
  ◌≡◌, refl, inl, inr, none, some, codes, str_eq, has_prefix, subst, Bool-cases, str_eq→eq,
}
use pincher_mcp.Cypher.Flatten.{flatten_where, where_is_and_chain_of_leaves}
use pincher_mcp.Cypher.Where.{cached, matches_where, matches_conditions}
use pincher_mcp.Cypher.Where.Cache.{IsConsistent, matches_where_cached}
use pincher_mcp.Cypher.Where.Flat.{matches_conditions-flatten, all_hold, pushdown_conjunction}
use pincher_mcp.Cypher.Examples.{
  compile_text, sample_host, sample_row, chain, small_cache, no_cache,
}

small_cache-IsConsistent : IsConsistent sample_host small_cache
unfolding cached
small_cache-IsConsistent k re e = elim (Bool-cases (str_eq (codes "main") k)) [
  | inl h ↦
      let same : some (codes "main") ≡ some re = rw h at e in
      subst (λ t. compile_text t ≡ some re) (str_eq→eq (codes "main") k h)
        (unfold has_prefix in same)
  | inr h ↦ let none_found : none ≡ some re = rw h at e in cc
]

matches_where_cached_example :
    ((matches_where sample_host sample_row (some chain) small_cache).0
      ≡ (matches_where sample_host sample_row (some chain) none).0)
    × IsConsistent sample_host (matches_where sample_host sample_row (some chain) small_cache).1
matches_where_cached_example =
    matches_where_cached sample_host sample_row (some chain) small_cache small_cache-IsConsistent

matches_conditions-flatten_example :
    (matches_conditions sample_host sample_row (flatten_where (some chain)) no_cache).0
    ≡ (matches_where sample_host sample_row (some chain) none).0
unfolding flatten_where
matches_conditions-flatten_example =
    matches_conditions-flatten sample_host sample_row chain _ _ no_cache none refl tt tt

pushdown_conjunction_example :
    (matches_where sample_host sample_row (some chain) no_cache).0
    ≡ all_hold sample_host sample_row (flatten_where (some chain))
unfolding where_is_and_chain_of_leaves
pushdown_conjunction_example = pushdown_conjunction sample_host sample_row chain no_cache refl tt
