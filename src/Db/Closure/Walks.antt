-- ===== src/Db/Closure/Walks.antt =====
-- Walks along links between ids, and the number of links on a shortest one.
use pincher_mcp.Prelude.{ℕ, zero, suc, ◌≤◌, ◌≡◌, Bool, true, Bytes, subst, arith}

module _ (link : Bytes → Bytes → Bool) (from : Bytes) where
  -- The walks from `from` by their number of links.
  pub data Walk : ℕ → Bytes → Type 0 where
    here : Walk zero from
    step : {n : ℕ} {u v : Bytes} → Walk n u → link u v ≡ true → Walk (suc n) v

  -- Some walk to `v` has `n` links, and none has fewer.
  abbrev pub IsDistance : ℕ → Bytes → Type 0
  IsDistance n v = Walk n v × ((k : ℕ) → Walk k v → n ≤ k)

  -- The last link of a walk that has one.
  pub Walk-last :
      (i n : ℕ) (v : Bytes) → Walk i v → i ≡ suc n → (u : Bytes) × Walk n u × (link u v ≡ true)
  Walk-last i n v here e = absurd (omega arith)
  Walk-last i n v (step {n = j} {u} w l) e =
      let same : j ≡ n = omega arith in (u, subst (λ x. Walk x u) same w, l)
