-- ===== src/Execution/Registry/Sweep.antt =====
-- Expiry and eviction of jobs in `submit_internal` of src/execution.rs.
use securecrt_mcp.Prelude.{
  ℕ, ◌≡◌, ap, ◌∙◌, true, false, [], ◌∷◌, arith, leb, Bool-cases, Option-cases, inl, inr, Option,
  none, some, ◌*◌, ◌⊎◌,
}
use securecrt_mcp.Text.{Text}
use securecrt_mcp.Text.Equality.{eq_text_iff}
use securecrt_mcp.Assoc.{Assoc, lookup, remove, retain, size, IsDistinct}
use securecrt_mcp.Assoc.Laws.{lookup-remove, lookup-retain}
use securecrt_mcp.Assoc.Distinct.{remove-IsDistinct, retain-IsDistinct}
use securecrt_mcp.Config.{BridgeConfig}
use securecrt_mcp.Execution.Job.{Job}
use securecrt_mcp.Execution.Registry.{
  Registry, is_retained, evictable, earlier, oldest, evict, sweep, is_closed,
}

earlier-eq_some :
    (k : Text) (t : ℕ) (o : Option (Text × ℕ)) (id : Text) (u : ℕ)
    → earlier k t o ≡ some (id, u)
    → ((k ≡ id) × (t ≡ u)) ⊎ (o ≡ some (id, u))
earlier-eq_some k t none id u h = inl (ground arith, ground arith)
earlier-eq_some k t (some (j, v)) id u h = elim (Bool-cases (leb t v)) [
  | inl e ↦
      let g : some (k, t) ≡ some (id, u) = rw e at h in inl (ground (arith, g), ground (arith, g))
  | inr e ↦ let g : some (j, v) ≡ some (id, u) = rw e at h in inr g
]

-- The oldest is an entry of the map, and may be evicted.
oldest-lookup :
    (m : Assoc Job) (id : Text) (t : ℕ)
    → IsDistinct m
    → oldest m ≡ some (id, t)
    → (j : Job) × (lookup id m ≡ some j) × (evictable j ≡ some t)
unfolding oldest lookup
oldest-lookup [] id t d h = cc
oldest-lookup ((k, j) ∷ m) id t d h = elim (Option-cases (evictable j)) [
  | inl e ↦
      let g : oldest m ≡ some (id, t) = rw (e, oldest) at h in below (oldest-lookup m id t d.1 g)
  | inr (u, e) ↦
      let g : earlier k u (oldest m) ≡ some (id, t) = rw (e, oldest) at h in
      elim (earlier-eq_some k u (oldest m) id t g) [
        | inl (same, at) ↦ (j, ground (arith, eq_text_iff k id), e ∙ ap (λ n. some n) at)
        | inr later ↦ below (oldest-lookup m id t d.1 later)
      ]
]
  where
    below :
        (x : Job) × (lookup id m ≡ some x) × (evictable x ≡ some t)
        → (x : Job) × (lookup id ((k, j) ∷ m) ≡ some x) × (evictable x ≡ some t)
    below (x, found, may) = (x, ground (arith, eq_text_iff k id, d.0), may)

-- What a sweep may do to the jobs: every job that it leaves was there, and every job that is not
-- closed is left.
pub record Swept (before after : Assoc Job) : Type 0 where
  pub distinct : IsDistinct after
  pub old : (id : Text) (j : Job) → lookup id after ≡ some j → lookup id before ≡ some j
  pub kept :
      (id : Text) (j : Job)
      → lookup id before ≡ some j
      → is_closed j ≡ false
      → lookup id after ≡ some j

Swept-trans : {a b c : Assoc Job} → Swept a b → Swept b c → Swept a c
Swept-trans h k = record {
  distinct = k.distinct;
  old = λ id j found. h.old id j (k.old id j found);
  kept = λ id j found live. k.kept id j (h.kept id j found live) live;
}

retained_of_live :
    (now retention : ℕ) (j : Job) → is_closed j ≡ false → is_retained now retention j ≡ true
unfolding is_closed is_retained
retained_of_live now retention j h = ground arith

closed_of_evictable : (j : Job) (t : ℕ) → evictable j ≡ some t → is_closed j ≡ true
unfolding is_closed evictable
closed_of_evictable j t h = ground arith

retain-Swept :
    (now retention : ℕ) (m : Assoc Job)
    → IsDistinct m
    → Swept m (retain (is_retained now retention) m)
retain-Swept now retention m d = record {
  distinct = retain-IsDistinct (is_retained now retention) m d;
  old = λ id j found. ground (arith, lookup-retain (is_retained now retention) id m);
  kept = λ id j found live. ground (
    arith,
    lookup-retain (is_retained now retention) id m,
    retained_of_live now retention j live,
  );
}

remove-oldest-Swept :
    (m : Assoc Job) (id : Text) (t : ℕ)
    → IsDistinct m
    → oldest m ≡ some (id, t)
    → Swept m (remove id m)
remove-oldest-Swept m id t d h =
    let (x, found, may) = oldest-lookup m id t d h in
    record {
      distinct = remove-IsDistinct id m d;
      old = λ k j f. ground (arith, lookup-remove id k m);
      kept = λ k j f live.
          ground (arith, lookup-remove id k m, eq_text_iff id k, closed_of_evictable x t may);
    }

Swept-refl : (m : Assoc Job) → IsDistinct m → Swept m m
Swept-refl m d = record { distinct = d; old = λ id j f. f; kept = λ id j f live. f }

evict-Swept : (max_jobs : ℕ) (m : Assoc Job) → IsDistinct m → Swept m (evict max_jobs m)
unfolding evict
evict-Swept max_jobs m d = elim (Bool-cases (leb max_jobs (size m))) [
  | inr e ↦ rw e (Swept-refl m d)
  | inl e ↦ elim (Option-cases (oldest m)) [
    | inl o ↦ rw e (rw o (Swept-refl m d))
    | inr ((id, t), o) ↦ rw e (rw o (remove-oldest-Swept m id t d o))
  ]
]

-- A sweep leaves only jobs that were there, and leaves every job that is not closed as it was, if no
-- job has two entries.
pub sweep-Swept :
    (config : BridgeConfig) (now : ℕ) (r : Registry)
    → IsDistinct r.jobs
    → Swept r.jobs (sweep config now r).jobs
unfolding sweep
sweep-Swept config now r d =
    let kept = retain-Swept now (config.job_retention_sec * 1000000) r.jobs d in
    Swept-trans kept (evict-Swept config.max_jobs _ kept.distinct)
