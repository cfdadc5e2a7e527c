-- ===== src/Execution/Registry/Ledger.antt =====
-- The room that the registry takes: the number of its jobs, of the entries of its ledger, and the
-- bytes of output that it retains.
use securecrt_mcp.Prelude.{
  ℕ, zero, suc, ◌+◌, ◌≤◌, Bool, false, [], ◌∷◌, arith, ltb, leb, Bool-cases, Option-cases, inl, inr,
  Option, none, some, ◌*◌,
}
use securecrt_mcp.Text.{Text, len}
use securecrt_mcp.Assoc.{Assoc, lookup, remove, modify, retain, contains_key, size}
use securecrt_mcp.Assoc.Laws.{size-insert-le, size-remove-le, size-retain-le, size-modify}
use securecrt_mcp.Assoc.Values.{
  AllValues, AllValues-insert, AllValues-remove, AllValues-retain, AllValues-modify,
}
use securecrt_mcp.Config.{BridgeConfig}
use securecrt_mcp.Execution.Job.{State, Job}
use securecrt_mcp.Execution.Params.{ExecuteParams}
use securecrt_mcp.Execution.Registry.{
  Registry, new_job, oldest, evict, sweep, enter, admit, reserve, with_job, finish_job, finish,
  is_closed, ack_release, eq_option, is_retained,
}

abbrev pub FitsJob : BridgeConfig → Job → Type 0
FitsJob config j = len j.output ≤ config.max_output_bytes

pub record Fits (config : BridgeConfig) (r : Registry) : Type 0 where
  pub jobs : size r.jobs ≤ config.max_jobs
  pub operations : size r.operations ≤ 4096
  pub outputs : AllValues (FitsJob config) r.jobs

-- The bytes of output of all jobs.
unfoldable pub retained_output : Assoc Job → ℕ
retained_output [] = 0
retained_output ((id, j) ∷ m) = len j.output + retained_output m

module _ (config : BridgeConfig) where
  evict-size : (n : ℕ) (m : Assoc Job) → size (evict n m) ≤ size m
  unfolding evict
  evict-size n m = elim (Bool-cases (leb n (size m))) [
    | inr e ↦ rw e (omega arith)
    | inl e ↦ elim (Option-cases (oldest m)) [
      | inl o ↦ rw e (rw o (omega arith))
      | inr ((id, t), o) ↦ rw e (rw o (size-remove-le id m))
    ]
  ]

  evict-outputs :
      (n : ℕ) (m : Assoc Job)
      → AllValues (FitsJob config) m
      → AllValues (FitsJob config) (evict n m)
  unfolding evict
  evict-outputs n m h = elim (Bool-cases (leb n (size m))) [
    | inr e ↦ rw e h
    | inl e ↦ elim (Option-cases (oldest m)) [
      | inl o ↦ rw e (rw o h)
      | inr ((id, t), o) ↦ rw e (rw o (AllValues-remove (FitsJob config) id m h))
    ]
  ]

  sweep-Fits : (now : ℕ) (r : Registry) → Fits config r → Fits config (sweep config now r)
  unfolding sweep
  sweep-Fits now r h =
      let p = is_retained now (config.job_retention_sec * 1000000) in
      record {
        jobs =
            omega (
              arith,
              evict-size config.max_jobs (retain p r.jobs),
              size-retain-le p r.jobs,
              h.jobs,
            );
        operations = h.operations;
        outputs =
            evict-outputs config.max_jobs (retain p r.jobs)
              (AllValues-retain (FitsJob config) p r.jobs h.outputs);
      }

  admit-Fits :
      (now : ℕ) (p : ExecuteParams) (fingerprint id : Text) (r : Registry)
      → Fits config r
      → Fits config (admit config now p fingerprint id r).0
  unfolding admit enter new_job
  admit-Fits now p fingerprint id r h = elim (Bool-cases (ltb (size r.jobs) config.max_jobs)) [
    | inr e ↦ rw e h
    | inl e ↦ elim (Bool-cases (ltb (size r.operations) 4096)) [
      | inr q ↦ rw e (rw q h)
      | inl q ↦ rw e (
          rw q (record {
            jobs = ground (arith, size-insert-le id (new_job now p id) r.jobs);
            operations =
                ground (arith, size-insert-le p.operation_id (id, fingerprint) r.operations);
            outputs =
                AllValues-insert (FitsJob config) id (new_job now p id) r.jobs
                  (unfold len in omega arith) h.outputs;
          }))
    ]
  ]

  pub reserve-Fits :
      (now : ℕ) (p : ExecuteParams) (fingerprint id : Text) (r : Registry)
      → Fits config r
      → Fits config (reserve config now p fingerprint id r).0
  unfolding reserve contains_key
  reserve-Fits now p fingerprint id r h = elim (Option-cases (lookup p.operation_id r.operations)) [
    | inr (entry, e) ↦ rw (e, reserve) h
    | inl e ↦ elim (Option-cases (lookup p.session r.busy)) [
      | inr (b, q) ↦ rw (e, reserve) (rw (q, contains_key) h)
      | inl q ↦
          rw (e, reserve)
            (rw (q, contains_key)
              (admit-Fits now p fingerprint id (sweep config now r) (sweep-Fits now r h)))
    ]
  ]

  -- A change of one job, whatever it does to the sessions.
  modify-Fits :
      (id : Text) (f : Job → Job) (busy : Assoc Text) (r : Registry)
      → ((j : Job) → FitsJob config j → FitsJob config (f j))
      → Fits config r
      → Fits config (record r { jobs = modify id f r.jobs; busy = busy })
  modify-Fits id f busy r c h = record {
    jobs = omega (arith, size-modify id f r.jobs, h.jobs);
    operations = h.operations;
    outputs = AllValues-modify (FitsJob config) id f r.jobs c h.outputs;
  }

  pub with_job-Fits :
      (id : Text) (f : Job → Job) (r : Registry)
      → ((j : Job) → FitsJob config j → FitsJob config (f j))
      → Fits config r
      → Fits config (with_job id f r)
  unfolding with_job
  with_job-Fits id f r c h = modify-Fits id f r.busy r c h

  pub finish-Fits :
      (id : Text) (state : State) (code : Option ℕ) (reason : Text) (release : Bool) (now : ℕ)
      (r : Registry)
      → Fits config r
      → Fits config (finish id state code reason release now r)
  unfolding finish
  finish-Fits id state code reason release now r h = elim (Option-cases (lookup id r.jobs)) [
    | inl e ↦ rw (e, finish) h
    | inr (j, e) ↦ elim (Bool-cases (is_closed j)) [
      | inl q ↦ rw (e, finish) (rw q h)
      | inr q ↦
          rw (e, finish)
            (rw q (
              modify-Fits id (finish_job state code reason release now) _ r
                (unfold finish_job in λ k g. g) h))
    ]
  ]

  pub ack_release-Fits :
      (session : Text) (previous : Option Text) (r : Registry)
      → Fits config r
      → Fits config (ack_release session previous r)
  unfolding ack_release
  ack_release-Fits session previous r h =
      elim (Bool-cases (eq_option (lookup session r.busy) previous)) [
        | inr e ↦ rw (e, ack_release) h
        | inl e ↦ rw (e, ack_release) (released previous)
      ]
    where
      released :
          (o : Option Text)
          → Fits config (record r {
            jobs = elim o [
              | none ↦ r.jobs
              | some id ↦ modify id (λ j. record j { requires_idle_ack = false }) r.jobs
            ];
            busy = remove session r.busy;
          })
      released none = record { jobs = h.jobs; operations = h.operations; outputs = h.outputs }
      released (some id) = modify-Fits id _ (remove session r.busy) r (λ j g. g) h

  output_sum :
      (m : Assoc Job)
      → AllValues (FitsJob config) m
      → retained_output m ≤ size m * config.max_output_bytes
  unfolding retained_output size
  output_sum [] h = omega arith
  output_sum ((id, j) ∷ m) h = omega (arith, h.0, output_sum m h.1)

mul_le : (a b c : ℕ) → a ≤ b → a * c ≤ b * c
mul_le zero b c h = omega arith
mul_le (suc a) zero c h = omega arith
mul_le (suc a) (suc b) c h = omega (arith, mul_le a b c (omega (arith, h)))

pub retained-le :
    (config : BridgeConfig) (r : Registry)
    → Fits config r
    → retained_output r.jobs ≤ config.max_jobs * config.max_output_bytes
retained-le config r h = omega (
  arith,
  output_sum config r.jobs h.outputs,
  mul_le (size r.jobs) config.max_jobs config.max_output_bytes h.jobs,
)
