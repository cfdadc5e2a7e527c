-- ===== src/Execution/Registry/Invariant.antt =====
-- The invariant that ties jobs, sessions and the ledger together, and that every locked section keeps.
use securecrt_mcp.Prelude.{
  ℕ, ◌≡◌, refl, ap, ◌∙◌, false, arith, ltb, Bool-cases, Option-cases, inl, inr, none, some,
}
use securecrt_mcp.Text.{Text, eq_text}
use securecrt_mcp.Text.Equality.{eq_text_iff, eq_text→eq}
use securecrt_mcp.Assoc.{lookup, contains_key, size, IsDistinct}
use securecrt_mcp.Assoc.Laws.{lookup-insert, lookup-modify, lookup-modify_inv}
use securecrt_mcp.Assoc.Distinct.{insert-IsDistinct, modify-IsDistinct}
use securecrt_mcp.Config.{BridgeConfig}
use securecrt_mcp.Execution.Job.{Job}
use securecrt_mcp.Execution.Params.{ExecuteParams}
use securecrt_mcp.Execution.Registry.{
  Registry, empty, new_job, sweep, enter, admit, reserve, with_job, is_closed,
}
use securecrt_mcp.Execution.Registry.Sweep.{sweep-Swept}

-- A session is held exactly by the job on it that is not closed, and every job is in the ledger.
pub record IsConsistent (r : Registry) : Type 0 where
  pub distinct : IsDistinct r.jobs
  pub held :
      (session id : Text)
      → lookup session r.busy ≡ some id
      → (j : Job) × (lookup id r.jobs ≡ some j) × (j.session ≡ session) × (is_closed j ≡ false)
  pub holder :
      (id : Text) (j : Job)
      → lookup id r.jobs ≡ some j
      → is_closed j ≡ false
      → lookup j.session r.busy ≡ some id
  pub ledgered :
      (id : Text) (j : Job)
      → lookup id r.jobs ≡ some j
      → (hash : Text) × (lookup j.operation_id r.operations ≡ some (id, hash))

pub empty-IsConsistent : IsConsistent empty
unfolding empty lookup
empty-IsConsistent = record {
  distinct = tt;
  held = λ s i h. cc;
  holder = λ i j h l. cc;
  ledgered = λ i j h. cc;
}

pub sweep-IsConsistent :
    (config : BridgeConfig) (now : ℕ) (r : Registry)
    → IsConsistent r
    → IsConsistent (sweep config now r)
sweep-IsConsistent config now r c =
    let w = sweep-Swept config now r c.distinct in
    unfold sweep in
    record {
      distinct = w.distinct;
      held = λ s i h. let (j, f, e, l) = c.held s i h in (j, w.kept i j f l, e, l);
      holder = λ i j f l. c.holder i j (w.old i j f) l;
      ledgered = λ i j f. c.ledgered i j (w.old i j f);
    }

module _ (now : ℕ) (p : ExecuteParams) (fingerprint id : Text) (r : Registry) where
  pub enter-IsConsistent :
      lookup id r.jobs ≡ none
      → lookup p.session r.busy ≡ none
      → lookup p.operation_id r.operations ≡ none
      → IsConsistent r
      → IsConsistent (enter now p fingerprint id r)
  unfolding enter new_job is_closed
  enter-IsConsistent fresh idle unseen c = record {
    distinct = insert-IsDistinct id (new_job now p id) r.jobs c.distinct;
    held = λ s i h. elim (Bool-cases (eq_text p.session s)) [
      | inl e ↦ (
        new_job now p id,
        ground (
          arith,
          lookup-insert id i (new_job now p id) r.jobs,
          lookup-insert p.session s id r.busy,
          eq_text_iff id i,
        ),
        eq_text→eq p.session s e,
        refl,
      )
      | inr e ↦
          let was : lookup s r.busy ≡ some i =
            ground (arith, lookup-insert p.session s id r.busy) in
          let (j, f, q, l) = c.held s i was in
          (j, ground (arith, lookup-insert id i (new_job now p id) r.jobs, eq_text_iff id i), q, l)
    ];
    holder = λ i j f l. ground (
      arith,
      lookup-insert id i (new_job now p id) r.jobs,
      lookup-insert p.session j.session id r.busy,
      eq_text_iff id i,
      eq_text_iff p.session j.session,
      c.holder i j,
    );
    ledgered = λ i j f. elim (Bool-cases (eq_text id i)) [
      | inl e ↦ (
        fingerprint,
        ground (
          arith,
          lookup-insert id i (new_job now p id) r.jobs,
          lookup-insert p.operation_id j.operation_id (id, fingerprint) r.operations,
          eq_text_iff id i,
          eq_text_iff p.operation_id j.operation_id,
        ),
      )
      | inr e ↦
          let was : lookup i r.jobs ≡ some j =
            ground (arith, lookup-insert id i (new_job now p id) r.jobs) in
          let (hash, q) = c.ledgered i j was in
          (
            hash,
            ground (
              arith,
              lookup-insert p.operation_id j.operation_id (id, fingerprint) r.operations,
              eq_text_iff p.operation_id j.operation_id,
            ),
          )
    ];
  }

module _ (config : BridgeConfig) (now : ℕ) (p : ExecuteParams) (fingerprint id : Text) where
  admit-IsConsistent :
      (r : Registry)
      → lookup id r.jobs ≡ none
      → lookup p.session r.busy ≡ none
      → lookup p.operation_id r.operations ≡ none
      → IsConsistent r
      → IsConsistent (admit config now p fingerprint id r).0
  unfolding admit
  admit-IsConsistent r fresh idle unseen c = elim (Bool-cases (ltb (size r.jobs) config.max_jobs)) [
    | inr e ↦ rw e c
    | inl e ↦ elim (Bool-cases (ltb (size r.operations) 4096)) [
      | inr q ↦ rw e (rw q c)
      | inl q ↦ rw e (rw q (enter-IsConsistent now p fingerprint id r fresh idle unseen c))
    ]
  ]

  pub sweep-lookup-none :
      (r : Registry)
      → IsConsistent r
      → lookup id r.jobs ≡ none
      → lookup id (sweep config now r).jobs ≡ none
  sweep-lookup-none r c fresh = elim (Option-cases (lookup id (sweep config now r).jobs)) [
    | inl e ↦ e
    | inr (j, e) ↦ cc ((sweep-Swept config now r c.distinct).old id j e)
  ]

  -- A submission under the lock keeps the registry consistent, if the identifier that it drew is new.
  pub reserve-IsConsistent :
      (r : Registry)
      → lookup id r.jobs ≡ none
      → IsConsistent r
      → IsConsistent (reserve config now p fingerprint id r).0
  unfolding reserve contains_key
  reserve-IsConsistent r fresh c = elim (Option-cases (lookup p.operation_id r.operations)) [
    | inr (entry, e) ↦ rw (e, reserve) c
    | inl e ↦ elim (Option-cases (lookup p.session r.busy)) [
      | inr (b, q) ↦ rw (e, reserve) (rw (q, contains_key) c)
      | inl q ↦
          rw (e, reserve)
            (rw (q, contains_key)
              (admit-IsConsistent (sweep config now r) (sweep-lookup-none r c fresh)
                (unfold sweep in q) (unfold sweep in e) (sweep-IsConsistent config now r c)))
    ]
  ]

-- A change of a job that leaves its names and its standing alone.
abbrev pub KeepsStanding : (Job → Job) → Type 0
KeepsStanding f =
    (j : Job)
    → ((f j).session ≡ j.session)
      × ((f j).operation_id ≡ j.operation_id)
      × (is_closed (f j) ≡ is_closed j)

pub with_job-IsConsistent :
    (id : Text) (f : Job → Job) (r : Registry)
    → KeepsStanding f
    → IsConsistent r
    → IsConsistent (with_job id f r)
unfolding with_job
with_job-IsConsistent id f r k c = record {
  distinct = modify-IsDistinct id f r.jobs c.distinct;
  held = λ s i h.
      let (j, found, q, l) = c.held s i h in
      elim (Bool-cases (eq_text id i)) [
        | inl e ↦ (f j, ground (arith, lookup-modify id i f r.jobs), (k j).0 ∙ q, (k j).2 ∙ l)
        | inr e ↦ (j, ground (arith, lookup-modify id i f r.jobs), q, l)
      ];
  holder = λ i w g l.
      let (j, found, q) = lookup-modify_inv id i f r.jobs w g in
      ground (arith, c.holder i j, k j, ap is_closed q);
  ledgered = λ i w g.
      let (j, found, q) = lookup-modify_inv id i f r.jobs w g in
      let (hash, known) = c.ledgered i j found in (hash, ground (arith, k j));
}
