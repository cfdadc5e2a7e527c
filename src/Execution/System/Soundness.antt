-- ===== src/Execution/System/Soundness.antt =====
-- The invariant of the interleaved system, and its preservation by a change of one job.
use securecrt_mcp.Prelude.{
  ◌≡◌, refl, sym, Bool, true, false, ◌||◌, List, [], ◌∷◌, arith, Bool-cases, inl, inr, Option, none,
  some, is_some, subst,
}
use securecrt_mcp.Text.{Text, eq_text, contains}
use securecrt_mcp.Text.Equality.{eq_text_iff}
use securecrt_mcp.Assoc.{Assoc, lookup}
use securecrt_mcp.Execution.Job.{State, Job}
use securecrt_mcp.Execution.Params.{ExecuteParams}
use securecrt_mcp.Execution.Registry
use securecrt_mcp.Execution.Registry.{Registry, is_closed}
use securecrt_mcp.Execution.Registry.Invariant.{IsConsistent, empty-IsConsistent}
use securecrt_mcp.Execution.System.{
  System, Phase, reserved, dispatching, initial, Verdict, is_pending,
}
use securecrt_mcp.Execution.System.Changes.{IsCoherent, Changes, Changes-lookup}

-- A submission before the reply to its `begin`.
abbrev pub is_early : Option Phase → Bool
is_early (some (reserved p)) = true
is_early (some dispatching) = true
is_early _ = false

-- The operation has been sent.
abbrev pub was_sent : Text → List (Text × Text) → Bool
was_sent op [] = false
was_sent op ((o, command) ∷ rest) = eq_text o op || was_sent op rest

-- No operation has been sent twice.
abbrev pub NoRepeat : List (Text × Text) → Type 0
NoRepeat [] = Unit
NoRepeat ((op, command) ∷ rest) = (was_sent op rest ≡ false) × NoRepeat rest

-- Every command that was sent had been allowed.
abbrev pub AllAllowed : (Text → Verdict) → List (Text × Text) → Type 0
AllAllowed classify [] = Unit
AllAllowed classify ((op, command) ∷ rest) =
    ((classify command).allow ≡ true) × AllAllowed classify rest

pub record IsSound (classify : Text → Verdict) (s : System) : Type 0 where
  pub consistent : IsConsistent s.registry
  pub coherent : (id : Text) (j : Job) → lookup id s.registry.jobs ≡ some j → IsCoherent j
  pub known : (id : Text) → lookup id s.phases ≡ none → lookup id s.registry.jobs ≡ none
  pub early :
      (id : Text)
      → is_early (lookup id s.phases) ≡ true
      → (j : Job) × (lookup id s.registry.jobs ≡ some j)
        × (j.finished ≡ none)
        × (j.state ≡ State.starting)
  pub interrupting :
      (id : Text)
      → contains s.interrupts id ≡ true
      → (is_some (lookup id s.phases) ≡ true) × (is_early (lookup id s.phases) ≡ false)
  pub acking :
      (session id : Text)
      → is_pending session (some id) s.acks ≡ true
      → (is_some (lookup id s.phases) ≡ true)
        × ((j : Job) → lookup id s.registry.jobs ≡ some j → is_some j.finished ≡ true)
  pub unsent :
      (id : Text) (p : ExecuteParams)
      → lookup id s.phases ≡ some (reserved p)
      → (hash : Text) × (lookup p.operation_id s.registry.operations ≡ some (id, hash))
        × (was_sent p.operation_id s.sent ≡ false)
  pub sent_ledgered :
      (op : Text) → was_sent op s.sent ≡ true → is_some (lookup op s.registry.operations) ≡ true
  pub no_repeat : NoRepeat s.sent
  pub all_allowed : AllAllowed classify s.sent

pub initial-IsSound : (classify : Text → Verdict) → IsSound classify initial
unfolding initial lookup contains is_pending
initial-IsSound classify = record {
  consistent = empty-IsConsistent;
  coherent = λ i j f. unfold Registry.empty in cc f;
  known = λ i n. unfold Registry.empty in refl;
  early = λ i e. cc e;
  interrupting = λ i e. cc e;
  acking = λ q i e. cc e;
  unsent = λ i p e. cc e;
  sent_ledgered = λ op e. cc e;
  no_repeat = tt;
  all_allowed = tt;
}

-- The new phases differ from the old ones at `id` only, which is past its reply to `begin`.
pub record Advances (id : Text) (before after : Assoc Phase) : Type 0 where
  pub others : (i : Text) → eq_text id i ≡ false → lookup i after ≡ lookup i before
  pub was_known : is_some (lookup id before) ≡ true
  pub is_known : is_some (lookup id after) ≡ true
  pub late : is_early (lookup id after) ≡ false

module _ (classify : Text → Verdict) (s : System) (id : Text) (r : Registry) (phases : Assoc Phase)
    (h : IsSound classify s) (c : Changes id s.registry r) (w : IsConsistent r)
    (a : Advances id s.phases phases) where
  is_other : (i : Text) → is_early (lookup i phases) ≡ true → eq_text id i ≡ false
  is_other i e = ground (arith, eq_text_iff id i, a.late)

  still_known : (i : Text) → is_some (lookup i s.phases) ≡ true → is_some (lookup i phases) ≡ true
  still_known i e = ground (arith, eq_text_iff id i, a.others i, a.is_known)

  changed-IsCoherent : (i : Text) (j : Job) → lookup i r.jobs ≡ some j → IsCoherent j
  changed-IsCoherent i j f =
      let (k, at, q) = Changes-lookup c i j f in
      elim (Bool-cases (eq_text id i)) [
        | inl e ↦
            let here : lookup id s.registry.jobs ≡ some k = ground (arith, eq_text_iff id i) in
            let same : j ≡ c.change k = ground arith in
            subst IsCoherent (sym same) (c.coherent k here (h.coherent id k here))
        | inr e ↦ let same : j ≡ k = ground arith in subst IsCoherent (sym same) (h.coherent i k at)
      ]

  changed-early :
      (i : Text)
      → is_early (lookup i phases) ≡ true
      → (j : Job) × (lookup i r.jobs ≡ some j) × (j.finished ≡ none) × (j.state ≡ State.starting)
  changed-early i e =
      let other = is_other i e in
      let (j, at, unfinished, starting) = h.early i (ground (arith, a.others i other)) in
      (j, ground (arith, c.jobs i), unfinished, starting)

  changed-acking :
      (session i : Text)
      → is_pending session (some i) s.acks ≡ true
      → (is_some (lookup i phases) ≡ true)
        × ((j : Job) → lookup i r.jobs ≡ some j → is_some j.finished ≡ true)
  changed-acking session i e =
      let (seen, done) = h.acking session i e in
      (
        still_known i seen,
        λ j f. let (k, at, q) = Changes-lookup c i j f in ground (arith, done k at, c.finished k),
      )

  changed-unsent :
      (i : Text) (p : ExecuteParams)
      → lookup i phases ≡ some (reserved p)
      → (hash : Text) × (lookup p.operation_id r.operations ≡ some (i, hash))
        × (was_sent p.operation_id s.sent ≡ false)
  changed-unsent i p e =
      let other = is_other i (ground arith) in
      let (hash, entry, new) = h.unsent i p (ground (arith, a.others i other)) in
      (hash, rw c.operations entry, new)

  -- A change of a job that is past its `begin` keeps the invariant.
  pub changed-IsSound : IsSound classify (record s { registry = r; phases = phases })
  changed-IsSound = record {
    consistent = w;
    coherent = changed-IsCoherent;
    known = λ i n. ground (arith, h.known i, c.jobs i, eq_text_iff id i, a.others i, a.is_known);
    early = changed-early;
    interrupting = λ i e.
        let (seen, late) = h.interrupting i e in
        (still_known i seen, ground (arith, eq_text_iff id i, a.others i, a.late));
    acking = changed-acking;
    unsent = changed-unsent;
    sent_ledgered = λ op e. rw c.operations (h.sent_ledgered op e);
    no_repeat = h.no_repeat;
    all_allowed = h.all_allowed;
  }
