-- ===== src/Execution/Registry/Acknowledge.antt =====
-- The release of a session by `acknowledge_idle`.
use securecrt_mcp.Prelude.{
  ◌≡◌, refl, sym, ap, ◌∙◌, true, false, arith, Bool-cases, inl, inr, Option, none, some, is_some,
}
use securecrt_mcp.Text.{Text, eq_text}
use securecrt_mcp.Text.Equality.{eq_text_iff, eq_text→eq}
use securecrt_mcp.Assoc.{lookup, remove, modify}
use securecrt_mcp.Assoc.Laws.{lookup-remove, lookup-modify, lookup-modify_inv}
use securecrt_mcp.Assoc.Distinct.{modify-IsDistinct}
use securecrt_mcp.Execution.Job.{Job}
use securecrt_mcp.Execution.Registry.{Registry, is_closed, ack_release, eq_option}
use securecrt_mcp.Execution.Registry.Invariant.{IsConsistent}

abbrev acknowledged : Job → Job
acknowledged j = record j { requires_idle_ack = false }

-- With the acknowledgement a finished job is closed.
acknowledged-is_closed : (j : Job) → is_some j.finished ≡ true → is_closed (acknowledged j) ≡ true
unfolding is_closed
acknowledged-is_closed j h = ground arith

pub eq_option-eq_some : (o : Option Text) (id : Text) → eq_option o (some id) ≡ true → o ≡ some id
eq_option-eq_some none id h = cc
eq_option-eq_some (some i) id h = ap (λ x. some x) (eq_text→eq i id h)

eq_option-eq_none : (o : Option Text) → eq_option o none ≡ true → o ≡ none
eq_option-eq_none none h = refl
eq_option-eq_none (some i) h = cc

module _ (session id : Text) (r : Registry) (c : IsConsistent r)
    (done : (j : Job) → lookup id r.jobs ≡ some j → is_some j.finished ≡ true)
    (holds : lookup session r.busy ≡ some id) where
  released-IsConsistent :
      IsConsistent (record r { jobs = modify id acknowledged r.jobs; busy = remove session r.busy })
  released-IsConsistent = record {
    distinct = modify-IsDistinct id acknowledged r.jobs c.distinct;
    held = λ s i h.
        let was : lookup s r.busy ≡ some i = ground (arith, lookup-remove session s r.busy) in
        let (k, at, q, l) = c.held s i was in
        (
          k,
          ground (
            arith,
            lookup-modify id i acknowledged r.jobs,
            lookup-remove session s r.busy,
            eq_text_iff id i,
            eq_text_iff session s,
            (c.held session id holds).1,
            (c.held session id holds).2,
          ),
          q,
          l,
        );
    holder = λ i w g l.
        let (k, at, q) = lookup-modify_inv id i acknowledged r.jobs w g in
        elim (Bool-cases (eq_text id i)) [
          | inl e ↦
              ground (arith, eq_text_iff id i, ap is_closed q, acknowledged-is_closed k, done k)
          | inr e ↦
              let same : w ≡ k = ground arith in
              let live : is_closed k ≡ false = ap is_closed (sym same) ∙ l in
              ground (
                arith,
                c.holder i k at live,
                lookup-remove session k.session r.busy,
                eq_text_iff session k.session,
                eq_text_iff id i,
              )
        ];
    ledgered = λ i w g.
        let (k, at, q) = lookup-modify_inv id i acknowledged r.jobs w g in
        let (hash, known) = c.ledgered i k at in (hash, ground arith);
  }

-- Releasing a session keeps the registry consistent, if the job that held it has finished.
pub ack_release-IsConsistent :
    (session id : Text) (r : Registry)
    → IsConsistent r
    → ((j : Job) → lookup id r.jobs ≡ some j → is_some j.finished ≡ true)
    → IsConsistent (ack_release session (some id) r)
unfolding ack_release
ack_release-IsConsistent session id r c done =
    elim (Bool-cases (eq_option (lookup session r.busy) (some id))) [
      | inr e ↦ rw (e, ack_release) c
      | inl e ↦
          rw (e, ack_release)
            (released-IsConsistent session id r c done
              (eq_option-eq_some (lookup session r.busy) id e))
    ]

-- With no job seen at the check, the release changes the hold of no session.
pub ack_release-none-IsConsistent :
    (session : Text) (r : Registry) → IsConsistent r → IsConsistent (ack_release session none r)
unfolding ack_release
ack_release-none-IsConsistent session r c =
    elim (Bool-cases (eq_option (lookup session r.busy) none)) [
      | inr e ↦ rw (e, ack_release) c
      | inl e ↦
          let idle = eq_option-eq_none (lookup session r.busy) e in
          rw (e, ack_release)
            (record {
              distinct = c.distinct;
              held = λ s i h. c.held s i (ground (arith, lookup-remove session s r.busy));
              holder = λ i j f l. ground (
                arith,
                c.holder i j,
                lookup-remove session j.session r.busy,
                eq_text_iff session j.session,
              );
              ledgered = c.ledgered;
            })
    ]
