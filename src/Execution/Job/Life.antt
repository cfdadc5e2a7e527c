-- ===== src/Execution/Job/Life.antt =====
-- The fields of a job that `Job::append` of src/execution.rs leaves alone.
use securecrt_mcp.Prelude.{
  ℕ, ◌≡◌, refl, Bool, true, false, ◌++◌, ltb, if◌then◌else◌, Bool-cases, inl, inr,
}
use securecrt_mcp.Text.{Text, len}
use securecrt_mcp.Execution.Job.{Job, note_output, append, append_stream, append_bounded}

abbrev pub SameLife : Job → Job → Type 0
SameLife k j =
    (k.session ≡ j.session)
    × (k.operation_id ≡ j.operation_id)
    × (k.finished ≡ j.finished)
    × (k.requires_idle_ack ≡ j.requires_idle_ack)
    × (k.state ≡ j.state)

append_stream-SameLife :
    (j : Job) (text : Text) (limit : ℕ) → SameLife (append_stream j text limit) j
unfolding append_stream
append_stream-SameLife j text limit = elim (Bool-cases (ltb limit (len (j.output ++ text)))) [
  | inl e ↦ rw e (refl, refl, refl, refl, refl)
  | inr e ↦ rw e (refl, refl, refl, refl, refl)
]

append_bounded-SameLife :
    (j : Job) (text : Text) (limit : ℕ) → SameLife (append_bounded j text limit) j
unfolding append_bounded
append_bounded-SameLife j text limit = (refl, refl, refl, refl, refl)

either-SameLife :
    (b : Bool) (k l j : Job) → SameLife k j → SameLife l j → SameLife (if b then k else l) j
either-SameLife true k l j hk hl = hk
either-SameLife false k l j hk hl = hl

pub append-SameLife :
    (now : ℕ) (j : Job) (text : Text) (limit : ℕ) → SameLife (append now j text limit) j
unfolding append note_output
append-SameLife now j text limit =
    either-SameLife j.stream _ _ j (append_stream-SameLife (note_output now j text) text limit)
      (append_bounded-SameLife (note_output now j text) text limit)
