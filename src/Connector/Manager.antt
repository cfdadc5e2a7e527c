-- ===== src/Connector/Manager.antt =====
-- `ConnectorManager::exec` of src/connector.rs: the ledger of operations and the receipts. An event is
-- one section that holds a lock: the reservation of a dispatch, or the storing of its receipt.
pub mod Ledger
use securecrt_mcp.Prelude.{
  ℕ, zero, suc, ◌+◌, ◌-◌, ◌≤◌, ◌<◌, min, max, ◌≡◌, refl, sym, ap, ap₂, ◌∙◌, Bool, true, false, not,
  ◌&&◌, ◌||◌, List, [], ◌∷◌, ◌++◌, arith, ltb, leb, ◌==◌, if◌then◌else◌, Bool-cases, Option-cases,
  inl, inr, Option, none, some, All, append_assoc, append-nil, Result, ok, err, ◌>>=◌, ◌>>◌, ensure,
  context, is_some, unwrap_or, is_empty, all, any, ◌*◌, ◌≢◌, ◌⊎◌, ◌↔◌, subst,
}
use securecrt_mcp.Text.{Text, eq_text}
use securecrt_mcp.Text.Equality.{eq_text_iff}
use securecrt_mcp.Assoc.{Assoc, lookup, insert, remove, size}
use securecrt_mcp.Assoc.Laws.{lookup-insert, size-insert-le, size-remove-le, size-remove-lt}
use securecrt_mcp.Connector.Exec.{ExecOutcome}

-- The fields of `CommandRecord` that the manager decides by.
pub record CommandRecord : Type 0 where
  pub session_id : Text
  pub operation_id : Text
  pub outcome : ExecOutcome
  pub created : ℕ
  pub finished : Option ℕ

pub data ExecError : Type 0 where
  operation_conflict unknown_command ledger_full session_unresolved not_exec : ExecError
  -- The guard of src/connector/security.rs denies, or its audit record fails.
  guarded : Text → ExecError

-- What the section finds of the session: none is unknown or a PTY; else its interlock.
pub record Request : Type 0 where
  pub operation_id : Text
  pub fingerprint : Text
  pub command_id : Text
  pub interlock : Option Bool
  pub guard : Result Text (Unit {0})

pub record Manager : Type 0 where
  pub operations : Assoc (Text × Text)
  pub commands : Assoc CommandRecord
  -- The operations that have been handed to `run_exec`, the latest first.
  pub dispatched : List Text

unfoldable pub initial : Manager
initial = record { operations = []; commands = []; dispatched = [] }

pub data Reservation : Type 0 where
  receipt : CommandRecord → Reservation
  dispatch : Reservation

unfoldable pub command_status : Manager → Text → Result ExecError Reservation
command_status m id = elim (lookup id m.commands) [
  | none ↦ err unknown_command
  | some r ↦ ok (receipt r)
]

-- A known operation.
unfoldable pub repeated : Request → Text × Text → Manager → Result ExecError Reservation
unfolding command_status
repeated q (old, fingerprint) m =
    if eq_text fingerprint q.fingerprint then command_status m old else err operation_conflict

-- The checks on the session and by the guard, and the entry in the ledger.
abbrev reserved : Request → Manager → Manager
reserved q m = record m {
  operations = insert q.operation_id (q.command_id, q.fingerprint) m.operations;
  dispatched = q.operation_id ∷ m.dispatched;
}

unfoldable pub guarded_dispatch : Request → Manager → Manager × Result ExecError Reservation
guarded_dispatch q m = elim q.interlock [
  | none ↦ (m, err not_exec)
  | some unresolved ↦ if unresolved then (m, err session_unresolved) else elim q.guard [
    | err reason ↦ (m, err (guarded reason))
    | ok _ ↦ (reserved q m, ok dispatch)
  ]
]

unfoldable pub reserve : Request → Manager → Manager × Result ExecError Reservation
unfolding repeated guarded_dispatch
reserve q m = elim (lookup q.operation_id m.operations) [
  | some entry ↦ (m, repeated q entry m)
  | none ↦ if ltb (size m.operations) 4096 then guarded_dispatch q m else (m, err ledger_full)
]

-- `record.finished.unwrap_or(record.created)`.
unfoldable pub age_key : CommandRecord → ℕ
age_key r = unwrap_or r.finished r.created

abbrev earlier : Text → ℕ → Option (Text × ℕ) → Option (Text × ℕ)
earlier k t none = some (k, t)
earlier k t (some (j, u)) = if leb t u then some (k, t) else some (j, u)

unfoldable pub oldest : Assoc CommandRecord → Option (Text × ℕ)
unfolding age_key
oldest [] = none
oldest ((k, r) ∷ m) = earlier k (age_key r) (oldest m)

unfoldable pub make_room : Assoc CommandRecord → Assoc CommandRecord
unfolding oldest
make_room commands =
    if leb 32 (size commands)
    then elim (oldest commands) [ none ↦ commands | some (id, t) ↦ remove id commands ]
    else commands

unfoldable pub store : Text → CommandRecord → Manager → Manager
unfolding make_room
store id r m = record m { commands = insert id r (make_room m.commands) }

pub data Event : Type 0 where
  reservation : Request → Event
  storing : Text → CommandRecord → Event

unfoldable pub step : Manager → Event → Manager
unfolding reserve store
step m (reservation q) = (reserve q m).0
step m (storing id r) = store id r m

unfoldable pub run : Manager → List Event → Manager
unfolding step
run m [] = m
run m (e ∷ es) = run (step m e) es
