-- ===== src/Connector/Manager/Ledger.antt =====
-- The invariant of the ledger of operations and of the receipts of src/connector.rs.
use securecrt_mcp.Prelude.{
  ℕ, ◌≤◌, ◌≡◌, refl, ap, ◌∙◌, Bool, true, false, List, [], ◌∷◌, arith, ltb, leb, if◌then◌else◌,
  Bool-cases, Option-cases, inl, inr, Option, none, some, Result, ok, err, is_some,
}
use securecrt_mcp.Text.{Text, eq_text, contains}
use securecrt_mcp.Text.Equality.{eq_text_iff}
use securecrt_mcp.Assoc.{Assoc, lookup, size}
use securecrt_mcp.Assoc.Laws.{lookup-insert, size-insert-le, size-remove-lt}
use securecrt_mcp.Connector.Manager.{
  CommandRecord, Request, Manager, initial, Reservation, ExecError, not_exec, session_unresolved,
  guarded, dispatch, reserved, guarded_dispatch, reserve, age_key, earlier, oldest, make_room,
  store, Event, reservation, storing, step, run,
}

abbrev pub AllDistinct : List Text → Type 0
AllDistinct [] = Unit
AllDistinct (op ∷ ops) = (contains ops op ≡ false) × AllDistinct ops

record IsSound (m : Manager) : Type 0 where
  known : (op : Text) → contains m.dispatched op ≡ true → is_some (lookup op m.operations) ≡ true
  distinct : AllDistinct m.dispatched
  operations : size m.operations ≤ 4096
  commands : size m.commands ≤ 32

reserved-IsSound :
    (q : Request) (m : Manager)
    → lookup q.operation_id m.operations ≡ none
    → ltb (size m.operations) 4096 ≡ true
    → IsSound m
    → IsSound (reserved q m)
unfolding contains
reserved-IsSound q m fresh room h = record {
  known = λ op e. ground (
    arith,
    lookup-insert q.operation_id op (q.command_id, q.fingerprint) m.operations,
    h.known op,
  );
  distinct = (
    (elim (Bool-cases (contains m.dispatched q.operation_id)) [
      | inr e ↦ e
      | inl e ↦ let k = h.known q.operation_id e in absurd (ground (arith, k, fresh))
    ]),
    h.distinct,
  );
  operations =
      let k = size-insert-le q.operation_id (q.command_id, q.fingerprint) m.operations in
      ground (arith, k);
  commands = h.commands;
}

guarded-IsSound :
    (q : Request) (m : Manager)
    → lookup q.operation_id m.operations ≡ none
    → ltb (size m.operations) 4096 ≡ true
    → IsSound m
    → IsSound (guarded_dispatch q m).0
unfolding guarded_dispatch
guarded-IsSound q m fresh room h = go q.interlock q.guard
  where
    go :
        (o : Option Bool) (g : Result Text (Unit {0}))
        → IsSound
            (elim o as (λ _. Manager × Result ExecError Reservation) [
              | none ↦ (m, err not_exec)
              | some unresolved ↦ if unresolved then (m, err session_unresolved) else elim g [
                | err reason ↦ (m, err (guarded reason))
                | ok _ ↦ (reserved q m, ok dispatch)
              ]
            ]).0
    go none g = h
    go (some true) g = h
    go (some false) (err reason) = h
    go (some false) (ok _) = reserved-IsSound q m fresh room h

reserve-IsSound : (q : Request) (m : Manager) → IsSound m → IsSound (reserve q m).0
unfolding reserve
reserve-IsSound q m h = elim (Option-cases (lookup q.operation_id m.operations)) [
  | inr (entry, e) ↦ rw (e, reserve) h
  | inl e ↦ elim (Bool-cases (ltb (size m.operations) 4096)) [
    | inl r ↦ rw (e, r, reserve) (guarded-IsSound q m e r h)
    | inr r ↦ rw (e, r, reserve) h
  ]
]

-- The oldest of some receipts is one of them.
oldest_lem :
    (k : Text) (r : CommandRecord) (m : Assoc CommandRecord)
    → (id : Text) × (t : ℕ) × (v : CommandRecord) × (oldest ((k, r) ∷ m) ≡ some (id, t))
      × (lookup id ((k, r) ∷ m) ≡ some v)
unfolding oldest lookup
oldest_lem k r [] = (k, age_key r, r, refl, ground (arith, eq_text_iff k k))
oldest_lem k r ((j, s) ∷ m) =
    let (id, t, v, o, found) = oldest_lem j s m in
    elim (Bool-cases (leb (age_key r) t)) [
      | inl e ↦ (
        k,
        age_key r,
        r,
        ap (earlier k (age_key r)) o ∙ rw e refl,
        ground (arith, eq_text_iff k k),
      )
      | inr e ↦ elim (Bool-cases (eq_text k id)) [
        | inl q ↦ (id, t, r, ap (earlier k (age_key r)) o ∙ rw e refl, rw q refl)
        | inr q ↦ (id, t, v, ap (earlier k (age_key r)) o ∙ rw e refl, rw q found)
      ]
    ]

make_room-size : (m : Assoc CommandRecord) → size m ≤ 32 → size (make_room m) ≤ 31
unfolding make_room
make_room-size [] h = unfold size in unfold oldest in omega arith
make_room-size ((k, r) ∷ m) h = elim (Bool-cases (leb 32 (size ((k, r) ∷ m)))) [
  | inr e ↦ rw e (ground arith)
  | inl e ↦
      let (id, t, v, o, found) = oldest_lem k r m in
      let k = size-remove-lt id v ((k, r) ∷ m) found in rw (e, o) (omega (arith, k, h))
]

store-IsSound : (id : Text) (r : CommandRecord) (m : Manager) → IsSound m → IsSound (store id r m)
unfolding store
store-IsSound id r m h = record {
  known = h.known;
  distinct = h.distinct;
  operations = h.operations;
  commands =
      omega
        (arith, make_room-size m.commands h.commands, size-insert-le id r (make_room m.commands));
}

run-IsSound : (m : Manager) (es : List Event) → IsSound m → IsSound (run m es)
unfolding run step
run-IsSound m [] h = h
run-IsSound m (reservation q ∷ es) h = run-IsSound (reserve q m).0 es (reserve-IsSound q m h)
run-IsSound m (storing id r ∷ es) h = run-IsSound (store id r m) es (store-IsSound id r m h)

initial-IsSound : IsSound initial
unfolding initial size contains
initial-IsSound = record {
  known = λ op e. cc e;
  distinct = tt;
  operations = omega arith;
  commands = omega arith;
}

-- Whatever the requests and their order, no operation is dispatched twice, the ledger has at most 4096
-- entries, and at most 32 receipts are kept.
pub run-AllDistinct :
    (es : List Event)
    → AllDistinct (run initial es).dispatched
      × (size (run initial es).operations ≤ 4096)
      × (size (run initial es).commands ≤ 32)
run-AllDistinct es =
    let h = run-IsSound initial es initial-IsSound in (h.distinct, h.operations, h.commands)
