-- ===== src/Bridge.antt =====
-- The file transport of src/bridge.rs: how a request finds its terminal instance, and how a response
-- is checked. What lies in the files and what an instance answers is the argument of each operation.
pub mod Frame
pub mod Calls
pub mod Routing
pub mod Answered
pub mod Steady
use securecrt_mcp.Prelude.{
  ℕ, zero, suc, ◌+◌, ◌-◌, ◌*◌, min, Bool, true, false, not, ◌&&◌, ◌||◌, List, [], ◌∷◌, ◌++◌, ltb,
  leb, ◌==◌, if◌then◌else◌, Option, none, some, Result, ok, err, ◌>>=◌, ◌>>◌, ensure, context,
  unwrap_or, is_empty, is_some, length,
}
use securecrt_mcp.Text.{Text, codes, eq_text, contains, split}
use securecrt_mcp.Assoc.{Assoc, lookup, insert}

pub data BridgeError : Type 0 where
  protocol_mismatch id_mismatch missing_identity wrong_instance invalid_response : BridgeError
  timed_out invalid_instance offline not_responding unbound_handle not_running : BridgeError
  ambiguous_route oversized_frame disconnected : BridgeError
  rejected : Text → Option Bool → BridgeError
  failed : Text → BridgeError

abbrev pub protocol : ℕ
protocol = 2

-- The fields of a result that are read back; `is_object` fails for any other value.
pub record Reply : Type 0 where
  pub is_object : Bool
  pub bridge_instance : Option Text
  pub capture_id : Option Text
  pub sessions : Option (List Text)
  pub capabilities : Option (List Text)
  pub errors : Option (List Text)

-- A response; `accepted` is its field `ok`.
pub record Response : Type 0 where
  pub protocol_version : Option ℕ
  pub id : Option Text
  pub bridge_instance : Option Text
  pub accepted : Option Bool
  pub sent : Option Bool
  pub error : Text
  pub result : Reply

abbrev pub is_text : Option Text → Text → Bool
is_text none t = false
is_text (some s) t = eq_text s t

abbrev pub is_number : Option ℕ → ℕ → Bool
is_number none n = false
is_number (some m) n = m == n

abbrev pub or_else {ℓ} : {A : Type ℓ} → Option A → Option A → Option A
or_else none o = o
or_else (some a) o = some a

-- `object.entry("bridge_instance").or_insert`.
unfoldable pub with_instance : Option Text → Reply → Reply
with_instance instance r =
    if r.is_object then record r { bridge_instance = or_else r.bridge_instance instance } else r

unfoldable pub finish_response : Response → Text → Result BridgeError Reply
unfolding with_instance
finish_response r id =
    ensure (is_number r.protocol_version protocol) protocol_mismatch
    >> ensure (is_text r.id id) id_mismatch
    >> ensure (is_some r.bridge_instance) missing_identity
    >> ensure (unwrap_or r.accepted false) (rejected r.error r.sent)
    >> ok (with_instance r.bridge_instance r.result)

-- One read of a file. A loop also finds whether its deadline has passed behind the read.
pub data Read {ℓ} (A : Type ℓ) : Type ℓ where
  found : A → Read A
  unreadable missing : Read A
  broken : Text → Read A

-- The loop of `call_file_instance` behind its request; without an end it still waits.
unfoldable pub await_response :
    Text → Text → List (Read Response × Bool) → Option (Result BridgeError Reply)
unfolding finish_response
await_response instance id [] = none
await_response instance id ((read, expired) ∷ looks) =
    let rest = await_response instance id looks in
    elim read [
      | found r ↦
          some (ensure (is_text r.bridge_instance instance) wrong_instance >> finish_response r id)
      | unreadable ↦ some (err invalid_response)
      | missing ↦ if expired then some (err timed_out) else rest
      | broken e ↦ some (err (failed e))
    ]

-- The pauses between the reads of a response, in milliseconds.
unfoldable pub next_delay : ℕ → ℕ
next_delay poll_delay_ms = min (poll_delay_ms * 2) 20

-- `ready.json` of an instance.
pub record Ready : Type 0 where
  pub bridge_instance : Option Text
  pub protocol_version : Option ℕ
  pub last_poll_ms : Option ℕ
  pub started_ms : Option ℕ

abbrev pub is_recent : Option ℕ → ℕ → Bool
is_recent none now = false
is_recent (some time) now = leb (now - time) 5000

unfoldable pub is_ready : Text → ℕ → Ready → Bool
is_ready instance now r =
    is_text r.bridge_instance instance
    && is_number r.protocol_version protocol
    && is_recent r.last_poll_ms now

-- `require_file_instance` behind its test on the identity, with the clock at each read.
unfoldable pub await_ready :
    Text → List (ℕ × Read Ready × Bool) → Option (Result BridgeError (Unit {0}))
unfolding is_ready
await_ready instance [] = none
await_ready instance ((now, read, expired) ∷ looks) =
    let rest = await_ready instance looks in
    let again = if expired then some (err not_responding) else rest in
    elim read [
      | found r ↦ some (ensure (is_ready instance now r) offline)
      | unreadable ↦ again
      | missing ↦ again
      | broken e ↦ some (err (failed e))
    ]

-- `is_uuid` stands for `Uuid::parse_str(instance).is_ok()`.
unfoldable pub require_file_instance :
    (Text → Bool) → Text → List (ℕ × Read Ready × Bool) → Option (Result BridgeError (Unit {0}))
unfolding await_ready
require_file_instance is_uuid instance looks =
    let reads = await_ready instance looks in
    if is_uuid instance then reads else some (err invalid_instance)

-- What the `ready.json` of a directory says of an instance that is alive.
unfoldable pub instance_of : ℕ → Ready → Option Text
instance_of now r = elim r.bridge_instance [
  | none ↦ none
  | some instance ↦
      if is_number r.protocol_version protocol
        && is_recent (or_else r.last_poll_ms r.started_ms) now
      then some instance
      else none
]

-- The order of names, which is that of their bytes.
unfoldable pub leb_text : Text → Text → Bool
leb_text [] t = true
leb_text (_ ∷ _) [] = false
leb_text (a ∷ s) (b ∷ t) = ltb a b || (a == b && leb_text s t)

abbrev pub insert_sorted : Text → List Text → List Text
insert_sorted a [] = a ∷ []
insert_sorted a (b ∷ bs) =
    let rest = insert_sorted a bs in if leb_text a b then a ∷ b ∷ bs else b ∷ rest

unfoldable pub sort_instances : List Text → List Text
unfolding leb_text
sort_instances [] = []
sort_instances (a ∷ instances) = insert_sorted a (sort_instances instances)

unfoldable pub collect_instances : List (ℕ × Bool × Read Ready) → Result BridgeError (List Text)
unfolding instance_of
collect_instances [] = ok []
collect_instances ((now, is_dir, read) ∷ entries) =
    let rest = collect_instances entries in
    if not is_dir then rest else elim read [
      | found r ↦ elim (instance_of now r) [
        | none ↦ rest
        | some instance ↦ rest >>= λ instances. ok (instance ∷ instances)
      ]
      | unreadable ↦ rest
      | missing ↦ rest
      | broken e ↦ err (failed e)
    ]

-- `file_instances`: the entries of the directory with the clock at each.
unfoldable pub file_instances : List (ℕ × Bool × Read Ready) → Result BridgeError (List Text)
unfolding collect_instances sort_instances
file_instances entries = collect_instances entries >>= λ instances. ok (sort_instances instances)

-- The parameters that name a terminal.
pub record Params : Type 0 where
  pub session : Option Text
  pub attachment_id : Option Text
  pub capture_id : Option Text

unfoldable pub handle_of : Params → Option Text
handle_of p = or_else p.session (or_else p.attachment_id p.capture_id)

-- `str::split_once(char)`.
unfoldable pub split_once : ℕ → Text → Option (Text × Text)
split_once sep [] = none
split_once sep (c ∷ s) =
    let rest = split_once sep s in
    if c == sep
    then some ([], s)
    else elim rest [ none ↦ none | some (before, behind) ↦ some (c ∷ before, behind) ]

-- The instance that a handle is bound to.
unfoldable pub target : Text → Assoc Text → Option Text
unfolding split_once lookup
target key routes = elim (split_once b'/' key) [
  | none ↦ lookup key routes
  | some (prefix, _) ↦ some prefix
]

abbrev pub bind_capture : Option Text → Text → Assoc Text → Assoc Text
bind_capture none instance routes = routes
bind_capture (some capture) instance routes = insert capture instance routes

abbrev pub bind_key : Option Text → Text → Assoc Text → Assoc Text
bind_key none instance routes = routes
bind_key (some key) instance routes = insert key instance routes

-- What is recorded behind an exchange.
unfoldable pub bind_reply : Option Text → Text → Reply → Assoc Text → Assoc Text
unfolding insert
bind_reply key instance value routes =
    bind_capture value.capture_id instance (bind_key key instance routes)
