-- ===== src/Bridge/Calls.antt =====
-- `call_file` of src/bridge.rs, and that a request which names a terminal reaches no other instance.
use securecrt_mcp.Prelude.{
  ◌≡◌, sym, ◌∙◌, List, [], ◌∷◌, ◌++◌, arith, if◌then◌else◌, Option-cases, inl, inr, Option, none,
  some, Result, ok, err, unwrap_or, is_empty,
}
use securecrt_mcp.Text.{Text, codes, eq_text, contains, split}
use securecrt_mcp.Assoc.{Assoc, lookup}
use securecrt_mcp.Bridge.{
  BridgeError, unbound_handle, not_running, ambiguous_route, Reply, Params, handle_of, target,
  bind_reply, or_else,
}

-- What one call finds: the check of an instance, the exchange with one, the instances online.
pub record Peers : Type 0 where
  pub require : Text → Result BridgeError (Unit {0})
  pub exchange : Text → Result BridgeError Reply
  pub online : Result BridgeError (List Text)

pub data ListingError : Type 0 where
  reported : Text → ListingError
  unreachable : Text → BridgeError → ListingError

-- The answer to `list_sessions` on all instances.
pub record Listing : Type 0 where
  pub sessions : List Text
  pub capabilities : List Text
  pub instances : List Text
  pub errors : List ListingError

pub data BridgeAnswer : Type 0 where
  single : Reply → BridgeAnswer
  pinged : Reply → List Text → BridgeAnswer
  listed : Listing → BridgeAnswer

abbrev pub reports : List Text → List ListingError
reports [] = []
reports (e ∷ es) = reported e ∷ reports es

unfoldable pub add_new : List Text → List Text → List Text
add_new capabilities [] = capabilities
add_new capabilities (item ∷ items) =
    add_new (if contains capabilities item then capabilities else capabilities ++ item ∷ []) items

unfoldable pub add_listing : Text → Result BridgeError Reply → Listing → Listing
unfolding add_new
add_listing instance (err e) l = record l { errors = l.errors ++ unreachable instance e ∷ [] }
add_listing instance (ok value) l = record {
  sessions = l.sessions ++ unwrap_or value.sessions [];
  capabilities = add_new l.capabilities (unwrap_or value.capabilities []);
  instances = l.instances ++ instance ∷ [];
  errors = l.errors ++ reports (unwrap_or value.errors []);
}

unfoldable pub list_all : Peers → List Text → Listing → Listing
unfolding add_listing
list_all peers [] l = l
list_all peers (instance ∷ instances) l =
    list_all peers instances (add_listing instance (peers.exchange instance) l)

abbrev pub no_listing : Listing
no_listing = record { sessions = []; capabilities = []; instances = []; errors = [] }

unfoldable pub find_online : Text → List Text → Option Text
find_online id [] = none
find_online id (instance ∷ instances) =
    let rest = find_online id instances in if eq_text instance id then some instance else rest

abbrev pub the_only : List Text → Option Text
the_only (instance ∷ []) = some instance
the_only _ = none

abbrev pub first_piece : List Text → Text
first_piece [] = []
first_piece (piece ∷ _) = piece

unfoldable pub select : Option Text → Assoc Text → List Text → Option Text
unfolding find_online
select none routes instances = the_only instances
select (some key) routes instances =
    or_else
      (or_else (find_online (first_piece (split b'/' key)) instances)
        (elim (lookup key routes) [ none ↦ none | some id ↦ find_online id instances ]))
      (the_only instances)

-- The request to one instance, and what is recorded behind it.
unfoldable pub exchange_with :
    Peers → Option Text → Text → Assoc Text → Assoc Text × Result BridgeError BridgeAnswer
unfolding bind_reply
exchange_with peers key instance routes = elim (peers.exchange instance) [
  | err e ↦ (routes, err e)
  | ok value ↦ (bind_reply key instance value routes, ok (single value))
]

unfoldable pub call_bound : Peers → Text → Assoc Text → Assoc Text × Result BridgeError BridgeAnswer
unfolding target exchange_with
call_bound peers key routes = elim (target key routes) [
  | none ↦ (routes, err unbound_handle)
  | some instance ↦ elim (peers.require instance) [
    | err e ↦ (routes, err e)
    | ok _ ↦ exchange_with peers (some key) instance routes
  ]
]

unfoldable pub ping_first :
    Peers → List Text → Assoc Text → Assoc Text × Result BridgeError BridgeAnswer
ping_first peers [] routes = (routes, err not_running)
ping_first peers (instance ∷ instances) routes = elim (peers.exchange instance) [
  | err e ↦ (routes, err e)
  | ok value ↦ (routes, ok (pinged value (instance ∷ instances)))
]

unfoldable pub call_online :
    Peers
    → Option Text
    → Text
    → List Text
    → Assoc Text
    → Assoc Text × Result BridgeError BridgeAnswer
unfolding list_all select exchange_with ping_first
call_online peers key method instances routes =
    if is_empty instances
    then (routes, err not_running)
    else if eq_text method (codes "list_sessions")
    then (routes, ok (listed (list_all peers instances no_listing)))
    else if eq_text method (codes "ping")
    then ping_first peers instances routes
    else elim (select key routes instances) [
      | none ↦ (routes, err ambiguous_route)
      | some instance ↦ exchange_with peers key instance routes
    ]

-- A call that no other call interrupts.
unfoldable pub call_file :
    Peers → Text → Params → Assoc Text → Assoc Text × Result BridgeError BridgeAnswer
unfolding call_bound call_online handle_of
call_file peers method p routes = elim (handle_of p) [
  | some key ↦ call_bound peers key routes
  | none ↦ elim peers.online [
    | err e ↦ (routes, err e)
    | ok instances ↦ call_online peers none method instances routes
  ]
]

-- What two views of the peers have in common at one instance.
abbrev pub AgreeAt : Peers → Peers → Text → Type 0
AgreeAt peers others instance =
    (peers.require instance ≡ others.require instance)
    × (peers.exchange instance ≡ others.exchange instance)

call_named :
    (peers : Peers) (method key : Text) (p : Params) (routes : Assoc Text)
    → handle_of p ≡ some key
    → call_file peers method p routes ≡ call_bound peers key routes
unfolding call_file
call_named peers method key p routes h = ground (arith, h)

call_bound-own :
    (peers others : Peers) (key : Text) (routes : Assoc Text)
    → ((instance : Text) → target key routes ≡ some instance → AgreeAt peers others instance)
    → call_bound peers key routes ≡ call_bound others key routes
unfolding call_bound exchange_with
call_bound-own peers others key routes agree = elim (Option-cases (target key routes)) [
  | inl e ↦ ground (arith, e)
  | inr (instance, e) ↦
      let (same_check, same_answer) = agree instance e in ground (arith, e, same_check, same_answer)
]

-- A call that names a terminal depends on the instance to which its handle is bound and on nothing
-- else: neither on the other instances nor on which of them are online. Where the handle is bound to
-- no instance, it depends on none.
pub call_file-own_instance :
    (peers others : Peers) (method key : Text) (p : Params) (routes : Assoc Text)
    → handle_of p ≡ some key
    → ((instance : Text) → target key routes ≡ some instance → AgreeAt peers others instance)
    → call_file peers method p routes ≡ call_file others method p routes
call_file-own_instance peers others method key p routes h agree =
    call_named peers method key p routes h
    ∙ call_bound-own peers others key routes agree
    ∙ sym (call_named others method key p routes h)
