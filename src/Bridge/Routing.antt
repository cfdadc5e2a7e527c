-- ===== src/Bridge/Routing.antt =====
-- Calls of src/bridge.rs that interleave: each takes the lock of its routes twice, to look its
-- instance up and to record it behind the exchange.
use securecrt_mcp.Prelude.{
  ◌≡◌, refl, Bool, true, List, [], ◌∷◌, arith, Bool-cases, Option-cases, inl, inr, Option, none,
  some,
}
use securecrt_mcp.Text.{Text, eq_text}
use securecrt_mcp.Text.Equality.{eq_text→eq, eq_text_refl}
use securecrt_mcp.Assoc.{Assoc, lookup, insert, remove}
use securecrt_mcp.Assoc.Laws.{lookup-insert}
use securecrt_mcp.Bridge.{Reply, target, split_once, bind_reply, bind_key, bind_capture}

-- A request that is under way: its handle, and the instance that has it.
pub record Exchange : Type 0 where
  pub key : Option Text
  pub instance : Text

pub record Routing : Type 0 where
  pub routes : Assoc Text
  pub pending : Assoc Exchange

-- The locked sections of the calls, each under the name of its call.
pub data RouteEvent : Type 0 where
  called : Text → Text → RouteEvent
  opened : Text → Text → RouteEvent
  replied : Text → Reply → RouteEvent
  dropped : Text → RouteEvent

unfoldable pub begin_call : Text → Option Text → Text → Routing → Routing
unfolding insert
begin_call call key instance r = record r {
  pending = insert call (record { key = key; instance = instance }) r.pending;
}

unfoldable pub end_call : Text → Reply → Exchange → Routing → Routing
unfolding bind_reply remove
end_call call value x r = record {
  routes = bind_reply x.key x.instance value r.routes;
  pending = remove call r.pending;
}

unfoldable pub route_step : RouteEvent → Routing → Routing
unfolding begin_call end_call target lookup remove
route_step (called call key) r = elim (target key r.routes) [
  | none ↦ r
  | some instance ↦ begin_call call (some key) instance r
]
route_step (opened call instance) r = begin_call call none instance r
route_step (replied call value) r = elim (lookup call r.pending) [
  | none ↦ r
  | some x ↦ end_call call value x r
]
route_step (dropped call) r = record r { pending = remove call r.pending }

unfoldable pub route_run : List RouteEvent → Routing → Routing
unfolding route_step
route_run [] r = r
route_run (e ∷ es) r = route_run es (route_step e r)

-- A handle may be recorded for an instance where it is bound to no other.
abbrev pub is_free_for : Option Text → Text → Bool
is_free_for none instance = true
is_free_for (some bound) instance = eq_text bound instance

abbrev pub capture_fits : Option Text → Text → Assoc Text → Bool
capture_fits none instance routes = true
capture_fits (some capture) instance routes = is_free_for (target capture routes) instance

-- Terminal instances draw identifiers of captures that no other has drawn: a reply names one that is
-- bound to no other instance.
abbrev pub is_fresh : RouteEvent → Routing → Bool
is_fresh (replied call value) r = elim (lookup call r.pending) [
  | none ↦ true
  | some x ↦ capture_fits value.capture_id x.instance r.routes
]
is_fresh _ r = true

unfoldable pub AreFresh : List RouteEvent → Routing → Type 0
AreFresh [] r = Unit
AreFresh (e ∷ es) r = (is_fresh e r ≡ true) × AreFresh es (route_step e r)

-- A handle keeps its instance.
unfoldable pub Keeps : Assoc Text → Assoc Text → Type 0
Keeps routes later =
    (key bound : Text) → target key routes ≡ some bound → target key later ≡ some bound

-- A request that is under way is at the instance of its handle.
abbrev pub IsAt : Option Text → Text → Assoc Text → Type 0
IsAt none instance routes = Unit
IsAt (some key) instance routes = target key routes ≡ some instance

unfoldable pub IsSteady : Routing → Type 0
IsSteady r =
    (call : Text) (x : Exchange) → lookup call r.pending ≡ some x → IsAt x.key x.instance r.routes

target-insert :
    (capture instance : Text) (routes : Assoc Text)
    → is_free_for (target capture routes) instance ≡ true
    → Keeps routes (insert capture instance routes)
unfolding Keeps target
target-insert capture instance routes free key bound h = elim (Option-cases (split_once b'/' key)) [
  | inr (parts, e) ↦ ground (arith, e)
  | inl e ↦ elim (Bool-cases (eq_text capture key)) [
    | inr d ↦ ground (arith, lookup-insert capture key instance routes)
    | inl d ↦
        let same = eq_text→eq capture key d in
        ground (arith, lookup-insert capture key instance routes, same, eq_text→eq bound instance)
  ]
]

free-insert :
    (capture key instance : Text) (routes : Assoc Text)
    → is_free_for (target capture routes) instance ≡ true
    → is_free_for (target capture (insert key instance routes)) instance ≡ true
unfolding target
free-insert capture key instance routes free = elim (Option-cases (split_once b'/' capture)) [
  | inr (parts, e) ↦ ground (arith, e)
  | inl e ↦ ground (arith, lookup-insert key capture instance routes, eq_text_refl instance)
]

pub same_routes : (routes : Assoc Text) → Keeps routes routes
unfolding Keeps
same_routes routes key bound e = e

pub Keeps-trans : (a b c : Assoc Text) → Keeps a b → Keeps b c → Keeps a c
unfolding Keeps
Keeps-trans a b c h k key bound e = k key bound (h key bound e)

pub IsAt-Keeps :
    (key : Option Text) (instance : Text) (routes later : Assoc Text)
    → Keeps routes later
    → IsAt key instance routes
    → IsAt key instance later
unfolding Keeps
IsAt-Keeps none instance routes later k h = tt
IsAt-Keeps (some key) instance routes later k h = k key instance h

bind_key-Keeps :
    (key : Option Text) (instance : Text) (routes : Assoc Text)
    → IsAt key instance routes
    → Keeps routes (bind_key key instance routes)
unfolding Keeps
bind_key-Keeps none instance routes h = same_routes routes
bind_key-Keeps (some key) instance routes h =
    target-insert key instance routes (rw h (eq_text_refl instance))

bind_capture-Keeps :
    (capture : Option Text) (instance : Text) (routes : Assoc Text)
    → capture_fits capture instance routes ≡ true
    → Keeps routes (bind_capture capture instance routes)
unfolding Keeps
bind_capture-Keeps none instance routes free = same_routes routes
bind_capture-Keeps (some capture) instance routes free = target-insert capture instance routes free

fits-bind_key :
    (capture key : Option Text) (instance : Text) (routes : Assoc Text)
    → capture_fits capture instance routes ≡ true
    → capture_fits capture instance (bind_key key instance routes) ≡ true
fits-bind_key none key instance routes free = refl
fits-bind_key (some capture) none instance routes free = free
fits-bind_key (some capture) (some key) instance routes free =
    free-insert capture key instance routes free

pub bind_reply-Keeps :
    (value : Reply) (x : Exchange) (routes : Assoc Text)
    → IsAt x.key x.instance routes
    → capture_fits value.capture_id x.instance routes ≡ true
    → Keeps routes (bind_reply x.key x.instance value routes)
unfolding bind_reply
bind_reply-Keeps value x routes h free =
    let bound = bind_key x.key x.instance routes in
    Keeps-trans routes bound (bind_capture value.capture_id x.instance bound)
      (bind_key-Keeps x.key x.instance routes h)
      (bind_capture-Keeps value.capture_id x.instance bound
        (fits-bind_key value.capture_id x.key x.instance routes free))
