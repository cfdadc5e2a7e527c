-- ===== src/Bridge/Steady.antt =====
-- That the interleaved calls of src/bridge.rs keep the routes of all handles.
use securecrt_mcp.Prelude.{
  ◌≡◌, refl, sym, ◌∙◌, true, List, [], ◌∷◌, arith, Bool-cases, Option-cases, inl, inr, Option, none,
  some, subst,
}
use securecrt_mcp.Text.{Text, eq_text}
use securecrt_mcp.Assoc.{Assoc, lookup, remove}
use securecrt_mcp.Assoc.Laws.{lookup-insert, lookup-remove}
use securecrt_mcp.Bridge.{Reply, target, bind_reply}
use securecrt_mcp.Bridge.Routing.{
  Exchange, Routing, RouteEvent, called, opened, replied, dropped, begin_call, end_call, route_step,
  route_run, capture_fits, is_fresh, AreFresh, Keeps, IsAt, IsSteady, same_routes, Keeps-trans,
  IsAt-Keeps, bind_reply-Keeps,
}

begin_call-IsSteady :
    (call : Text) (key : Option Text) (instance : Text) (r : Routing)
    → IsSteady r
    → IsAt key instance r.routes
    → IsSteady (begin_call call key instance r)
unfolding IsSteady begin_call
begin_call-IsSteady call key instance r h at c x e =
    let new : Exchange = record { key = key; instance = instance } in
    let found = sym (lookup-insert call c new r.pending) ∙ e in
    elim (Bool-cases (eq_text call c)) [
      | inl d ↦
          let same : new ≡ x = ground (arith, found, d) in
          subst (λ y. IsAt y.key y.instance r.routes) same at
      | inr d ↦ h c x (ground (arith, found, d))
    ]

remove-IsSteady :
    (call : Text) (r : Routing) (later : Assoc Text)
    → IsSteady r
    → Keeps r.routes later
    → IsSteady (record { routes = later; pending = remove call r.pending })
unfolding IsSteady
remove-IsSteady call r later h k c x e =
    IsAt-Keeps x.key x.instance r.routes later k
      (h c x (ground (arith, lookup-remove call c r.pending)))

pub IsSound : Routing → Routing → Type 0
IsSound r later = IsSteady later × Keeps r.routes later.routes

-- What a section comes to.
called_unbound :
    (call key : Text) (r : Routing)
    → target key r.routes ≡ none
    → r ≡ route_step (called call key) r
unfolding route_step
called_unbound call key r e = ground (arith, e)

called_bound :
    (call key instance : Text) (r : Routing)
    → target key r.routes ≡ some instance
    → begin_call call (some key) instance r ≡ route_step (called call key) r
unfolding route_step
called_bound call key instance r e = ground (arith, e)

opened_call :
    (call instance : Text) (r : Routing)
    → begin_call call none instance r ≡ route_step (opened call instance) r
unfolding route_step
opened_call call instance r = refl

dropped_call :
    (call : Text) (r : Routing)
    → record { routes = r.routes; pending = remove call r.pending } ≡ route_step (dropped call) r
unfolding route_step
dropped_call call r = refl

replied_late :
    (call : Text) (value : Reply) (r : Routing)
    → lookup call r.pending ≡ none
    → r ≡ route_step (replied call value) r
unfolding route_step
replied_late call value r e = ground (arith, e)

replied_in_time :
    (call : Text) (value : Reply) (x : Exchange) (r : Routing)
    → lookup call r.pending ≡ some x
    → end_call call value x r ≡ route_step (replied call value) r
unfolding route_step
replied_in_time call value x r e = ground (arith, e)

end_call-IsSound :
    (call : Text) (value : Reply) (x : Exchange) (r : Routing)
    → IsSteady r
    → lookup call r.pending ≡ some x
    → capture_fits value.capture_id x.instance r.routes ≡ true
    → IsSound r (end_call call value x r)
unfolding IsSound end_call IsSteady
end_call-IsSound call value x r h e free =
    let keeps = bind_reply-Keeps value x r.routes (h call x e) free in
    (remove-IsSteady call r (bind_reply x.key x.instance value r.routes) h keeps, keeps)

route_step-IsSound :
    (e : RouteEvent) (r : Routing) → IsSteady r → is_fresh e r ≡ true → IsSound r (route_step e r)
unfolding IsSound begin_call
route_step-IsSound (called call key) r h fresh = elim (Option-cases (target key r.routes)) [
  | inl e ↦ subst (IsSound r) (called_unbound call key r e) (h, same_routes r.routes)
  | inr (instance, e) ↦
      subst (IsSound r) (called_bound call key instance r e)
        (begin_call-IsSteady call (some key) instance r h e, same_routes r.routes)
]
route_step-IsSound (opened call instance) r h fresh =
    subst (IsSound r) (opened_call call instance r)
      (begin_call-IsSteady call none instance r h tt, same_routes r.routes)
route_step-IsSound (replied call value) r h fresh = elim (Option-cases (lookup call r.pending)) [
  | inl e ↦ subst (IsSound r) (replied_late call value r e) (h, same_routes r.routes)
  | inr (x, e) ↦
      subst (IsSound r) (replied_in_time call value x r e)
        (end_call-IsSound call value x r h e (ground (arith, fresh, e)))
]
route_step-IsSound (dropped call) r h fresh =
    subst (IsSound r) (dropped_call call r)
      (remove-IsSteady call r r.routes h (same_routes r.routes), same_routes r.routes)

-- However calls interleave from a state in which every request under way is at the instance to which
-- its handle is bound, as long as no reply names a capture that another instance has: so it is in the
-- state they lead to, and a handle that is bound stays bound to its instance.
pub route_run-IsSound :
    (es : List RouteEvent) (r : Routing) → IsSteady r → AreFresh es r → IsSound r (route_run es r)
unfolding IsSound route_run AreFresh
route_run-IsSound [] r h fresh = (h, same_routes r.routes)
route_run-IsSound (e ∷ es) r h fresh =
    let (steady, keeps) = route_step-IsSound e r h fresh.0 in
    let (last, all_kept) = route_run-IsSound es (route_step e r) steady fresh.1 in
    (
      last,
      Keeps-trans r.routes (route_step e r).routes (route_run es (route_step e r)).routes keeps
          all_kept,
    )
