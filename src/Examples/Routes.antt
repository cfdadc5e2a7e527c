-- ===== src/Examples/Routes.antt =====
-- Frames, calls and routes of src/bridge.rs on concrete inputs.
use securecrt_mcp.Prelude.{
  ◌≡◌, refl, true, false, List, [], ◌∷◌, arith, none, some, Result, ok, err, if◌then◌else◌, subst,
}
use securecrt_mcp.Text.{Text, codes, eq_text}
use securecrt_mcp.Assoc.{lookup, insert, remove}
use securecrt_mcp.Bridge.{
  BridgeError, failed, Reply, Response, found, missing, Params, handle_of, target, split_once,
  bind_reply, await_response, finish_response, with_instance,
}
use securecrt_mcp.Bridge.Frame.{read_frame, frame_of, read_frame-first_line}
use securecrt_mcp.Bridge.Calls.{Peers, call_file, AgreeAt, call_file-own_instance}
use securecrt_mcp.Bridge.Routing.{
  Routing, RouteEvent, called, replied, begin_call, end_call, route_step, route_run, AreFresh,
  IsSteady,
}
use securecrt_mcp.Bridge.Steady.{IsSound, route_run-IsSound}
use securecrt_mcp.Bridge.Answered.{IsAmong, IsAnswer, await_response-IsAnswer}

read_frame-first_line_example :
    frame_of (read_frame ((1 ∷ 2 ∷ []) ∷ (3 ∷ 10 ∷ 4 ∷ []) ∷ []) []) ≡ some (1 ∷ 2 ∷ 3 ∷ 10 ∷ [])
read_frame-first_line_example =
    read_frame-first_line ((1 ∷ 2 ∷ []) ∷ (3 ∷ 10 ∷ 4 ∷ []) ∷ []) [] (refl, (refl, tt))

abbrev started : Reply
started = record {
  is_object = true;
  bridge_instance = some (codes "a");
  capture_id = some (codes "c1");
  sessions = none;
  capabilities = none;
  errors = none;
}

-- Two views of the terminals: in the second one nothing is online, and nothing answers but `a`.
abbrev all_peers : Peers
all_peers = record {
  require = λ _. ok tt;
  exchange = λ _. ok started;
  online = ok (codes "a" ∷ codes "b" ∷ []);
}

abbrev answer_of_a : Text → Result BridgeError Reply
answer_of_a t = if eq_text (codes "a") t then ok started else err (failed (codes "gone"))

abbrev peer_a : Peers
peer_a = record { require = λ _. ok tt; exchange = answer_of_a; online = ok [] }

abbrev on_session : Params
on_session = record { session = some (codes "a/s1"); attachment_id = none; capture_id = none }

same_at_a :
    (instance : Text) → target (codes "a/s1") [] ≡ some instance → AgreeAt all_peers peer_a instance
unfolding target split_once eq_text
same_at_a instance h =
    let same : codes "a" ≡ instance = ground (arith, h) in
    subst (AgreeAt all_peers peer_a) same (refl, refl)

call_file-own_instance_example :
    call_file all_peers (codes "begin") on_session []
    ≡ call_file peer_a (codes "begin") on_session []
unfolding handle_of
call_file-own_instance_example =
    call_file-own_instance all_peers peer_a (codes "begin") (codes "a/s1") on_session [] refl
      same_at_a

abbrev idle : Routing
idle = record { routes = []; pending = [] }

idle-IsSteady : IsSteady idle
unfolding IsSteady lookup
idle-IsSteady call x h = cc

-- A command is begun on a session, its reply names the capture, and the capture is polled.
abbrev polled : List RouteEvent
polled =
    called (codes "1") (codes "a/s1")
    ∷ replied (codes "1") started
    ∷ called (codes "2") (codes "c1")
    ∷ []

polled-AreFresh : AreFresh polled idle
unfolding AreFresh route_step begin_call end_call bind_reply target split_once lookup insert remove
    eq_text
polled-AreFresh = (refl, (refl, (refl, tt)))

route_run-IsSound_example : IsSound idle (route_run polled idle)
route_run-IsSound_example = route_run-IsSound polled idle idle-IsSteady polled-AreFresh

abbrev response_of_a : Response
response_of_a = record {
  protocol_version = some 2;
  id = some (codes "7");
  bridge_instance = some (codes "a");
  accepted = some true;
  sent = none;
  error = [];
  result = started;
}

response_arrives :
    await_response (codes "a") (codes "7") ((missing, false) ∷ (found response_of_a, false) ∷ [])
    ≡ some (ok started)
unfolding await_response finish_response with_instance eq_text
response_arrives = refl

await_response-IsAnswer_example :
    (r : Response) × IsAmong r ((missing, false) ∷ (found response_of_a, false) ∷ [])
    × IsAnswer (codes "a") (codes "7") started r
await_response-IsAnswer_example =
    await_response-IsAnswer (codes "a") (codes "7") started
      ((missing, false) ∷ (found response_of_a, false) ∷ []) response_arrives
