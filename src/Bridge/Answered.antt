-- ===== src/Bridge/Answered.antt =====
-- `call_file_instance` of src/bridge.rs: which response a request is answered with.
use securecrt_mcp.Prelude.{
  ◌≡◌, refl, Bool, true, false, List, [], ◌∷◌, arith, inl, inr, Option, some, Result, ok, unwrap_or,
  ensure, ◌>>◌, ◌⊎◌,
}
use securecrt_mcp.Text.{Text}
use securecrt_mcp.Bridge.{
  BridgeError, wrong_instance, Reply, Response, Read, found, unreadable, missing, broken, is_text,
  is_number, protocol, with_instance, finish_response, await_response,
}

-- One of the reads has found the response.
unfoldable pub IsAmong : Response → List (Read Response × Bool) → Type 0
IsAmong r [] = ⊥
IsAmong r ((read, _) ∷ looks) = (read ≡ found r) ⊎ IsAmong r looks

abbrev pub IsAnswer : Text → Text → Reply → Response → Type 0
IsAnswer instance id value r =
    (is_text r.bridge_instance instance ≡ true)
    × (is_text r.id id ≡ true)
    × (is_number r.protocol_version protocol ≡ true)
    × (unwrap_or r.accepted false ≡ true)
    × (with_instance r.bridge_instance r.result ≡ value)

abbrev Origin : Text → Text → Reply → List (Read Response × Bool) → Type 0
Origin instance id value looks = (r : Response) × IsAmong r looks × IsAnswer instance id value r

inside :
    {v w : Result BridgeError Reply}
    → ◌≡◌ {A = Option (Result BridgeError Reply)} (some v) (some w)
    → v ≡ w
inside h = ground (arith, h)

right_instance :
    (test : Bool) (m : Result BridgeError Reply) (value : Reply)
    → (ensure test wrong_instance >> m) ≡ ok value
    → (test ≡ true) × (m ≡ ok value)
right_instance true m value h = (refl, h)
right_instance false m value h = cc

finish_response-IsAnswer :
    (instance id : Text) (value : Reply) (r : Response)
    → is_text r.bridge_instance instance ≡ true
    → finish_response r id ≡ ok value
    → IsAnswer instance id value r
unfolding finish_response
finish_response-IsAnswer instance id value r from h = ground (arith, from, h)

-- An answer is the result of a response that the read of the file has found, of the right instance,
-- with the identifier of the request and the version of the protocol, and marked as good.
pub await_response-IsAnswer :
    (instance id : Text) (value : Reply) (looks : List (Read Response × Bool))
    → await_response instance id looks ≡ some (ok value)
    → (r : Response) × IsAmong r looks × IsAnswer instance id value r
unfolding await_response IsAmong
await_response-IsAnswer instance id value [] h = cc
await_response-IsAnswer instance id value ((found r, late) ∷ looks) h =
    let (from, answered) =
      right_instance (is_text r.bridge_instance instance) (finish_response r id) value (inside h) in
    (r, inl refl, finish_response-IsAnswer instance id value r from answered)
await_response-IsAnswer instance id value ((unreadable, late) ∷ looks) h = cc
await_response-IsAnswer instance id value ((broken e, late) ∷ looks) h = cc
await_response-IsAnswer instance id value ((missing, true) ∷ looks) h = cc
await_response-IsAnswer instance id value ((missing, false) ∷ looks) h =
    let (r, among, is_answer) = await_response-IsAnswer instance id value looks h in
    (r, inr among, is_answer)
