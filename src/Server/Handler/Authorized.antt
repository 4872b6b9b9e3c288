-- ===== src/Server/Handler/Authorized.antt =====
-- `handle`, `handle_authorized` and `handle_authorized_with_context` of server/handler.rs: the loops
-- that serve an agent's requests, and the question to the authorizer before each.
pub mod Loop
pub mod Runs
pub mod Permits
pub mod Adapter
pub mod Refusals
pub mod Answers
use review_protocol.Prelude.{
  ℕ, zero, suc, String, Result, ok, err, Option, none, some, length, if◌then◌else◌, and_then,
}
use review_protocol.ProtocolError.{IoError, io_error, error_kind, permission_denied, dispatch, new}
use review_protocol.Wire.{Bytes, RecvStream, recv_raw}
use review_protocol.Codes.Server.{RequestCode, from_primitive}
use review_protocol.ServiceId.{ServiceId}
use review_protocol.ServiceId.ServerCodes.{from_server_request_code}
use review_protocol.Auth.{
  PeerContext, AuthorizationContext, AuthorizationError, Authorizer, AuthorizerV2, denial_kind,
  denial_to_string, peer, noop_authorizer,
}
use review_protocol.Request.PackageReader.{is_eof}
use review_protocol.Server.Handler.{Handler, ServerCodec, ServerReply, Manager}
use review_protocol.Server.Handler.Dispatch.{Outcome, refuse, dispatch_request}

-- An authorizer's answer on a service.
abbrev pub Verdict : Type 0
Verdict = Result (Unit {0}) AuthorizationError

-- `io::Error::new(PermissionDenied, DispatchError::new(e.kind(), e.to_string()))`
unfoldable pub denied : AuthorizationError → IoError
unfolding new denial_kind denial_to_string
denied e = io_error permission_denied (dispatch (new (denial_kind e) (denial_to_string e)))

-- The authorizer is asked about a code that has an identifier.
unfoldable pub check : (ServiceId → Verdict) → RequestCode → Verdict
check authorize c = elim (from_server_request_code c) [
  | some service_id ↦ authorize service_id
  | none ↦ ok tt
]

module _ {Net Stats H : Type 0} (handler : Handler Net Stats H) (codec : ServerCodec Stats) where
  -- The loop of both functions, which differ in whom they ask and where they find the peer's name.
  module _ (authorize : ServiceId → Verdict) (peer_name : String) where
    unfoldable pub serve_request : Verdict → RequestCode → ℕ → Bytes → Manager Net H → Outcome Net H
    unfolding denied refuse
    serve_request (ok u) c code body w = dispatch_request handler codec peer_name c code body w
    serve_request (err e) c code body w =
        refuse (denied e) (ServerReply.done (err "authorization denied")) w

    -- After a request the loop goes on with `more`, or returns.
    unfoldable pub after_serve : (Manager Net H → Outcome Net H) → Outcome Net H → Outcome Net H
    after_serve more (ok none, w) = more w
    after_serve more (ok (some request), w) = (ok (some request), w)
    after_serve more (err e, w) = (err e, w)

    -- One round of the loop: the outcome of `recv_request_raw`, and the request.
    unfoldable pub serve_round :
        (Manager Net H → Outcome Net H) → Result (ℕ × Bytes) IoError → Manager Net H → Outcome Net H
    unfolding after_serve serve_request check
    serve_round more (ok (code, body)) w =
        let c = from_primitive code in
        after_serve more (serve_request (check authorize c) c code body w)
    serve_round more (err e) w = if is_eof (error_kind e) then (ok none, w) else (err e, w)

    -- `recv_request_raw`: the next frame, taken apart.
    abbrev pub receive_request : RecvStream → Result (ℕ × Bytes) IoError
    receive_request recv = and_then (recv_raw recv).0 codec.split_request

    -- The loop on fuel. A round that goes on has received a frame, so one round more than the
    -- frames to come is enough.
    unfoldable pub serve_loop : ℕ → Manager Net H → Outcome Net H
    unfolding serve_round recv_raw
    serve_loop zero w = (ok none, w)
    serve_loop (suc fuel) w =
        serve_round (serve_loop fuel) (receive_request w.recv)
          (record w { recv = (recv_raw w.recv).1 })

    unfoldable pub serve_requests : Manager Net H → Outcome Net H
    unfolding serve_loop
    serve_requests w = serve_loop (suc (length w.recv)) w

  unfoldable pub handle_authorized : PeerContext → Authorizer → Manager Net H → Outcome Net H
  unfolding serve_requests
  handle_authorized p authorizer = serve_requests (authorizer.authorize p) p.name

  unfoldable pub handle_authorized_with_context :
      AuthorizationContext → AuthorizerV2 → Manager Net H → Outcome Net H
  unfolding serve_requests
  handle_authorized_with_context ctx authorizer =
      serve_requests (authorizer.authorize_with_context ctx) ctx.peer_identity.name

  unfoldable pub handle : String → Manager Net H → Outcome Net H
  unfolding handle_authorized noop_authorizer peer
  handle peer_name = handle_authorized (peer peer_name) noop_authorizer
