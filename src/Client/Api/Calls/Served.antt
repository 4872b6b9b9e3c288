-- ===== src/Client/Api/Calls/Served.antt =====
-- A manager that runs `handle` of server/handler.rs serves the frame of a call of client/api.rs as
-- its method answers.
use review_protocol.Prelude.{arith, String, ◌≡◌, refl, ok, none, [], ◌∷◌}
use review_protocol.Wire.{Bytes, recv_raw}
use review_protocol.Codes.Server.{RequestCode, to_u32}
use review_protocol.Codes.Server.Laws.{from_primitive-to_u32}
use review_protocol.Server.Handler.{Handler, ServerCodec, Manager}
use review_protocol.Server.Handler.Dispatch.{dispatch_request}
use review_protocol.Auth.{noop_authorizer, peer}
use review_protocol.ServiceId.{ServiceId}
use review_protocol.Server.Handler.Authorized.{
  Verdict, check, serve_request, serve_round, after_serve, serve_requests, handle,
  handle_authorized,
}
use review_protocol.Server.Handler.Authorized.Loop.{serve_requests_equation}
use review_protocol.Client.Api.{AgentEncoder}
use review_protocol.Client.Api.Calls.{AgentCall, server_code_of, frame_of}
use review_protocol.Client.Api.Calls.Answered.{Hears, answered, call-answered}

module _ {Net Stats H : Type 0} (encoder : AgentEncoder Stats) (handler : Handler Net Stats H)
    (codec : ServerCodec Stats) (peer_name : String) where
  abbrev pub manager_on : Bytes → H → Manager Net H
  manager_on frame h = record {
    handler = h;
    send = record { outcomes = []; sent = [] };
    recv = ok frame ∷ [];
  }

  abbrev anyone : ServiceId → Verdict
  anyone = noop_authorizer.authorize (peer peer_name)

  check-anyone : (c : RequestCode) → check anyone c ≡ ok tt
  unfolding check noop_authorizer
  check-anyone c = ground arith

  ended :
      (w : Manager Net H)
      → w.recv ≡ []
      → serve_requests handler codec anyone peer_name w ≡ (ok none, w)
  unfolding serve_round recv_raw
  ended w e = rw (serve_requests_equation handler codec anyone peer_name w, e) refl

  round-answered :
      (c : RequestCode) (frame body : Bytes) (w served : Manager Net H)
      → codec.split_request frame ≡ ok (to_u32 c, body)
      → dispatch_request handler codec peer_name c (to_u32 c) body (record w { recv = [] })
        ≡ (ok none, served)
      → w.recv ≡ ok frame ∷ []
      → served.recv ≡ []
      → serve_requests handler codec anyone peer_name w ≡ (ok none, served)
  unfolding serve_round serve_request after_serve recv_raw
  round-answered c frame body w served splits dispatched one last =
      rw
        (
          serve_requests_equation handler codec anyone peer_name w,
          one,
          splits,
          from_primitive-to_u32 c,
          check-anyone c,
          dispatched,
        )
        (ended served last)

  pub manager-serves :
      (c : AgentCall Stats) (frame : Bytes) (h : H)
      → Hears encoder codec
      → frame_of encoder c ≡ ok frame
      → handle handler codec peer_name (manager_on frame h) ≡ (
        ok none,
        record (answered encoder handler codec peer_name c (manager_on frame h)) { recv = [] },
      )
  unfolding handle handle_authorized peer
  manager-serves c frame h hears e =
      let w = manager_on frame h in
      let (body, splits, dispatched) =
        call-answered encoder handler codec peer_name c frame (record w { recv = [] }) hears e
          refl in
      round-answered (server_code_of c) frame body w
        (record (answered encoder handler codec peer_name c w) { recv = [] }) splits dispatched refl
        refl
