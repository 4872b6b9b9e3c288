-- ===== src/Server/Api/Calls/Notify.antt =====
-- `notify_config_update` of server.rs beside `send_config_update_cmd` of server/api.rs: the one sends
-- the code alone, the other the code and a payload.
use mathlib.Core.Path.{subst}
use mathlib.Core.List.{append-nil}
use review_protocol.Prelude.{false, ◌≡◌, refl, ok, some, [], ◌∷◌, map_err}
use review_protocol.Codes.Client.{RequestCode, to_u32}
use review_protocol.Request.NodeHandler.{acknowledged}
use review_protocol.Request.Handler.{Handler}
use review_protocol.Request.Serve.{Agent}
use review_protocol.Request.Handle.{AgentCodec, handle}
use review_protocol.Request.Handle.Service as Service
use review_protocol.Request.Handle.Service.{AgentRequest}
use review_protocol.Request.Handle.Refines.{handle_refines_the_service, nil, cons}
use review_protocol.Server.Api.Errors.{text}
use review_protocol.Server.Api.Requests.{Stream}
use review_protocol.Server.Api.Requests.Laws.{send_request-Reliable}
use review_protocol.Server.Api.Common.{Encoder, notify_config_update}
use review_protocol.Server.Api.Calls.Sides.{received_of}
use review_protocol.Server.Api.Calls.Served.{Speaks, framed, frame_of, agent_on}
use review_protocol.Server.Api.Calls.Local.{receive-answer}

module _ {Net H : Type 0} (encoder : Encoder Net) (handler : Handler Net H)
    (codec : AgentCodec Net) where
  -- A notification of a new configuration does on the agent what the agent's `update_config` does,
  -- although its frame has no payload: the agent serves it without an error, and the manager gets
  -- what the method answers, an error text included. The agent splits the code off a frame that
  -- the manager wrote, and the sends do not fail.
  pub notification_is_a_local_call :
      (h : H)
      → Speaks encoder codec
      → let frame = encoder.fixed_u32 (to_u32 RequestCode.update_config) in
        let agent : Agent H = record {
          handler = h;
          send = record { outcomes = []; sent = [] };
          recv = ok frame ∷ [];
        } in
        let (outcome, served) = handle handler codec agent in
        let request : AgentRequest Net = Service.AgentRequest.update_config in
        let opened : Stream (Unit {0}) = record {
          send = record { outcomes = []; sent = [] };
          finished = false;
          response = received_of request served.send.sent;
        } in
        let (answer, h') = handler.update_config h in
        (outcome ≡ ok tt)
        × (served.handler ≡ h')
        × ((notify_config_update encoder (ok opened)).0 ≡ map_err text answer)
        × ((notify_config_update encoder (ok opened)).1
            ≡ some (record opened { send = record { outcomes = []; sent = frame ∷ [] } }))
  unfolding notify_config_update
  notification_is_a_local_call h speaks =
      let request : AgentRequest Net = Service.AgentRequest.update_config in
      let code = encoder.fixed_u32 (to_u32 RequestCode.update_config) in
      let frame = frame_of encoder handler codec request [] in
      let agent_end =
        handle_refines_the_service handler codec (request ∷ []) (frame ∷ [])
          (agent_on encoder handler codec frame h)
          (cons (framed encoder handler codec request [] speaks tt) nil) refl refl in
      let (x, h') = handler.update_config h in
      let after : Agent H = record {
        handler = h';
        send = record { outcomes = []; sent = acknowledged x ∷ [] };
        recv = [];
      } in
      let served : handle handler codec (agent_on encoder handler codec code h) ≡ (ok tt, after) =
        subst (λ f. handle handler codec (agent_on encoder handler codec f h) ≡ (ok tt, after))
          (append-nil code) agent_end in
      let opened : Stream (Unit {0}) = record {
        send = record { outcomes = []; sent = [] };
        finished = false;
        response = ok x;
      } in
      let manager_end = send_request-Reliable code opened refl in
      rw (served, manager_end) (refl, refl, receive-answer x, refl)
