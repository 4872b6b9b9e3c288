-- ===== src/Server/Api/Calls/Local.antt =====
-- A call of a manager's method of server/api.rs against an agent's `handle` of request.rs: what the
-- two sides do together is what a call of the agent's own method does.
use review_protocol.Prelude.{false, ◌≡◌, refl, ap, Result, ok, err, some, [], ◌∷◌, ◌++◌, map_err}
use review_protocol.ProtocolError.{IoError}
use review_protocol.Wire.{Bytes}
use review_protocol.Codes.Client.{to_u32}
use review_protocol.Request.NodeHandler.{Answer}
use review_protocol.Request.Handler.{Handler}
use review_protocol.Request.Serve.{Agent}
use review_protocol.Request.Handle.{AgentCodec, handle}
use review_protocol.Request.Handle.Service as Service
use review_protocol.Request.Handle.Service.{AgentRequest, code_of, Carries, replies_to}
use review_protocol.Server.Api.Errors.{text}
use review_protocol.Server.Api.Requests.{Stream, send_request, receive}
use review_protocol.Server.Api.Requests.Laws.{send_request-Reliable}
use review_protocol.Server.Api.Common.{
  Encoder, encode_request, send_allowlist, send_blocklist, send_config_update_cmd,
  send_delete_customer_data_cmd, send_train_model, send_clone_model, send_cancel_run,
  send_run_detector_once, send_filtering_rules, send_internal_network_list, send_ping,
  send_sampling_policies, send_tor_exit_node_list, send_trusted_domain_list,
  send_trusted_user_agent_list,
}
use review_protocol.Server.Api.NodeFamilies.{
  node_service, node_network_interface, node_hostname, node_time_sync, node_logging,
  node_remote_access, node_observation, node_version, node_enroll, node_package, unless_rejected,
}
use review_protocol.Server.Api.Install.{reject_install}
use review_protocol.Types.Node.Package as Package
use review_protocol.Server.Api.Calls.{Sendable, Response, reply_of, payload_of, method_of}
use review_protocol.Server.Api.Calls.Sides.{received_of, send_of}
use review_protocol.Server.Api.Calls.Served.{Speaks, frame_of, agent-serves}

module _ {Net : Type 0} (encoder : Encoder Net) where
  -- A method sends its request's code and payload.
  send_of-send_request :
      (r : AgentRequest Net) (s : Sendable r) (opened : Result (Stream (Response r)) IoError)
      → send_of encoder r s opened
        ≡ send_request (encode_request encoder (code_of r) (payload_of encoder r)) opened
  unfolding send_allowlist send_blocklist send_config_update_cmd send_delete_customer_data_cmd
      send_train_model send_clone_model send_cancel_run send_run_detector_once send_filtering_rules
      send_internal_network_list send_ping send_sampling_policies send_tor_exit_node_list
      send_trusted_domain_list send_trusted_user_agent_list node_service node_network_interface
      node_hostname node_time_sync node_logging node_remote_access node_observation node_version
      node_enroll node_package reject_install unless_rejected
  send_of-send_request (Service.AgentRequest.allowlist a) s opened = refl
  send_of-send_request (Service.AgentRequest.blocklist a) s opened = refl
  send_of-send_request Service.AgentRequest.update_config s opened = refl
  send_of-send_request (Service.AgentRequest.delete_customer_data a) s opened = refl
  send_of-send_request (Service.AgentRequest.train_model a) s opened = refl
  send_of-send_request (Service.AgentRequest.clone_model a) s opened = refl
  send_of-send_request (Service.AgentRequest.cancel_run a) s opened = refl
  send_of-send_request (Service.AgentRequest.run_detector_once a) s opened = refl
  send_of-send_request (Service.AgentRequest.reload_filter_rule a) s opened = refl
  send_of-send_request (Service.AgentRequest.internal_network_list a) s opened = refl
  send_of-send_request Service.AgentRequest.echo_request s opened = refl
  send_of-send_request (Service.AgentRequest.sampling_policy_list a) s opened = refl
  send_of-send_request (Service.AgentRequest.tor_exit_node_list a) s opened = refl
  send_of-send_request (Service.AgentRequest.trusted_domain_list a) s opened = refl
  send_of-send_request (Service.AgentRequest.trusted_user_agent_list a) s opened = refl
  send_of-send_request (Service.AgentRequest.node_service a) s opened = refl
  send_of-send_request (Service.AgentRequest.node_network_interface a) s opened = refl
  send_of-send_request (Service.AgentRequest.node_hostname a) s opened = refl
  send_of-send_request (Service.AgentRequest.node_time_sync a) s opened = refl
  send_of-send_request (Service.AgentRequest.node_logging a) s opened = refl
  send_of-send_request (Service.AgentRequest.node_remote_access a) s opened = refl
  send_of-send_request (Service.AgentRequest.node_observation a) s opened = refl
  send_of-send_request (Service.AgentRequest.node_version a) s opened = refl
  send_of-send_request (Service.AgentRequest.node_enroll a) s opened = refl
  send_of-send_request (Service.AgentRequest.node_package (Package.install f)) s opened = cc
  send_of-send_request (Service.AgentRequest.node_package _) s opened = refl
  send_of-send_request _ s opened = absurd s

received_of-reply_of :
    {Net : Type 0} (r : AgentRequest Net)
    → Sendable r
    → (x : Answer (Response r)) → received_of r (reply_of r x ∷ []) ≡ ok x
received_of-reply_of (Service.AgentRequest.allowlist a) s x = refl
received_of-reply_of (Service.AgentRequest.blocklist a) s x = refl
received_of-reply_of Service.AgentRequest.update_config s x = refl
received_of-reply_of (Service.AgentRequest.delete_customer_data a) s x = refl
received_of-reply_of (Service.AgentRequest.train_model a) s x = refl
received_of-reply_of (Service.AgentRequest.clone_model a) s x = refl
received_of-reply_of (Service.AgentRequest.cancel_run a) s x = refl
received_of-reply_of (Service.AgentRequest.run_detector_once a) s x = refl
received_of-reply_of (Service.AgentRequest.reload_filter_rule a) s x = refl
received_of-reply_of (Service.AgentRequest.internal_network_list a) s x = refl
received_of-reply_of Service.AgentRequest.echo_request s x = refl
received_of-reply_of (Service.AgentRequest.sampling_policy_list a) s x = refl
received_of-reply_of (Service.AgentRequest.tor_exit_node_list a) s x = refl
received_of-reply_of (Service.AgentRequest.trusted_domain_list a) s x = refl
received_of-reply_of (Service.AgentRequest.trusted_user_agent_list a) s x = refl
received_of-reply_of (Service.AgentRequest.node_service a) s x = refl
received_of-reply_of (Service.AgentRequest.node_network_interface a) s x = refl
received_of-reply_of (Service.AgentRequest.node_hostname a) s x = refl
received_of-reply_of (Service.AgentRequest.node_time_sync a) s x = refl
received_of-reply_of (Service.AgentRequest.node_logging a) s x = refl
received_of-reply_of (Service.AgentRequest.node_remote_access a) s x = refl
received_of-reply_of (Service.AgentRequest.node_observation a) s x = refl
received_of-reply_of (Service.AgentRequest.node_version a) s x = refl
received_of-reply_of (Service.AgentRequest.node_enroll a) s x = refl
received_of-reply_of (Service.AgentRequest.node_package a) s x = refl
received_of-reply_of _ s x = absurd s

pub receive-answer : {T : Type 0} (x : Answer T) → receive (ok x) ≡ map_err text x
unfolding receive
receive-answer (ok a) = refl
receive-answer (err e) = refl

module _ {Net H : Type 0} (encoder : Encoder Net) (handler : Handler Net H)
    (codec : AgentCodec Net) where
  manager-receives :
      (r : AgentRequest Net) (s : Sendable r) (payload : Bytes) (x : Answer (Response r))
      (opened : Stream (Response r))
      → payload_of encoder r ≡ ok payload
      → opened.send ≡ record { outcomes = []; sent = [] }
      → opened.response ≡ ok x
      → ((send_of encoder r s (ok opened)).0 ≡ map_err text x)
        × ((send_of encoder r s (ok opened)).1
            ≡ some (record opened {
              send = record { outcomes = []; sent = frame_of encoder handler codec r payload ∷ [] };
            }))
  unfolding encode_request
  manager-receives r s payload x opened e idle answer =
      rw
        (
          send_of-send_request encoder r s (ok opened),
          e,
          send_request-Reliable (frame_of encoder handler codec r payload) opened
              (ap (λ out. out.outcomes) idle),
          answer,
          idle,
        )
        (receive-answer x, refl)

  -- A remote call is a local call. For each method of the manager's connection that sends a
  -- request of the common families, and for each plain one of the node families but for
  -- `node_power` and the install, and an agent on the same stream that runs `handle`: the manager
  -- sends one frame; the agent serves it and returns without an error, with the state that its
  -- method leaves; and the manager's method returns what the agent's method answers, an error
  -- text included. `node_package` is called with a request that is not an install. Bincode
  -- decodes what it encodes, the payload is encoded, and the sends do not fail.
  pub remote_call_is_a_local_call :
      (r : AgentRequest Net) (s : Sendable r) (payload : Bytes) (h : H)
      → Speaks encoder codec
      → payload_of encoder r ≡ ok payload
      → let frame = encoder.fixed_u32 (to_u32 (code_of r)) ++ payload in
        let agent : Agent H = record {
          handler = h;
          send = record { outcomes = []; sent = [] };
          recv = ok frame ∷ [];
        } in
        let (outcome, served) = handle handler codec agent in
        let opened : Stream (Response r) = record {
          send = record { outcomes = []; sent = [] };
          finished = false;
          response = received_of r served.send.sent;
        } in
        let (answer, h') = method_of handler r s h in
        (outcome ≡ ok tt)
        × (served.handler ≡ h')
        × ((send_of encoder r s (ok opened)).0 ≡ map_err text answer)
        × ((send_of encoder r s (ok opened)).1
            ≡ some (record opened { send = record { outcomes = []; sent = frame ∷ [] } }))
  unfolding encode_request
  remote_call_is_a_local_call r s payload h speaks e =
      let (x, h') = method_of handler r s h in
      let opened : Stream (Response r) = record {
        send = record { outcomes = []; sent = [] };
        finished = false;
        response = received_of r (reply_of r x ∷ []);
      } in
      let (result, stream) =
        manager-receives r s payload x opened e refl (received_of-reply_of r s x) in
      rw (agent-serves encoder handler codec r s payload h speaks e) (refl, refl, result, stream)
