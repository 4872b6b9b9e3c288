-- ===== src/Request/Handle/Answered.antt =====
-- `handle` of request.rs answers a typed request as its method answers.
use mathlib.Core.List.{append-nil}
use review_protocol.Prelude.{
  ℕ, false, ◌≡◌, refl, Result, ok, Option, none, some, List, [], ◌∷◌, ◌++◌, Bool-cases, inl, inr,
}
use review_protocol.ProtocolError.{IoError, ProtocolErrorKind, invalid_args}
use review_protocol.Wire.{Bytes}
use review_protocol.Wire.Laws.{Reliable}
use review_protocol.Types.Node.Package.{NodePackageRequest, install}
use review_protocol.Request.NodeHandler.{
  Answer, NodeReply, acknowledged, node_power_expects_response, package_result,
}
use review_protocol.Request.Handler.{Handler, node_handler}
use review_protocol.Request.Serve.{Agent}
use review_protocol.Request.Package.{dispatch_node_package}
use review_protocol.Request.Package.Exchange.{respond-Reliable}
use review_protocol.Request.HandleNode.Counts.{decode_args-ok}
use review_protocol.Request.Handle.{
  AgentCodec, serve_method, serve_args, serve_flat_power, serve_flat_observation,
  serve_grouped_power, serve_grouped_package, dispatch_any,
}
use review_protocol.Request.Handle.Service.{
  AgentRequest, is_install, code_of, Carries, replies_to, replies_to_all,
}
use review_protocol.Request.Handle.Service
use review_protocol.Request.Handle.{NodePowerRequest}

-- The state behind replies and a new state of the handler.
abbrev pub answered : {H : Type 0} → List NodeReply × H → Agent H → Agent H
answered (replies, h) w = record w {
  handler = h;
  send = record { outcomes = []; sent = w.send.sent ++ replies };
}

module _ {Net H : Type 0} (handler : Handler Net H) (codec : AgentCodec Net) where
  serve_args-answered :
      {Req A : Type 0} (parse : Bytes → Result Req IoError) (kind : Option ProtocolErrorKind)
      (method : Req → H → Answer A × H) (reply : Answer A → NodeReply) (code : ℕ) (body : Bytes)
      (w : Agent H) (a : Req)
      → Reliable w.send
      → parse body ≡ ok a
      → serve_args parse kind method reply code body w
        ≡ (ok tt, answered (reply (method a w.handler).0 ∷ [], (method a w.handler).1) w)
  unfolding serve_args
  serve_args-answered parse kind method reply code body w a r e =
      rw (decode_args-ok (node_handler handler) codec.node parse code body kind w a e) (
        respond-Reliable (reply (method a w.handler).0)
          (record w { handler = (method a w.handler).1 }) r)

  power-answered :
      (code : ℕ) (body : Bytes) (w : Agent H) (a : NodePowerRequest)
      → Reliable w.send
      → codec.node.parse_power body ≡ ok a
      → serve_grouped_power handler codec code body w ≡ (
        ok tt,
        answered (replies_to handler codec (Service.AgentRequest.node_power a) w.handler) w,
      )
  unfolding serve_grouped_power
  power-answered code body w a r e = elim (Bool-cases (node_power_expects_response a)) [
    | inl expected ↦
        rw
          (
            decode_args-ok (node_handler handler) codec.node codec.node.parse_power code body
                (some invalid_args) w a e,
            expected,
          )
          (respond-Reliable (NodeReply.power (handler.node_power a w.handler).0)
            (record w { handler = (handler.node_power a w.handler).1 }) r)
    | inr silent ↦
        rw
          (
            decode_args-ok (node_handler handler) codec.node codec.node.parse_power code body
                (some invalid_args) w a e,
            silent,
            r,
            append-nil w.send.sent,
          )
          refl
  ]

  package-answered :
      (a : NodePackageRequest) (w : Agent H)
      → Reliable w.send
      → is_install a ≡ false
      → dispatch_node_package (node_handler handler) a w ≡ (
        ok tt,
        answered
            (
              package_result (handler.node_package a w.handler).0 ∷ [],
              (handler.node_package a w.handler).1,
            )
            w,
      )
  unfolding dispatch_node_package
  package-answered (install f) w r e = cc
  package-answered _ w r e = respond-Reliable _ _ r

  -- A request whose arguments the body carries is answered as its method answers.
  pub dispatch_any-answered :
      (request : AgentRequest Net) (code : ℕ) (body : Bytes) (w : Agent H)
      → Reliable w.send
      → Carries codec request body
      → dispatch_any handler codec (code_of request) code body w
        ≡ (ok tt, answered (replies_to handler codec request w.handler) w)
  unfolding dispatch_any serve_method serve_flat_power serve_flat_observation serve_grouped_package
  dispatch_any-answered Service.AgentRequest.dns_start code body w r c = respond-Reliable _ _ r
  dispatch_any-answered Service.AgentRequest.dns_stop code body w r c = respond-Reliable _ _ r
  dispatch_any-answered Service.AgentRequest.reload_config code body w r c = respond-Reliable _ _ r
  dispatch_any-answered Service.AgentRequest.update_config code body w r c = respond-Reliable _ _ r
  dispatch_any-answered Service.AgentRequest.reboot code body w r c = respond-Reliable _ _ r
  dispatch_any-answered Service.AgentRequest.shutdown code body w r c = respond-Reliable _ _ r
  dispatch_any-answered Service.AgentRequest.resource_usage code body w r c = respond-Reliable _ _ r
  dispatch_any-answered Service.AgentRequest.process_list code body w r c = respond-Reliable _ _ r
  dispatch_any-answered Service.AgentRequest.echo_request code body w r c = respond-Reliable _ _ r
  dispatch_any-answered (Service.AgentRequest.semi_supervised_models models) code body w r c =
      rw c (respond-Reliable _ _ r)
  dispatch_any-answered (Service.AgentRequest.reload_ti a) code body w r c =
      serve_args-answered codec.parse_text (some invalid_args) handler.reload_ti acknowledged code
        body w a r c
  dispatch_any-answered (Service.AgentRequest.tor_exit_node_list a) code body w r c =
      serve_args-answered codec.parse_texts none handler.tor_exit_node_list acknowledged code body w
        a r c
  dispatch_any-answered (Service.AgentRequest.sampling_policy_list a) code body w r c =
      serve_args-answered codec.parse_policies none handler.sampling_policy_list acknowledged code
        body w a r c
  dispatch_any-answered (Service.AgentRequest.delete_sampling_policy a) code body w r c =
      serve_args-answered codec.parse_policy_ids none handler.delete_sampling_policy acknowledged
        code body w a r c
  dispatch_any-answered (Service.AgentRequest.trusted_domain_list a) code body w r c =
      serve_args-answered codec.parse_texts none handler.trusted_domain_list acknowledged code body
        w a r c
  dispatch_any-answered (Service.AgentRequest.internal_network_list a) code body w r c =
      serve_args-answered codec.parse_networks none handler.internal_network_list acknowledged code
        body w a r c
  dispatch_any-answered (Service.AgentRequest.allowlist a) code body w r c =
      serve_args-answered codec.parse_networks none handler.allowlist acknowledged code body w a r c
  dispatch_any-answered (Service.AgentRequest.blocklist a) code body w r c =
      serve_args-answered codec.parse_networks none handler.blocklist acknowledged code body w a r c
  dispatch_any-answered (Service.AgentRequest.trusted_user_agent_list a) code body w r c =
      serve_args-answered codec.parse_texts none handler.trusted_user_agent_list acknowledged code
        body w a r c
  dispatch_any-answered (Service.AgentRequest.reload_filter_rule a) code body w r c =
      serve_args-answered codec.parse_rules none handler.update_traffic_filter_rules acknowledged
        code body w a r c
  dispatch_any-answered (Service.AgentRequest.delete_customer_data a) code body w r c =
      serve_args-answered codec.parse_deletion none handler.delete_customer_data acknowledged code
        body w a r c
  dispatch_any-answered (Service.AgentRequest.train_model a) code body w r c =
      serve_args-answered codec.parse_train_model none handler.train_model acknowledged code body w
        a r c
  dispatch_any-answered (Service.AgentRequest.clone_model a) code body w r c =
      serve_args-answered codec.parse_clone_model none handler.clone_model acknowledged code body w
        a r c
  dispatch_any-answered (Service.AgentRequest.cancel_run a) code body w r c =
      serve_args-answered codec.parse_run_id none handler.cancel_run acknowledged code body w a r c
  dispatch_any-answered (Service.AgentRequest.run_detector_once a) code body w r c =
      serve_args-answered codec.parse_detector_id none handler.run_detector_once acknowledged code
        body w a r c
  dispatch_any-answered (Service.AgentRequest.node_service a) code body w r c =
      serve_args-answered codec.node.parse_service none handler.node_service NodeReply.service code
        body w a r c
  dispatch_any-answered (Service.AgentRequest.node_network_interface a) code body w r c =
      serve_args-answered codec.node.parse_network_interface none handler.node_network_interface
        NodeReply.network_interface code body w a r c
  dispatch_any-answered (Service.AgentRequest.node_hostname a) code body w r c =
      serve_args-answered codec.node.parse_hostname none handler.node_hostname NodeReply.hostname
        code body w a r c
  dispatch_any-answered (Service.AgentRequest.node_time_sync a) code body w r c =
      serve_args-answered codec.node.parse_time_sync none handler.node_time_sync NodeReply.time_sync
        code body w a r c
  dispatch_any-answered (Service.AgentRequest.node_logging a) code body w r c =
      serve_args-answered codec.node.parse_logging none handler.node_logging NodeReply.logging code
        body w a r c
  dispatch_any-answered (Service.AgentRequest.node_remote_access a) code body w r c =
      serve_args-answered codec.node.parse_remote_access none handler.node_remote_access
        NodeReply.remote_access code body w a r c
  dispatch_any-answered (Service.AgentRequest.node_observation a) code body w r c =
      serve_args-answered codec.node.parse_observation none handler.node_observation
        NodeReply.observation code body w a r c
  dispatch_any-answered (Service.AgentRequest.node_version a) code body w r c =
      serve_args-answered codec.node.parse_version none handler.node_version NodeReply.version code
        body w a r c
  dispatch_any-answered (Service.AgentRequest.node_enroll a) code body w r c =
      serve_args-answered codec.node.parse_enroll none handler.node_enroll NodeReply.enroll code
        body w a r c
  dispatch_any-answered (Service.AgentRequest.node_power a) code body w r c =
      power-answered code body w a r c
  dispatch_any-answered (Service.AgentRequest.node_package a) code body w r c =
      rw
        (decode_args-ok (node_handler handler) codec.node codec.node.parse_package code body none w
          a c.0)
        (package-answered a w r c.1)
