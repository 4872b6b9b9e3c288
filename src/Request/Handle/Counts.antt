-- ===== src/Request/Handle/Counts.antt =====
-- `handle` of request.rs: how many replies a request gets.
use review_protocol.ProtocolError.{invalid_args}
use review_protocol.Request.NodeHandler.{acknowledged}
use review_protocol.Prelude.{none, some, ℕ, refl, inl, inr, Result, Option, Result-cases}
use review_protocol.ProtocolError.{IoError, ProtocolErrorKind}
use review_protocol.Wire.{Bytes}
use review_protocol.Wire.Laws.{Grew, Grew-one, Reliable}
use review_protocol.Codes.Client.{RequestCode}
use review_protocol.Request.NodeHandler.{Answer, NodeReply, error}
use review_protocol.Request.Handler.{Handler, node_handler}
use review_protocol.Request.Serve.{Agent, undecodable_args_message}
use review_protocol.Request.Package.Exchange.{respond-Reliable}
use review_protocol.Request.HandleNode.Replies.{decode_args-fails}
use review_protocol.Request.HandleNode.Counts.{ReplyCount, one, decode_args-ok, replies_counted}
use review_protocol.Request.Handle.{
  AgentCodec, serve_method, serve_args, serve_flat_power, serve_flat_observation, dispatch_any,
}
use review_protocol.Request.Handle.Nodes.{Grouped, dispatch_any-Grouped}
use review_protocol.Request.Handle.{acknowledged}
use review_protocol.Request.Handle.{respond}
use review_protocol.Prelude.{some}
use review_protocol.ProtocolError.{invalid_args}
use review_protocol.Prelude.{none}

module _ {Net H : Type 0} (handler : Handler Net H) (codec : AgentCodec Net) where
  -- The count of the replies that a request of `handle` may get, which is that of `handle_node`.
  abbrev Counted : RequestCode → Bytes → Agent H → Agent H → Type 0
  Counted c body w w' =
      (n : ℕ) × ReplyCount (node_handler handler) codec.node c body n × Grew w.send n w'.send

  respond-Counted :
      (c : RequestCode) (body : Bytes) (reply : NodeReply) (w : Agent H)
      → Reliable w.send
      → Counted c body w (respond reply w).1
  respond-Counted c body reply w r =
      rw (respond-Reliable reply w r) (1, one refl, Grew-one reply w.send)

  serve_method-Counted :
      {A : Type 0} (c : RequestCode) (body : Bytes) (method : H → Answer A × H)
      (reply : Answer A → NodeReply) (w : Agent H)
      → Reliable w.send
      → Counted c body w (serve_method method reply w).1
  unfolding serve_method
  serve_method-Counted c body method reply w r =
      respond-Counted c body (reply (method w.handler).0)
        (record w { handler = (method w.handler).1 }) r

  serve_args-Counted :
      {Req A : Type 0} (c : RequestCode) (parse : Bytes → Result Req IoError)
      (kind : Option ProtocolErrorKind) (method : Req → H → Answer A × H)
      (reply : Answer A → NodeReply) (code : ℕ) (body : Bytes) (w : Agent H)
      → Reliable w.send
      → Counted c body w (serve_args parse kind method reply code body w).1
  unfolding serve_args
  serve_args-Counted c parse kind method reply code body w r = elim (Result-cases (parse body)) [
    | inl (req, e) ↦
        rw (decode_args-ok (node_handler handler) codec.node parse code body kind w req e) (
          respond-Counted c body (reply (method req w.handler).0)
            (record w { handler = (method req w.handler).1 }) r)
    | inr (x, e) ↦
        rw (decode_args-fails (node_handler handler) codec.node parse code body kind w x r e)
          (1, one refl, Grew-one (error (undecodable_args_message code)) w.send)
  ]

  Grouped-Counted :
      (c : RequestCode) (code : ℕ) (body : Bytes) (w : Agent H)
      → Reliable w.send
      → Grouped c
      → Counted c body w (dispatch_any handler codec c code body w).1
  Grouped-Counted c code body w r g =
      rw (dispatch_any-Grouped handler codec c code body g)
        (replies_counted (node_handler handler) codec.node c code body w r)

  -- On a stream whose sends do not fail, `handle` answers a request by exactly one frame, but for two
  -- cases: a power request that expects no response may get none, and an install may get two, its
  -- verdict and its result. This holds for every request code and body, undecodable ones included,
  -- and the sends do not fail afterwards.
  pub all_replies_counted :
      (c : RequestCode) (code : ℕ) (body : Bytes) (w : Agent H)
      → Reliable w.send
      → (n : ℕ) × ReplyCount (node_handler handler) codec.node c body n
        × Grew w.send n (dispatch_any handler codec c code body w).1.send
  unfolding dispatch_any serve_flat_power serve_flat_observation
  all_replies_counted RequestCode.dns_start code body w r =
      serve_method-Counted RequestCode.dns_start body handler.dns_start acknowledged w r
  all_replies_counted RequestCode.dns_stop code body w r =
      serve_method-Counted RequestCode.dns_stop body handler.dns_stop acknowledged w r
  all_replies_counted RequestCode.reboot code body w r =
      respond-Counted RequestCode.reboot body _ _ r
  all_replies_counted RequestCode.reload_config code body w r =
      serve_method-Counted RequestCode.reload_config body handler.reload_config acknowledged w r
  all_replies_counted RequestCode.reload_ti code body w r =
      serve_args-Counted RequestCode.reload_ti codec.parse_text (some invalid_args)
        handler.reload_ti acknowledged code body w r
  all_replies_counted RequestCode.resource_usage code body w r =
      respond-Counted RequestCode.resource_usage body _ _ r
  all_replies_counted RequestCode.tor_exit_node_list code body w r =
      serve_args-Counted RequestCode.tor_exit_node_list codec.parse_texts none
        handler.tor_exit_node_list acknowledged code body w r
  all_replies_counted RequestCode.sampling_policy_list code body w r =
      serve_args-Counted RequestCode.sampling_policy_list codec.parse_policies none
        handler.sampling_policy_list acknowledged code body w r
  all_replies_counted RequestCode.delete_sampling_policy code body w r =
      serve_args-Counted RequestCode.delete_sampling_policy codec.parse_policy_ids none
        handler.delete_sampling_policy acknowledged code body w r
  all_replies_counted RequestCode.trusted_domain_list code body w r =
      serve_args-Counted RequestCode.trusted_domain_list codec.parse_texts none
        handler.trusted_domain_list acknowledged code body w r
  all_replies_counted RequestCode.internal_network_list code body w r =
      serve_args-Counted RequestCode.internal_network_list codec.parse_networks none
        handler.internal_network_list acknowledged code body w r
  all_replies_counted RequestCode.allowlist code body w r =
      serve_args-Counted RequestCode.allowlist codec.parse_networks none handler.allowlist
        acknowledged code body w r
  all_replies_counted RequestCode.blocklist code body w r =
      serve_args-Counted RequestCode.blocklist codec.parse_networks none handler.blocklist
        acknowledged code body w r
  all_replies_counted RequestCode.echo_request code body w r =
      respond-Counted RequestCode.echo_request body _ _ r
  all_replies_counted RequestCode.trusted_user_agent_list code body w r =
      serve_args-Counted RequestCode.trusted_user_agent_list codec.parse_texts none
        handler.trusted_user_agent_list acknowledged code body w r
  all_replies_counted RequestCode.reload_filter_rule code body w r =
      serve_args-Counted RequestCode.reload_filter_rule codec.parse_rules none
        handler.update_traffic_filter_rules acknowledged code body w r
  all_replies_counted RequestCode.update_config code body w r =
      serve_method-Counted RequestCode.update_config body handler.update_config acknowledged w r
  all_replies_counted RequestCode.delete_customer_data code body w r =
      serve_args-Counted RequestCode.delete_customer_data codec.parse_deletion none
        handler.delete_customer_data acknowledged code body w r
  all_replies_counted RequestCode.process_list code body w r =
      respond-Counted RequestCode.process_list body _ _ r
  all_replies_counted RequestCode.semi_supervised_models code body w r =
      serve_method-Counted RequestCode.semi_supervised_models body
        (handler.update_semi_supervised_models body) acknowledged w r
  all_replies_counted RequestCode.shutdown code body w r =
      respond-Counted RequestCode.shutdown body _ _ r
  all_replies_counted RequestCode.node_service code body w r =
      Grouped-Counted RequestCode.node_service code body w r tt
  all_replies_counted RequestCode.node_network_interface code body w r =
      Grouped-Counted RequestCode.node_network_interface code body w r tt
  all_replies_counted RequestCode.node_hostname code body w r =
      Grouped-Counted RequestCode.node_hostname code body w r tt
  all_replies_counted RequestCode.node_time_sync code body w r =
      Grouped-Counted RequestCode.node_time_sync code body w r tt
  all_replies_counted RequestCode.node_logging code body w r =
      Grouped-Counted RequestCode.node_logging code body w r tt
  all_replies_counted RequestCode.node_remote_access code body w r =
      Grouped-Counted RequestCode.node_remote_access code body w r tt
  all_replies_counted RequestCode.node_power code body w r =
      Grouped-Counted RequestCode.node_power code body w r tt
  all_replies_counted RequestCode.node_observation code body w r =
      Grouped-Counted RequestCode.node_observation code body w r tt
  all_replies_counted RequestCode.node_version code body w r =
      Grouped-Counted RequestCode.node_version code body w r tt
  all_replies_counted RequestCode.node_package code body w r =
      Grouped-Counted RequestCode.node_package code body w r tt
  all_replies_counted RequestCode.node_enroll code body w r =
      Grouped-Counted RequestCode.node_enroll code body w r tt
  all_replies_counted RequestCode.train_model code body w r =
      serve_args-Counted RequestCode.train_model codec.parse_train_model none handler.train_model
        acknowledged code body w r
  all_replies_counted RequestCode.clone_model code body w r =
      serve_args-Counted RequestCode.clone_model codec.parse_clone_model none handler.clone_model
        acknowledged code body w r
  all_replies_counted RequestCode.cancel_run code body w r =
      serve_args-Counted RequestCode.cancel_run codec.parse_run_id none handler.cancel_run
        acknowledged code body w r
  all_replies_counted RequestCode.run_detector_once code body w r =
      serve_args-Counted RequestCode.run_detector_once codec.parse_detector_id none
        handler.run_detector_once acknowledged code body w r
  all_replies_counted RequestCode.unknown code body w r =
      Grouped-Counted RequestCode.unknown code body w r tt
