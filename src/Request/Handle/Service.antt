-- ===== src/Request/Handle/Service.antt =====
-- What an agent of request.rs serves, without streams: the typed requests, and the replies and the
-- state that a handler's methods give. An install, whose payload is part of the exchange, is
-- not among them. The four flat requests of host control are served by the grouped methods
-- `node_power` and `node_observation`, which is what the code does; the comment on `handle` says
-- that they call the flat methods directly.
use review_protocol.Prelude.{
  ℕ, String, Bool, true, false, ◌≡◌, ok, List, [], ◌∷◌, ◌++◌, and_then, map_ok, if◌then◌else◌,
}
use review_protocol.Wire.{Bytes}
use review_protocol.Codes.Client.{RequestCode}
use review_protocol.Types.Shared.{ℤ}
use review_protocol.Types.Detection.{HostNetworkGroup, SamplingPolicy}
use review_protocol.Types.Engine.{
  CustomerDataDeletionRequest, TrainModelRequest, CloneModelRequest, TrafficFilterRule,
}
use review_protocol.Types.Node.Config.{
  NodeServiceRequest, NodeNetworkInterfaceRequest, NodeHostnameRequest, NodeTimeSyncRequest,
  NodeLoggingRequest, NodeRemoteAccessRequest,
}
use review_protocol.Types.Node.Observation.{
  NodePowerRequest, NodeObservationRequest, NodeVersionRequest,
}
use review_protocol.Types.Node.Package.{NodePackageRequest, install}
use review_protocol.Types.Node.Enroll.{NodeEnrollRequest}
use review_protocol.Request.NodeHandler.{
  Answer, NodeReply, acknowledged, usage, processes, node_power_expects_response, package_result,
}
use review_protocol.Request.Handler.{Handler}
use review_protocol.Request.Handle.{AgentCodec, usage_of, processes_of}

pub data AgentRequest (Net : Type 0) : Type 0 where
  dns_start : AgentRequest Net
  dns_stop : AgentRequest Net
  reload_config : AgentRequest Net
  update_config : AgentRequest Net
  reboot : AgentRequest Net
  shutdown : AgentRequest Net
  resource_usage : AgentRequest Net
  process_list : AgentRequest Net
  echo_request : AgentRequest Net
  semi_supervised_models : Bytes → AgentRequest Net
  reload_ti : String → AgentRequest Net
  tor_exit_node_list : List String → AgentRequest Net
  sampling_policy_list : List SamplingPolicy → AgentRequest Net
  delete_sampling_policy : List ℕ → AgentRequest Net
  trusted_domain_list : List String → AgentRequest Net
  internal_network_list : HostNetworkGroup Net → AgentRequest Net
  allowlist : HostNetworkGroup Net → AgentRequest Net
  blocklist : HostNetworkGroup Net → AgentRequest Net
  trusted_user_agent_list : List String → AgentRequest Net
  reload_filter_rule : List (TrafficFilterRule Net) → AgentRequest Net
  delete_customer_data : CustomerDataDeletionRequest → AgentRequest Net
  train_model : TrainModelRequest → AgentRequest Net
  clone_model : CloneModelRequest → AgentRequest Net
  cancel_run : ℕ → AgentRequest Net
  run_detector_once : ℤ → AgentRequest Net
  node_service : NodeServiceRequest → AgentRequest Net
  node_network_interface : NodeNetworkInterfaceRequest → AgentRequest Net
  node_hostname : NodeHostnameRequest → AgentRequest Net
  node_time_sync : NodeTimeSyncRequest → AgentRequest Net
  node_logging : NodeLoggingRequest → AgentRequest Net
  node_remote_access : NodeRemoteAccessRequest → AgentRequest Net
  node_observation : NodeObservationRequest → AgentRequest Net
  node_version : NodeVersionRequest → AgentRequest Net
  node_enroll : NodeEnrollRequest → AgentRequest Net
  node_power : NodePowerRequest → AgentRequest Net
  node_package : NodePackageRequest → AgentRequest Net

-- `install` is the one package request that is not answered by one reply.
abbrev pub is_install : NodePackageRequest → Bool
is_install (install f) = true
is_install _ = false

module _ {Net : Type 0} where
  -- The code that names the request.
  abbrev pub code_of : AgentRequest Net → RequestCode
  code_of dns_start = RequestCode.dns_start
  code_of dns_stop = RequestCode.dns_stop
  code_of reload_config = RequestCode.reload_config
  code_of update_config = RequestCode.update_config
  code_of reboot = RequestCode.reboot
  code_of shutdown = RequestCode.shutdown
  code_of resource_usage = RequestCode.resource_usage
  code_of process_list = RequestCode.process_list
  code_of echo_request = RequestCode.echo_request
  code_of (semi_supervised_models a) = RequestCode.semi_supervised_models
  code_of (reload_ti a) = RequestCode.reload_ti
  code_of (tor_exit_node_list a) = RequestCode.tor_exit_node_list
  code_of (sampling_policy_list a) = RequestCode.sampling_policy_list
  code_of (delete_sampling_policy a) = RequestCode.delete_sampling_policy
  code_of (trusted_domain_list a) = RequestCode.trusted_domain_list
  code_of (internal_network_list a) = RequestCode.internal_network_list
  code_of (allowlist a) = RequestCode.allowlist
  code_of (blocklist a) = RequestCode.blocklist
  code_of (trusted_user_agent_list a) = RequestCode.trusted_user_agent_list
  code_of (reload_filter_rule a) = RequestCode.reload_filter_rule
  code_of (delete_customer_data a) = RequestCode.delete_customer_data
  code_of (train_model a) = RequestCode.train_model
  code_of (clone_model a) = RequestCode.clone_model
  code_of (cancel_run a) = RequestCode.cancel_run
  code_of (run_detector_once a) = RequestCode.run_detector_once
  code_of (node_service a) = RequestCode.node_service
  code_of (node_network_interface a) = RequestCode.node_network_interface
  code_of (node_hostname a) = RequestCode.node_hostname
  code_of (node_time_sync a) = RequestCode.node_time_sync
  code_of (node_logging a) = RequestCode.node_logging
  code_of (node_remote_access a) = RequestCode.node_remote_access
  code_of (node_observation a) = RequestCode.node_observation
  code_of (node_version a) = RequestCode.node_version
  code_of (node_enroll a) = RequestCode.node_enroll
  code_of (node_power a) = RequestCode.node_power
  code_of (node_package a) = RequestCode.node_package

  -- The body carries the request's arguments.
  abbrev pub Carries : AgentCodec Net → AgentRequest Net → Bytes → Type 0
  Carries codec dns_start body = Unit
  Carries codec dns_stop body = Unit
  Carries codec reload_config body = Unit
  Carries codec update_config body = Unit
  Carries codec reboot body = Unit
  Carries codec shutdown body = Unit
  Carries codec resource_usage body = Unit
  Carries codec process_list body = Unit
  Carries codec echo_request body = Unit
  Carries codec (semi_supervised_models models) body = body ≡ models
  Carries codec (reload_ti a) body = codec.parse_text body ≡ ok a
  Carries codec (tor_exit_node_list a) body = codec.parse_texts body ≡ ok a
  Carries codec (sampling_policy_list a) body = codec.parse_policies body ≡ ok a
  Carries codec (delete_sampling_policy a) body = codec.parse_policy_ids body ≡ ok a
  Carries codec (trusted_domain_list a) body = codec.parse_texts body ≡ ok a
  Carries codec (internal_network_list a) body = codec.parse_networks body ≡ ok a
  Carries codec (allowlist a) body = codec.parse_networks body ≡ ok a
  Carries codec (blocklist a) body = codec.parse_networks body ≡ ok a
  Carries codec (trusted_user_agent_list a) body = codec.parse_texts body ≡ ok a
  Carries codec (reload_filter_rule a) body = codec.parse_rules body ≡ ok a
  Carries codec (delete_customer_data a) body = codec.parse_deletion body ≡ ok a
  Carries codec (train_model a) body = codec.parse_train_model body ≡ ok a
  Carries codec (clone_model a) body = codec.parse_clone_model body ≡ ok a
  Carries codec (cancel_run a) body = codec.parse_run_id body ≡ ok a
  Carries codec (run_detector_once a) body = codec.parse_detector_id body ≡ ok a
  Carries codec (node_service a) body = codec.node.parse_service body ≡ ok a
  Carries codec (node_network_interface a) body = codec.node.parse_network_interface body ≡ ok a
  Carries codec (node_hostname a) body = codec.node.parse_hostname body ≡ ok a
  Carries codec (node_time_sync a) body = codec.node.parse_time_sync body ≡ ok a
  Carries codec (node_logging a) body = codec.node.parse_logging body ≡ ok a
  Carries codec (node_remote_access a) body = codec.node.parse_remote_access body ≡ ok a
  Carries codec (node_observation a) body = codec.node.parse_observation body ≡ ok a
  Carries codec (node_version a) body = codec.node.parse_version body ≡ ok a
  Carries codec (node_enroll a) body = codec.node.parse_enroll body ≡ ok a
  Carries codec (node_power a) body = codec.node.parse_power body ≡ ok a
  Carries codec (node_package a) body =
      (codec.node.parse_package body ≡ ok a) × (is_install a ≡ false)

  module _ {H : Type 0} (handler : Handler Net H) (codec : AgentCodec Net) where
    -- One reply, made of what a method answers.
    abbrev one_reply : {A : Type 0} → (Answer A → NodeReply) → Answer A × H → List NodeReply × H
    one_reply reply (r, h) = (reply r ∷ [], h)

    -- The replies to a request, and the handler's state behind it.
    abbrev pub replies_to : AgentRequest Net → H → List NodeReply × H
    replies_to dns_start h = one_reply acknowledged (handler.dns_start h)
    replies_to dns_stop h = one_reply acknowledged (handler.dns_stop h)
    replies_to reload_config h = one_reply acknowledged (handler.reload_config h)
    replies_to update_config h = one_reply acknowledged (handler.update_config h)
    replies_to reboot h =
        one_reply (λ r. acknowledged (map_ok (λ _. tt) r))
          (handler.node_power NodePowerRequest.reboot h)
    replies_to shutdown h =
        one_reply (λ r. acknowledged (map_ok (λ _. tt) r))
          (handler.node_power NodePowerRequest.shutdown h)
    replies_to resource_usage h =
        one_reply (λ r. usage (and_then r (usage_of handler codec)))
          (handler.node_observation NodeObservationRequest.resource_usage h)
    replies_to process_list h =
        one_reply (λ r. processes (and_then r (processes_of handler codec)))
          (handler.node_observation NodeObservationRequest.process_list h)
    replies_to echo_request h = (acknowledged (ok tt) ∷ [], h)
    replies_to (semi_supervised_models models) h =
        one_reply acknowledged (handler.update_semi_supervised_models models h)
    replies_to (reload_ti a) h = one_reply acknowledged (handler.reload_ti a h)
    replies_to (tor_exit_node_list a) h = one_reply acknowledged (handler.tor_exit_node_list a h)
    replies_to (sampling_policy_list a) h =
        one_reply acknowledged (handler.sampling_policy_list a h)
    replies_to (delete_sampling_policy a) h =
        one_reply acknowledged (handler.delete_sampling_policy a h)
    replies_to (trusted_domain_list a) h = one_reply acknowledged (handler.trusted_domain_list a h)
    replies_to (internal_network_list a) h =
        one_reply acknowledged (handler.internal_network_list a h)
    replies_to (allowlist a) h = one_reply acknowledged (handler.allowlist a h)
    replies_to (blocklist a) h = one_reply acknowledged (handler.blocklist a h)
    replies_to (trusted_user_agent_list a) h =
        one_reply acknowledged (handler.trusted_user_agent_list a h)
    replies_to (reload_filter_rule a) h =
        one_reply acknowledged (handler.update_traffic_filter_rules a h)
    replies_to (delete_customer_data a) h =
        one_reply acknowledged (handler.delete_customer_data a h)
    replies_to (train_model a) h = one_reply acknowledged (handler.train_model a h)
    replies_to (clone_model a) h = one_reply acknowledged (handler.clone_model a h)
    replies_to (cancel_run a) h = one_reply acknowledged (handler.cancel_run a h)
    replies_to (run_detector_once a) h = one_reply acknowledged (handler.run_detector_once a h)
    replies_to (node_service a) h = one_reply NodeReply.service (handler.node_service a h)
    replies_to (node_network_interface a) h =
        one_reply NodeReply.network_interface (handler.node_network_interface a h)
    replies_to (node_hostname a) h = one_reply NodeReply.hostname (handler.node_hostname a h)
    replies_to (node_time_sync a) h = one_reply NodeReply.time_sync (handler.node_time_sync a h)
    replies_to (node_logging a) h = one_reply NodeReply.logging (handler.node_logging a h)
    replies_to (node_remote_access a) h =
        one_reply NodeReply.remote_access (handler.node_remote_access a h)
    replies_to (node_observation a) h =
        one_reply NodeReply.observation (handler.node_observation a h)
    replies_to (node_version a) h = one_reply NodeReply.version (handler.node_version a h)
    replies_to (node_enroll a) h = one_reply NodeReply.enroll (handler.node_enroll a h)
    replies_to (node_power a) h = (
      if node_power_expects_response a then NodeReply.power (handler.node_power a h).0 ∷ [] else [],
      (handler.node_power a h).1,
    )
    replies_to (node_package a) h = one_reply package_result (handler.node_package a h)

    -- The replies to requests in their order.
    abbrev pub replies_to_all : List (AgentRequest Net) → H → List NodeReply × H
    replies_to_all [] h = ([], h)
    replies_to_all (r ∷ rs) h =
        let (first, h1) = replies_to r h in
        let (later, h2) = replies_to_all rs h1 in (first ++ later, h2)
