-- ===== src/Request/Handler.antt =====
-- `Handler` of request.rs: what an agent of any kind implements. A node agent may implement the
-- grouped methods alone, since the flat requests of host control are served through them; an agent
-- that implements the flat methods serves the grouped requests through the defaults.
use review_protocol.Prelude.{ℕ, String, ok, err, List}
use review_protocol.Wire.{Bytes}
use review_protocol.Types.Shared.{ℤ, Process, ResourceUsage}
use review_protocol.Types.Detection.{HostNetworkGroup, SamplingPolicy}
use review_protocol.Types.Engine.{
  CustomerDataDeletionRequest, TrainModelRequest, CloneModelRequest, TrafficFilterRule,
}
use review_protocol.Types.Node.Config.{
  NodeServiceRequest, NodeServiceResponse, NodeNetworkInterfaceRequest,
  NodeNetworkInterfaceResponse, NodeHostnameRequest, NodeHostnameResponse, NodeTimeSyncRequest,
  NodeTimeSyncResponse, NodeLoggingRequest, NodeLoggingResponse, NodeRemoteAccessRequest,
  NodeRemoteAccessResponse,
}
use review_protocol.Types.Node.Observation.{
  NodePowerRequest, NodePowerResponse, initiated, NodeObservationRequest, NodeObservationResponse,
  NodeVersionRequest, NodeVersionResponse,
}
use review_protocol.Types.Node.Package.{NodePackageRequest, NodePackageResponse, InstallPreflight}
use review_protocol.Types.Node.Enroll.{NodeEnrollRequest, NodeEnrollResponse}
use review_protocol.Request.Installer.{Installer, finish}
use review_protocol.Request.NodeHandler.{NodeHandler, Answer, unsupported}

-- `result.map(f)` on what a method answers.
abbrev pub map_answer : {A B H : Type 0} → (A → B) → Answer A × H → Answer B × H
map_answer f (ok a, h) = (ok (f a), h)
map_answer f (err e, h) = (err e, h)

-- `trait Handler`: each method takes the handler's state and returns the new one.
pub record Handler (Net H : Type 0) : Type 0 where
  pub dns_start : H → Answer (Unit {0}) × H
  pub dns_stop : H → Answer (Unit {0}) × H
  pub forward : String → Bytes → H → Answer Bytes × H
  pub reboot : H → Answer (Unit {0}) × H
  pub reload_config : H → Answer (Unit {0}) × H
  pub update_config : H → Answer (Unit {0}) × H
  pub delete_customer_data : CustomerDataDeletionRequest → H → Answer (Unit {0}) × H
  pub reload_ti : String → H → Answer (Unit {0}) × H
  pub resource_usage : H → Answer (String × ResourceUsage) × H
  pub tor_exit_node_list : List String → H → Answer (Unit {0}) × H
  pub trusted_domain_list : List String → H → Answer (Unit {0}) × H
  pub sampling_policy_list : List SamplingPolicy → H → Answer (Unit {0}) × H
  pub update_traffic_filter_rules : List (TrafficFilterRule Net) → H → Answer (Unit {0}) × H
  pub delete_sampling_policy : List ℕ → H → Answer (Unit {0}) × H
  pub internal_network_list : HostNetworkGroup Net → H → Answer (Unit {0}) × H
  pub allowlist : HostNetworkGroup Net → H → Answer (Unit {0}) × H
  pub blocklist : HostNetworkGroup Net → H → Answer (Unit {0}) × H
  pub trusted_user_agent_list : List String → H → Answer (Unit {0}) × H
  pub process_list : H → Answer (List Process) × H
  pub update_semi_supervised_models : Bytes → H → Answer (Unit {0}) × H
  pub shutdown : H → Answer (Unit {0}) × H
  pub train_model : TrainModelRequest → H → Answer (Unit {0}) × H
  pub clone_model : CloneModelRequest → H → Answer (Unit {0}) × H
  pub cancel_run : ℕ → H → Answer (Unit {0}) × H
  pub run_detector_once : ℤ → H → Answer (Unit {0}) × H
  pub node_service : NodeServiceRequest → H → Answer NodeServiceResponse × H
  pub node_network_interface :
      NodeNetworkInterfaceRequest → H → Answer NodeNetworkInterfaceResponse × H
  pub node_hostname : NodeHostnameRequest → H → Answer NodeHostnameResponse × H
  pub node_time_sync : NodeTimeSyncRequest → H → Answer NodeTimeSyncResponse × H
  pub node_logging : NodeLoggingRequest → H → Answer NodeLoggingResponse × H
  pub node_remote_access : NodeRemoteAccessRequest → H → Answer NodeRemoteAccessResponse × H
  pub node_power : NodePowerRequest → H → Answer NodePowerResponse × H
  pub node_observation : NodeObservationRequest → H → Answer NodeObservationResponse × H
  pub node_version : NodeVersionRequest → H → Answer NodeVersionResponse × H
  pub node_package : NodePackageRequest → H → Answer NodePackageResponse × H
  pub node_package_install_preflight : NodePackageRequest → H → Answer InstallPreflight × H
  pub node_package_install : NodePackageRequest → H → Installer H
  pub node_enroll : NodeEnrollRequest → H → Answer NodeEnrollResponse × H

module _ {H : Type 0} where
  -- The default `node_power`, which calls the handler's methods `reboot` and `shutdown`.
  unfoldable pub default_node_power :
      (H → Answer (Unit {0}) × H)
      → (H → Answer (Unit {0}) × H)
      → NodePowerRequest
      → H
      → Answer NodePowerResponse × H
  default_node_power reboot shutdown NodePowerRequest.reboot h =
      map_answer (λ _. initiated) (reboot h)
  default_node_power reboot shutdown NodePowerRequest.shutdown h =
      map_answer (λ _. initiated) (shutdown h)
  default_node_power reboot shutdown _ h = unsupported h

  -- The default `node_observation`, which calls `process_list` and `resource_usage`.
  unfoldable pub default_node_observation :
      (H → Answer (List Process) × H)
      → (H → Answer (String × ResourceUsage) × H)
      → NodeObservationRequest
      → H
      → Answer NodeObservationResponse × H
  default_node_observation process_list resource_usage NodeObservationRequest.process_list h =
      map_answer NodeObservationResponse.process_list (process_list h)
  default_node_observation process_list resource_usage NodeObservationRequest.resource_usage h =
      map_answer (λ (hostname, usage). NodeObservationResponse.resource_usage hostname usage)
        (resource_usage h)
  default_node_observation process_list resource_usage NodeObservationRequest.uptime h =
      unsupported h

  -- The default methods of the trait.
  unfoldable pub default_handler : {Net : Type 0} → Handler Net H
  unfolding default_node_power default_node_observation
  default_handler = record {
    dns_start = unsupported;
    dns_stop = unsupported;
    forward = λ target msg h. unsupported h;
    reboot = unsupported;
    reload_config = unsupported;
    update_config = unsupported;
    delete_customer_data = λ r h. unsupported h;
    reload_ti = λ version h. unsupported h;
    resource_usage = unsupported;
    tor_exit_node_list = λ nodes h. unsupported h;
    trusted_domain_list = λ domains h. unsupported h;
    sampling_policy_list = λ policies h. unsupported h;
    update_traffic_filter_rules = λ rules h. unsupported h;
    delete_sampling_policy = λ ids h. unsupported h;
    internal_network_list = λ networks h. unsupported h;
    allowlist = λ networks h. unsupported h;
    blocklist = λ networks h. unsupported h;
    trusted_user_agent_list = λ agents h. unsupported h;
    process_list = unsupported;
    update_semi_supervised_models = λ models h. unsupported h;
    shutdown = unsupported;
    train_model = λ r h. unsupported h;
    clone_model = λ r h. unsupported h;
    cancel_run = λ run_id h. unsupported h;
    run_detector_once = λ detector_id h. unsupported h;
    node_service = λ r h. unsupported h;
    node_network_interface = λ r h. unsupported h;
    node_hostname = λ r h. unsupported h;
    node_time_sync = λ r h. unsupported h;
    node_logging = λ r h. unsupported h;
    node_remote_access = λ r h. unsupported h;
    node_power = default_node_power unsupported unsupported;
    node_observation = default_node_observation unsupported unsupported;
    node_version = λ r h. unsupported h;
    node_package = λ r h. unsupported h;
    node_package_install_preflight = λ r h. unsupported h;
    node_package_install = λ r h. finish (err "not supported") h;
    node_enroll = λ r h. unsupported h;
  }

  -- `impl<T: Handler + ?Sized> NodeHandler for T`
  abbrev pub node_handler : {Net : Type 0} → Handler Net H → NodeHandler H
  node_handler handler = record {
    node_service = handler.node_service;
    node_network_interface = handler.node_network_interface;
    node_hostname = handler.node_hostname;
    node_time_sync = handler.node_time_sync;
    node_logging = handler.node_logging;
    node_remote_access = handler.node_remote_access;
    node_power = handler.node_power;
    node_observation = handler.node_observation;
    node_version = handler.node_version;
    node_package = handler.node_package;
    node_package_install_preflight = handler.node_package_install_preflight;
    node_package_install = handler.node_package_install;
    node_enroll = handler.node_enroll;
  }
