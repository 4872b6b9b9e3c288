-- ===== src/Server/Api/Calls/Served.antt =====
-- An agent that runs `handle` of request.rs serves the frame of a call of server/api.rs as its method
-- answers.
use review_protocol.Prelude.{ℕ, ◌<◌, ◌≡◌, refl, ok, List, [], ◌∷◌, ◌++◌, arith}
use review_protocol.Wire.{Bytes}
use review_protocol.Codes.Client.{RequestCode, to_u32}
use review_protocol.Codes.Client.Laws.{from_primitive-to_u32}
use review_protocol.Types.Shared.{ℤ}
use review_protocol.Types.Detection.{HostNetworkGroup, SamplingPolicy}
use review_protocol.Types.Engine.{
  CustomerDataDeletionRequest, TrainModelRequest, CloneModelRequest, TrafficFilterRule,
}
use review_protocol.Types.Node.Config.{
  NodeServiceRequest, NodeNetworkInterfaceRequest, NodeHostnameRequest, NodeTimeSyncRequest,
  NodeLoggingRequest, NodeRemoteAccessRequest,
}
use review_protocol.Types.Node.Observation.{NodeObservationRequest, NodeVersionRequest}
use review_protocol.Types.Node.Observation.{NodePowerRequest}
use review_protocol.Types.Node.Package.{NodePackageRequest}
use review_protocol.Types.Node.Enroll.{NodeEnrollRequest}
use review_protocol.Request.Handler.{Handler}
use review_protocol.Request.Serve.{Agent}
use review_protocol.Request.Handle.{AgentCodec, handle}
use review_protocol.Request.Handle.Service as Service
use review_protocol.Request.Handle.Service.{AgentRequest, code_of, Carries, replies_to}
use review_protocol.Request.Handle.Refines.{Framed, nil, cons, handle_refines_the_service}
use review_protocol.Server.Api.Common.{Encoder}
use review_protocol.Server.Api.Calls.{Sendable, reply_of, payload_of, method_of}
use review_protocol.Prelude.{String}

-- bincode on the manager's side and on the agent's: what one encodes the other decodes.
pub record Speaks {Net : Type 0} (encoder : Encoder Net) (codec : AgentCodec Net) : Type 0 where
  pub splits :
      (code : ℕ) (payload : Bytes)
      → code < 4294967296
      → codec.node.split_request (encoder.fixed_u32 code ++ payload) ≡ ok (code, payload)
  pub networks :
      (a : HostNetworkGroup Net) (payload : Bytes)
      → encoder.networks a ≡ ok payload
      → codec.parse_networks payload ≡ ok a
  pub deletion :
      (a : CustomerDataDeletionRequest) (payload : Bytes)
      → encoder.deletion a ≡ ok payload
      → codec.parse_deletion payload ≡ ok a
  pub train_model :
      (a : TrainModelRequest) (payload : Bytes)
      → encoder.train_model a ≡ ok payload
      → codec.parse_train_model payload ≡ ok a
  pub clone_model :
      (a : CloneModelRequest) (payload : Bytes)
      → encoder.clone_model a ≡ ok payload
      → codec.parse_clone_model payload ≡ ok a
  pub run_id :
      (a : ℕ) (payload : Bytes) → encoder.run_id a ≡ ok payload → codec.parse_run_id payload ≡ ok a
  pub detector_id :
      (a : ℤ) (payload : Bytes)
      → encoder.detector_id a ≡ ok payload
      → codec.parse_detector_id payload ≡ ok a
  pub rules :
      (a : List (TrafficFilterRule Net)) (payload : Bytes)
      → encoder.rules a ≡ ok payload
      → codec.parse_rules payload ≡ ok a
  pub policies :
      (a : List SamplingPolicy) (payload : Bytes)
      → encoder.policies a ≡ ok payload
      → codec.parse_policies payload ≡ ok a
  pub texts :
      (a : List String) (payload : Bytes)
      → encoder.texts a ≡ ok payload
      → codec.parse_texts payload ≡ ok a
  pub service :
      (a : NodeServiceRequest) (payload : Bytes)
      → encoder.service a ≡ ok payload
      → codec.node.parse_service payload ≡ ok a
  pub network_interface :
      (a : NodeNetworkInterfaceRequest) (payload : Bytes)
      → encoder.network_interface a ≡ ok payload
      → codec.node.parse_network_interface payload ≡ ok a
  pub hostname :
      (a : NodeHostnameRequest) (payload : Bytes)
      → encoder.hostname a ≡ ok payload
      → codec.node.parse_hostname payload ≡ ok a
  pub time_sync :
      (a : NodeTimeSyncRequest) (payload : Bytes)
      → encoder.time_sync a ≡ ok payload
      → codec.node.parse_time_sync payload ≡ ok a
  pub logging :
      (a : NodeLoggingRequest) (payload : Bytes)
      → encoder.logging a ≡ ok payload
      → codec.node.parse_logging payload ≡ ok a
  pub remote_access :
      (a : NodeRemoteAccessRequest) (payload : Bytes)
      → encoder.remote_access a ≡ ok payload
      → codec.node.parse_remote_access payload ≡ ok a
  pub observation :
      (a : NodeObservationRequest) (payload : Bytes)
      → encoder.observation a ≡ ok payload
      → codec.node.parse_observation payload ≡ ok a
  pub version :
      (a : NodeVersionRequest) (payload : Bytes)
      → encoder.version a ≡ ok payload
      → codec.node.parse_version payload ≡ ok a
  pub enroll :
      (a : NodeEnrollRequest) (payload : Bytes)
      → encoder.enroll a ≡ ok payload
      → codec.node.parse_enroll payload ≡ ok a
  pub power :
      (a : NodePowerRequest) (payload : Bytes)
      → encoder.power a ≡ ok payload
      → codec.node.parse_power payload ≡ ok a
  pub package_request :
      (a : NodePackageRequest) (payload : Bytes)
      → encoder.package_request a ≡ ok payload
      → codec.node.parse_package payload ≡ ok a

to_u32-fits : (c : RequestCode) → to_u32 c < 4294967296
unfolding to_u32
to_u32-fits RequestCode.unknown = omega arith
to_u32-fits _ = omega arith

module _ {Net H : Type 0} (encoder : Encoder Net) (handler : Handler Net H)
    (codec : AgentCodec Net) where
  carried :
      (r : AgentRequest Net) (payload : Bytes)
      → Sendable r
      → Speaks encoder codec
      → payload_of encoder r ≡ ok payload
      → Carries codec r payload
  carried (Service.AgentRequest.allowlist a) payload s speaks e = speaks.networks a payload e
  carried (Service.AgentRequest.blocklist a) payload s speaks e = speaks.networks a payload e
  carried Service.AgentRequest.update_config payload s speaks e = tt
  carried (Service.AgentRequest.delete_customer_data a) payload s speaks e =
      speaks.deletion a payload e
  carried (Service.AgentRequest.train_model a) payload s speaks e = speaks.train_model a payload e
  carried (Service.AgentRequest.clone_model a) payload s speaks e = speaks.clone_model a payload e
  carried (Service.AgentRequest.cancel_run a) payload s speaks e = speaks.run_id a payload e
  carried (Service.AgentRequest.run_detector_once a) payload s speaks e =
      speaks.detector_id a payload e
  carried (Service.AgentRequest.reload_filter_rule a) payload s speaks e = speaks.rules a payload e
  carried (Service.AgentRequest.internal_network_list a) payload s speaks e =
      speaks.networks a payload e
  carried Service.AgentRequest.echo_request payload s speaks e = tt
  carried (Service.AgentRequest.sampling_policy_list a) payload s speaks e =
      speaks.policies a payload e
  carried (Service.AgentRequest.tor_exit_node_list a) payload s speaks e = speaks.texts a payload e
  carried (Service.AgentRequest.trusted_domain_list a) payload s speaks e = speaks.texts a payload e
  carried (Service.AgentRequest.trusted_user_agent_list a) payload s speaks e =
      speaks.texts a payload e
  carried (Service.AgentRequest.node_service a) payload s speaks e = speaks.service a payload e
  carried (Service.AgentRequest.node_network_interface a) payload s speaks e =
      speaks.network_interface a payload e
  carried (Service.AgentRequest.node_hostname a) payload s speaks e = speaks.hostname a payload e
  carried (Service.AgentRequest.node_time_sync a) payload s speaks e = speaks.time_sync a payload e
  carried (Service.AgentRequest.node_logging a) payload s speaks e = speaks.logging a payload e
  carried (Service.AgentRequest.node_remote_access a) payload s speaks e =
      speaks.remote_access a payload e
  carried (Service.AgentRequest.node_observation a) payload s speaks e =
      speaks.observation a payload e
  carried (Service.AgentRequest.node_version a) payload s speaks e = speaks.version a payload e
  carried (Service.AgentRequest.node_enroll a) payload s speaks e = speaks.enroll a payload e
  carried (Service.AgentRequest.node_package a) payload s speaks e =
      (speaks.package_request a payload e, s)
  carried _ payload s speaks e = absurd s

  replies_to-method :
      (r : AgentRequest Net) (s : Sendable r) (h : H)
      → replies_to handler codec r h
        ≡ (reply_of r (method_of handler r s h).0 ∷ [], (method_of handler r s h).1)
  replies_to-method (Service.AgentRequest.allowlist a) s h = refl
  replies_to-method (Service.AgentRequest.blocklist a) s h = refl
  replies_to-method Service.AgentRequest.update_config s h = refl
  replies_to-method (Service.AgentRequest.delete_customer_data a) s h = refl
  replies_to-method (Service.AgentRequest.train_model a) s h = refl
  replies_to-method (Service.AgentRequest.clone_model a) s h = refl
  replies_to-method (Service.AgentRequest.cancel_run a) s h = refl
  replies_to-method (Service.AgentRequest.run_detector_once a) s h = refl
  replies_to-method (Service.AgentRequest.reload_filter_rule a) s h = refl
  replies_to-method (Service.AgentRequest.internal_network_list a) s h = refl
  replies_to-method Service.AgentRequest.echo_request s h = refl
  replies_to-method (Service.AgentRequest.sampling_policy_list a) s h = refl
  replies_to-method (Service.AgentRequest.tor_exit_node_list a) s h = refl
  replies_to-method (Service.AgentRequest.trusted_domain_list a) s h = refl
  replies_to-method (Service.AgentRequest.trusted_user_agent_list a) s h = refl
  replies_to-method (Service.AgentRequest.node_service a) s h = refl
  replies_to-method (Service.AgentRequest.node_network_interface a) s h = refl
  replies_to-method (Service.AgentRequest.node_hostname a) s h = refl
  replies_to-method (Service.AgentRequest.node_time_sync a) s h = refl
  replies_to-method (Service.AgentRequest.node_logging a) s h = refl
  replies_to-method (Service.AgentRequest.node_remote_access a) s h = refl
  replies_to-method (Service.AgentRequest.node_observation a) s h = refl
  replies_to-method (Service.AgentRequest.node_version a) s h = refl
  replies_to-method (Service.AgentRequest.node_enroll a) s h = refl
  replies_to-method (Service.AgentRequest.node_package a) s h = refl
  replies_to-method _ s h = absurd s

  abbrev pub frame_of : AgentRequest Net → Bytes → Bytes
  frame_of r payload = encoder.fixed_u32 (to_u32 (code_of r)) ++ payload

  abbrev pub agent_on : Bytes → H → Agent H
  agent_on frame h = record {
    handler = h;
    send = record { outcomes = []; sent = [] };
    recv = ok frame ∷ [];
  }

  pub framed :
      (r : AgentRequest Net) (payload : Bytes)
      → Speaks encoder codec
      → Carries codec r payload
      → Framed handler codec r (frame_of r payload)
  framed r payload speaks c = record {
    code = to_u32 (code_of r);
    body = payload;
    splits = speaks.splits (to_u32 (code_of r)) payload (to_u32-fits (code_of r));
    names = from_primitive-to_u32 (code_of r);
    carries = c;
  }

  pub agent-serves :
      (r : AgentRequest Net) (s : Sendable r) (payload : Bytes) (h : H)
      → Speaks encoder codec
      → payload_of encoder r ≡ ok payload
      → handle handler codec (agent_on (frame_of r payload) h) ≡ (
        ok tt,
        record {
          handler = (method_of handler r s h).1;
          send = record { outcomes = []; sent = reply_of r (method_of handler r s h).0 ∷ [] };
          recv = [];
        },
      )
  agent-serves r s payload h speaks e =
      let frame = frame_of r payload in
      rw
        (
          handle_refines_the_service handler codec (r ∷ []) (frame ∷ []) (agent_on frame h)
              (cons (framed r payload speaks (carried r payload s speaks e)) nil) refl refl,
          replies_to-method r s h,
        )
        refl
