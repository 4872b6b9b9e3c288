-- ===== src/Examples/Calls.antt =====
-- Remote calls: a run is cancelled on an agent, and a configuration is read from a manager, with
-- codecs of one number for each argument.
use review_protocol.Prelude.{ℕ, String, false, ◌≡◌, refl, Result, ok, err, none, some, [], ◌∷◌}
use review_protocol.ProtocolError.{IoError}
use review_protocol.Wire.{Bytes}
use review_protocol.Auth.{peer, adapter, from_peer_context}
use review_protocol.Types.Node.Observation.{NodeVersionRequest}
use review_protocol.Request.Serve.{Agent}
use review_protocol.Request.Handle.{handle}
use review_protocol.Request.Handle.Service as Service
use review_protocol.Request.Handle.Service.{AgentRequest}
use review_protocol.Server.Api.Errors.{ApiError, text}
use review_protocol.Server.Api.Requests.{Stream}
use review_protocol.Server.Api.Common.{Encoder, send_cancel_run}
use review_protocol.Server.Api.NodeFamilies.{node_version_authorized, node_version_with_context}
use review_protocol.Server.Api.NodeFamilies.Laws.{authorizing_forms_agree}
use review_protocol.Server.Api.Calls.Served.{Speaks}
use review_protocol.Codes.Client.{to_u32}
use review_protocol.Codes.Server as ServerCodes
use review_protocol.Server.Api.Calls.Sides.{received_of}
use review_protocol.Server.Api.Calls.Local.{remote_call_is_a_local_call}
use review_protocol.Server.Api.Calls.Power.{power_response}
use review_protocol.Server.Api.Calls.Notify.{notification_is_a_local_call}
use review_protocol.Server.Api.Requests.{sent}
use review_protocol.Server.Api.Common.{notify_config_update}
use review_protocol.Types.Node.Observation.{NodePowerRequest, NodePowerResponse}
use review_protocol.Request.Handler.{default_handler}
use review_protocol.Examples.Samples.{bad_data}
use review_protocol.Examples.Handles.{agent_codec, counting}
use review_protocol.Server.Handler.Authorized as Authorized
use review_protocol.Client.Api.{AgentEncoder, AgentStream, get_config}
use review_protocol.Client.Api.Calls.{AgentCall}
use review_protocol.Client.Api.Calls.Sides as ClientSides
use review_protocol.Client.Api.Calls.Answered.{Hears, Understood}
use review_protocol.Client.Api.Calls.Local.{agents_call_is_served}
use review_protocol.Examples.Managers.{nothing, handler, codec, manager}

abbrev unencodable : {A : Type 0} → A → Result Bytes ApiError
unencodable a = err (text "unencodable")

-- The agent's codec reads every power request as a reboot, which is the one that is encoded.
abbrev reboot_only : NodePowerRequest → Result Bytes ApiError
reboot_only NodePowerRequest.reboot = ok []
reboot_only _ = err (text "unencodable")

-- It encodes runs and reboots.
abbrev encoder : Encoder ℕ
encoder = record {
  fixed_u32 = λ n. n ∷ [];
  unit = ok [];
  networks = unencodable;
  deletion = unencodable;
  train_model = unencodable;
  clone_model = unencodable;
  run_id = λ n. ok (n ∷ []);
  detector_id = unencodable;
  rules = unencodable;
  policies = unencodable;
  texts = unencodable;
  service = unencodable;
  network_interface = unencodable;
  hostname = unencodable;
  time_sync = unencodable;
  logging = unencodable;
  remote_access = unencodable;
  observation = unencodable;
  version = unencodable;
  enroll = unencodable;
  power = reboot_only;
  package_request = unencodable;
}

read_id-run_id :
    (a : ℕ) (payload : Bytes)
    → encoder.run_id a ≡ ok payload
    → agent_codec.parse_run_id payload ≡ ok a
read_id-run_id a [] e = cc
read_id-run_id a (n ∷ rest) e = cc

reboot_only-power :
    (a : NodePowerRequest) (payload : Bytes)
    → encoder.power a ≡ ok payload
    → agent_codec.node.parse_power payload ≡ ok a
reboot_only-power NodePowerRequest.reboot payload e = refl
reboot_only-power _ payload e = cc

speaks : Speaks encoder agent_codec
speaks = record {
  splits = λ code payload fits. refl;
  networks = λ a payload e. cc;
  deletion = λ a payload e. cc;
  train_model = λ a payload e. cc;
  clone_model = λ a payload e. cc;
  run_id = read_id-run_id;
  detector_id = λ a payload e. cc;
  rules = λ a payload e. cc;
  policies = λ a payload e. cc;
  texts = λ a payload e. cc;
  service = λ a payload e. cc;
  network_interface = λ a payload e. cc;
  hostname = λ a payload e. cc;
  time_sync = λ a payload e. cc;
  logging = λ a payload e. cc;
  remote_access = λ a payload e. cc;
  observation = λ a payload e. cc;
  version = λ a payload e. cc;
  enroll = λ a payload e. cc;
  power = reboot_only-power;
  package_request = λ a payload e. cc;
}

abbrev agent : Agent ℕ
agent = record {
  handler = 0;
  send = record { outcomes = []; sent = [] };
  recv = ok (25 ∷ 7 ∷ []) ∷ [];
}

abbrev cancel : AgentRequest ℕ
cancel = Service.AgentRequest.cancel_run 7

-- The stream on which the agent's reply comes.
abbrev opened : Stream (Unit {0})
opened = record {
  send = record { outcomes = []; sent = [] };
  finished = false;
  response = received_of cancel (handle counting agent_codec agent).1.send.sent;
}

remote_call_is_a_local_call_example :
    ((handle counting agent_codec agent).0 ≡ ok tt)
    × ((handle counting agent_codec agent).1.handler ≡ 1)
    × ((send_cancel_run encoder 7 (ok opened)).0 ≡ ok tt)
    × ((send_cancel_run encoder 7 (ok opened)).1
        ≡ some (record opened { send = record { outcomes = []; sent = (25 ∷ 7 ∷ []) ∷ [] } }))
unfolding to_u32 counting
remote_call_is_a_local_call_example =
    remote_call_is_a_local_call encoder counting agent_codec cancel tt (7 ∷ []) 0 speaks refl

abbrev agent_with : Bytes → Agent ℕ
agent_with frame = record {
  handler = 0;
  send = record { outcomes = []; sent = [] };
  recv = ok frame ∷ [];
}

-- The agent does not answer, and the manager's receive would fail.
abbrev unanswered : Stream NodePowerResponse
unanswered = record {
  send = record { outcomes = []; sent = [] };
  finished = false;
  response = power_response (handle counting agent_codec (agent_with (106 ∷ []))).1.send.sent;
}

abbrev update : AgentRequest ℕ
update = Service.AgentRequest.update_config

abbrev notified : Stream (Unit {0})
notified = record {
  send = record { outcomes = []; sent = [] };
  finished = false;
  response = received_of update (handle counting agent_codec (agent_with (12 ∷ []))).1.send.sent;
}

notification_is_a_local_call_example :
    ((handle counting agent_codec (agent_with (12 ∷ []))).0 ≡ ok tt)
    × ((handle counting agent_codec (agent_with (12 ∷ []))).1.handler ≡ 0)
    × ((notify_config_update encoder (ok notified)).0 ≡ err (text "not supported"))
    × ((notify_config_update encoder (ok notified)).1
        ≡ some (record notified { send = record { outcomes = []; sent = (12 ∷ []) ∷ [] } }))
unfolding to_u32 counting default_handler
notification_is_a_local_call_example =
    notification_is_a_local_call encoder counting agent_codec 0 speaks

authorizing_forms_agree_example :
    node_version_with_context encoder
      (NodeVersionRequest.get)
      (from_peer_context (peer "a"))
      (adapter nothing)
      (err bad_data)
    ≡ node_version_authorized encoder (NodeVersionRequest.get) (peer "a") nothing (err bad_data)
authorizing_forms_agree_example =
    (authorizing_forms_agree encoder (peer "a") nothing).8 (NodeVersionRequest.get) (err bad_data)

abbrev unsent : {A : Type 0} → ℕ → A → Result Bytes IoError
unsent code a = err bad_data

-- It encodes requests without arguments.
abbrev agent_encoder : AgentEncoder ℕ
agent_encoder = record {
  unit = λ code u. ok (code ∷ []);
  data_source_key = unsent;
  string = unsent;
  string_pairs = unsent;
  model_at = unsent;
  column_statistics = unsent;
  data_source = unsent;
  event_labels = unsent;
  bytes = unsent;
  time_series = unsent;
  deletion_report = unsent;
  clusters = unsent;
  outliers = unsent;
  host_ports = unsent;
  host_user_agents = unsent;
  run_model = unsent;
  run_report = unsent;
  ids = unsent;
  detector_report = unsent;
}

heard-unit :
    (code : ℕ) (frame : Bytes)
    → agent_encoder.unit code tt ≡ ok frame
    → Understood codec codec.parse_unit code tt frame
heard-unit code [] e = cc
heard-unit code (n ∷ rest) e = record { body = rest; splits = cc; parses = refl }

hears : Hears agent_encoder codec
hears = record {
  unit = λ code args frame e. heard-unit code frame e;
  data_source_key = λ code args frame e. cc;
  string = λ code args frame e. cc;
  string_pairs = λ code args frame e. cc;
  model_at = λ code args frame e. cc;
  column_statistics = λ code args frame e. cc;
  data_source = λ code args frame e. cc;
  event_labels = λ code args frame e. cc;
  bytes = λ code args frame e. cc;
  time_series = λ code args frame e. cc;
  deletion_report = λ code args frame e. cc;
  clusters = λ code args frame e. cc;
  outliers = λ code args frame e. cc;
  host_ports = λ code args frame e. cc;
  host_user_agents = λ code args frame e. cc;
  run_model = λ code args frame e. cc;
  run_report = λ code args frame e. cc;
  ids = λ code args frame e. cc;
  detector_report = λ code args frame e. cc;
}

abbrev read_config : AgentCall ℕ
read_config = AgentCall.get_config

abbrev asked : AgentStream String
asked = record {
  send = record { outcomes = []; sent = [] };
  response =
      ClientSides.received_of ℕ read_config
        (Authorized.handle handler codec "a" manager).1.send.sent;
}

agents_call_is_served_example :
    ((Authorized.handle handler codec "a" manager).0 ≡ ok none)
    × ((Authorized.handle handler codec "a" manager).1.handler ≡ 1)
    × ((get_config agent_encoder (ok asked)).0 ≡ ok "config")
    × ((get_config agent_encoder (ok asked)).1
        ≡ some (record asked { send = record { outcomes = []; sent = (36 ∷ []) ∷ [] } }))
unfolding ServerCodes.to_u32 handler
agents_call_is_served_example =
    agents_call_is_served agent_encoder handler codec "a" read_config (36 ∷ []) 0 hears refl
