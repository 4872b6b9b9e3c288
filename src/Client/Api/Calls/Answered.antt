-- ===== src/Client/Api/Calls/Answered.antt =====
-- A call of client/api.rs at the manager of server/handler.rs: its frame, taken apart, is answered as
-- the manager's method answers.
use review_protocol.Prelude.{ℕ, String, ◌≡◌, refl, Result, ok, Option, none, List, [], ◌∷◌, ◌++◌}
use review_protocol.ProtocolError.{IoError}
use review_protocol.Wire.{Bytes}
use review_protocol.Wire.Laws.{send_frame-Reliable}
use review_protocol.Codes.Server.{RequestCode, to_u32}
use review_protocol.Types.Shared.{ℤ, IpAddr}
use review_protocol.Types.Reports.{
  CustomerDataDeletionReport, ReportedRunState, DetectorStatusReport, DataSourceKey, DataSource,
}
use review_protocol.Types.Detection.{
  UserAgent, ColumnStatisticsUpdate, TimeSeriesUpdate, UpdateClusterRequest, OutlierInfo,
  EventMessage,
}
use review_protocol.Server.Handler.{Answer, HostPorts, Handler, ServerCodec, ServerReply, Manager}
use review_protocol.Server.Handler.Dispatch.{serve, answer, as_invalid_args, dispatch_request}
use review_protocol.Client.Api.{AgentEncoder}
use review_protocol.Client.Api.Calls.{AgentCall, server_code_of, frame_of}
use review_protocol.Client.Api.Calls.Sides.{reply_of, served_by}

-- A frame that the manager takes apart into the code and the arguments.
pub record Understood {Stats A : Type 0} (codec : ServerCodec Stats)
    (parse : Bytes → Result A IoError) (code : ℕ) (args : A) (frame : Bytes) : Type 0 where
  pub body : Bytes
  pub splits : codec.split_request frame ≡ ok (code, body)
  pub parses : parse body ≡ ok args

-- oinq and bincode on the agent's side and on the manager's: what one sends the other understands.
pub record Hears {Stats : Type 0} (encoder : AgentEncoder Stats) (codec : ServerCodec Stats)
    : Type 0 where
  pub unit :
      (code : ℕ) (args : Unit {0}) (frame : Bytes)
      → encoder.unit code args ≡ ok frame
      → Understood codec codec.parse_unit code args frame
  pub data_source_key :
      (code : ℕ) (args : DataSourceKey) (frame : Bytes)
      → encoder.data_source_key code args ≡ ok frame
      → Understood codec codec.parse_data_source_key code args frame
  pub string :
      (code : ℕ) (args : String) (frame : Bytes)
      → encoder.string code args ≡ ok frame
      → Understood codec codec.parse_string code args frame
  pub string_pairs :
      (code : ℕ) (args : List (String × String)) (frame : Bytes)
      → encoder.string_pairs code args ≡ ok frame
      → Understood codec codec.parse_string_pairs code args frame
  pub model_at :
      (code : ℕ) (args : ℕ × ℤ) (frame : Bytes)
      → encoder.model_at code args ≡ ok frame
      → Understood codec codec.parse_model_at code args frame
  pub column_statistics :
      (code : ℕ) (args : List (ColumnStatisticsUpdate Stats) × ℕ × ℤ) (frame : Bytes)
      → encoder.column_statistics code args ≡ ok frame
      → Understood codec codec.parse_column_statistics code args frame
  pub data_source :
      (code : ℕ) (args : DataSource) (frame : Bytes)
      → encoder.data_source code args ≡ ok frame
      → Understood codec codec.parse_data_source code args frame
  pub event_labels :
      (code : ℕ) (args : ℕ × ℕ × List EventMessage) (frame : Bytes)
      → encoder.event_labels code args ≡ ok frame
      → Understood codec codec.parse_event_labels code args frame
  pub bytes :
      (code : ℕ) (args : Bytes) (frame : Bytes)
      → encoder.bytes code args ≡ ok frame
      → Understood codec codec.parse_bytes code args frame
  pub time_series :
      (code : ℕ) (args : List TimeSeriesUpdate × ℕ × ℤ) (frame : Bytes)
      → encoder.time_series code args ≡ ok frame
      → Understood codec codec.parse_time_series code args frame
  pub deletion_report :
      (code : ℕ) (args : CustomerDataDeletionReport) (frame : Bytes)
      → encoder.deletion_report code args ≡ ok frame
      → Understood codec codec.parse_deletion_report code args frame
  pub clusters :
      (code : ℕ) (args : List UpdateClusterRequest × ℕ) (frame : Bytes)
      → encoder.clusters code args ≡ ok frame
      → Understood codec codec.parse_clusters code args frame
  pub outliers :
      (code : ℕ) (args : List OutlierInfo × ℕ × ℤ) (frame : Bytes)
      → encoder.outliers code args ≡ ok frame
      → Understood codec codec.parse_outliers code args frame
  pub host_ports :
      (code : ℕ) (args : HostPorts) (frame : Bytes)
      → encoder.host_ports code args ≡ ok frame
      → Understood codec codec.parse_host_ports code args frame
  pub host_user_agents :
      (code : ℕ) (args : List (IpAddr × List UserAgent × List String)) (frame : Bytes)
      → encoder.host_user_agents code args ≡ ok frame
      → Understood codec codec.parse_host_user_agents code args frame
  pub run_model :
      (code : ℕ) (args : ℕ × Bytes) (frame : Bytes)
      → encoder.run_model code args ≡ ok frame
      → Understood codec codec.parse_run_model code args frame
  pub run_report :
      (code : ℕ) (args : ℕ × ReportedRunState × Option String) (frame : Bytes)
      → encoder.run_report code args ≡ ok frame
      → Understood codec codec.parse_run_report code args frame
  pub ids :
      (code : ℕ) (args : List ℕ) (frame : Bytes)
      → encoder.ids code args ≡ ok frame
      → Understood codec codec.parse_ids code args frame
  pub detector_report :
      (code : ℕ) (args : DetectorStatusReport) (frame : Bytes)
      → encoder.detector_report code args ≡ ok frame
      → Understood codec codec.parse_detector_report code args frame

module _ {Net Stats H : Type 0} (encoder : AgentEncoder Stats) (handler : Handler Net Stats H)
    (codec : ServerCodec Stats) (peer_name : String) where
  abbrev pub answered : (c : AgentCall Stats) → Manager Net H → Manager Net H
  answered c w = record w {
    handler = (served_by Net handler peer_name c w.handler).1;
    send = record {
      outcomes = [];
      sent = w.send.sent ++ reply_of Net c (served_by Net handler peer_name c w.handler).0 ∷ [];
    };
  }

  serve-answered :
      {A X : Type 0} (r : Result A IoError) (args : A) (method : A → H → Answer X × H)
      (reply : Answer X → ServerReply Net) (w : Manager Net H)
      → r ≡ ok args
      → w.send.outcomes ≡ []
      → serve r method reply w ≡ (
        ok none,
        record w {
          handler = (method args w.handler).1;
          send = record {
            outcomes = [];
            sent = w.send.sent ++ reply (method args w.handler).0 ∷ [];
          };
        },
      )
  unfolding serve answer
  serve-answered r args method reply w e reliable =
      rw (e, send_frame-Reliable (reply (method args w.handler).0) w.send reliable) refl

  parsed_strictly :
      {A : Type 0} (r : Result A IoError) (args : A) → r ≡ ok args → as_invalid_args r ≡ ok args
  unfolding as_invalid_args
  parsed_strictly r args e = rw e refl

  -- A call's frame, taken apart, is answered as the manager's method answers.
  pub call-answered :
      (c : AgentCall Stats) (frame : Bytes) (w : Manager Net H)
      → Hears encoder codec
      → frame_of encoder c ≡ ok frame
      → w.send.outcomes ≡ []
      → (body : Bytes) × (codec.split_request frame ≡ ok (to_u32 (server_code_of c), body))
        × (dispatch_request handler codec peer_name
              (server_code_of c)
              (to_u32 (server_code_of c))
              body
              w
            ≡ (ok none, answered c w))
  unfolding dispatch_request
  call-answered (AgentCall.report_customer_data_deletion report) frame w hears e reliable =
      let u =
        hears.deletion_report (to_u32 RequestCode.report_customer_data_deletion) report frame e in
      (
        u.body,
        u.splits,
        serve-answered (codec.parse_deletion_report u.body) report _ _ w u.parses reliable,
      )
  call-answered (AgentCall.upload_run_model run_id model) frame w hears e reliable =
      let u = hears.run_model (to_u32 RequestCode.upload_run_model) (run_id, model) frame e in
      (
        u.body,
        u.splits,
        serve-answered (codec.parse_run_model u.body) (run_id, model) _ _ w u.parses reliable,
      )
  call-answered (AgentCall.report_run run_id state reason) frame w hears e reliable =
      let u = hears.run_report (to_u32 RequestCode.report_run) (run_id, state, reason) frame e in
      (
        u.body,
        u.splits,
        serve-answered (codec.parse_run_report u.body) (run_id, state, reason) _ _ w u.parses
            reliable,
      )
  call-answered (AgentCall.report_active_runs run_ids) frame w hears e reliable =
      let u = hears.ids (to_u32 RequestCode.report_active_runs) run_ids frame e in
      (u.body, u.splits, serve-answered (codec.parse_ids u.body) run_ids _ _ w u.parses reliable)
  call-answered (AgentCall.report_detector_status report) frame w hears e reliable =
      let u = hears.detector_report (to_u32 RequestCode.report_detector_status) report frame e in
      (
        u.body,
        u.splits,
        serve-answered (codec.parse_detector_report u.body) report _ _ w u.parses reliable,
      )
  call-answered AgentCall.get_config frame w hears e reliable =
      let u = hears.unit (to_u32 RequestCode.get_config) tt frame e in
      (u.body, u.splits, serve-answered (codec.parse_unit u.body) tt _ _ w u.parses reliable)
  call-answered AgentCall.get_allowlist frame w hears e reliable =
      let u = hears.unit (to_u32 RequestCode.get_allowlist) tt frame e in
      (u.body, u.splits, serve-answered (codec.parse_unit u.body) tt _ _ w u.parses reliable)
  call-answered AgentCall.get_blocklist frame w hears e reliable =
      let u = hears.unit (to_u32 RequestCode.get_blocklist) tt frame e in
      (u.body, u.splits, serve-answered (codec.parse_unit u.body) tt _ _ w u.parses reliable)
  call-answered (AgentCall.get_data_source source_key) frame w hears e reliable =
      let u = hears.data_source_key (to_u32 RequestCode.get_data_source) source_key frame e in
      (
        u.body,
        u.splits,
        serve-answered (codec.parse_data_source_key u.body) source_key _ _ w u.parses reliable,
      )
  call-answered (AgentCall.get_indicator name) frame w hears e reliable =
      let u = hears.string (to_u32 RequestCode.get_indicator) name frame e in
      (u.body, u.splits, serve-answered (codec.parse_string u.body) name _ _ w u.parses reliable)
  call-answered AgentCall.get_internal_network_list frame w hears e reliable =
      let u = hears.unit (to_u32 RequestCode.get_internal_network_list) tt frame e in
      (u.body, u.splits, serve-answered (codec.parse_unit u.body) tt _ _ w u.parses reliable)
  call-answered (AgentCall.get_labeldb_patterns labeldbs) frame w hears e reliable =
      let u = hears.string_pairs (to_u32 RequestCode.get_label_db_patterns) labeldbs frame e in
      (
        u.body,
        u.splits,
        serve-answered (codec.parse_string_pairs u.body) labeldbs _ _ w u.parses reliable,
      )
  call-answered AgentCall.get_tor_exit_node_list frame w hears e reliable =
      let u = hears.unit (to_u32 RequestCode.get_tor_exit_node_list) tt frame e in
      (u.body, u.splits, serve-answered (codec.parse_unit u.body) tt _ _ w u.parses reliable)
  call-answered AgentCall.get_trusted_domain_list frame w hears e reliable =
      let u = hears.unit (to_u32 RequestCode.get_trusted_domain_list) tt frame e in
      (u.body, u.splits, serve-answered (codec.parse_unit u.body) tt _ _ w u.parses reliable)
  call-answered AgentCall.get_trusted_user_agent_list frame w hears e reliable =
      let u = hears.unit (to_u32 RequestCode.get_trusted_user_agent_list) tt frame e in
      (u.body, u.splits, serve-answered (codec.parse_unit u.body) tt _ _ w u.parses reliable)
  call-answered AgentCall.get_sampling_policy_list frame w hears e reliable =
      let u = hears.unit (to_u32 RequestCode.get_sampling_policy_list) tt frame e in
      (u.body, u.splits, serve-answered (codec.parse_unit u.body) tt _ _ w u.parses reliable)
  call-answered (AgentCall.get_pretrained_model name) frame w hears e reliable =
      let u = hears.string (to_u32 RequestCode.get_pretrained_model) name frame e in
      (u.body, u.splits, serve-answered (codec.parse_string u.body) name _ _ w u.parses reliable)
  call-answered AgentCall.renew_certificate frame w hears e reliable =
      let u = hears.unit (to_u32 RequestCode.renew_certificate) tt frame e in
      (
        u.body,
        u.splits,
        serve-answered (ok tt) tt (λ u. handler.renew_certificate peer_name) ServerReply.certificate
            w refl reliable,
      )
  call-answered (AgentCall.get_model name) frame w hears e reliable =
      let u = hears.string (to_u32 RequestCode.get_model) name frame e in
      (
        u.body,
        u.splits,
        serve-answered (as_invalid_args (codec.parse_string u.body)) name _ _ w
            (parsed_strictly (codec.parse_string u.body) name u.parses) reliable,
      )
  call-answered AgentCall.get_model_names frame w hears e reliable =
      let u = hears.unit (to_u32 RequestCode.get_model_names) tt frame e in
      (u.body, u.splits, serve-answered (codec.parse_unit u.body) tt _ _ w u.parses reliable)
  call-answered (AgentCall.insert_column_statistics statistics model_id batch_ts) frame w hears e
        reliable =
      let u =
        hears.column_statistics (to_u32 RequestCode.insert_column_statistics)
          (statistics, model_id, batch_ts) frame e in
      (
        u.body,
        u.splits,
        serve-answered (codec.parse_column_statistics u.body) (statistics, model_id, batch_ts) _ _ w
            u.parses reliable,
      )
  call-answered (AgentCall.insert_model model) frame w hears e reliable =
      let u = hears.bytes (to_u32 RequestCode.insert_model) model frame e in
      (u.body, u.splits, serve-answered (codec.parse_bytes u.body) model _ _ w u.parses reliable)
  call-answered (AgentCall.insert_time_series time_series model_id batch_ts) frame w hears e
        reliable =
      let u =
        hears.time_series (to_u32 RequestCode.insert_time_series) (time_series, model_id, batch_ts)
          frame e in
      (
        u.body,
        u.splits,
        serve-answered (codec.parse_time_series u.body) (time_series, model_id, batch_ts) _ _ w
            u.parses reliable,
      )
  call-answered (AgentCall.remove_model name) frame w hears e reliable =
      let u = hears.string (to_u32 RequestCode.remove_model) name frame e in
      (u.body, u.splits, serve-answered (codec.parse_string u.body) name _ _ w u.parses reliable)
  call-answered (AgentCall.update_clusters input model_id) frame w hears e reliable =
      let u = hears.clusters (to_u32 RequestCode.update_clusters) (input, model_id) frame e in
      (
        u.body,
        u.splits,
        serve-answered (codec.parse_clusters u.body) (input, model_id) _ _ w u.parses reliable,
      )
  call-answered (AgentCall.update_model model) frame w hears e reliable =
      let u = hears.bytes (to_u32 RequestCode.update_model) model frame e in
      (u.body, u.splits, serve-answered (codec.parse_bytes u.body) model _ _ w u.parses reliable)
  call-answered (AgentCall.update_outliers outliers model_id timestamp) frame w hears e reliable =
      let u =
        hears.outliers (to_u32 RequestCode.update_outliers) (outliers, model_id, timestamp) frame
          e in
      (
        u.body,
        u.splits,
        serve-answered (codec.parse_outliers u.body) (outliers, model_id, timestamp) _ _ w u.parses
            reliable,
      )
  call-answered (AgentCall.insert_event_labels model_id round labels) frame w hears e reliable =
      let u =
        hears.event_labels (to_u32 RequestCode.insert_event_labels) (model_id, round, labels) frame
          e in
      (
        u.body,
        u.splits,
        serve-answered (codec.parse_event_labels u.body) (model_id, round, labels) _ _ w u.parses
            reliable,
      )
  call-answered (AgentCall.insert_data_source source) frame w hears e reliable =
      let u = hears.data_source (to_u32 RequestCode.insert_data_source) source frame e in
      (
        u.body,
        u.splits,
        serve-answered (codec.parse_data_source u.body) source _ _ w u.parses reliable,
      )
  call-answered (AgentCall.get_outliers model_id timestamp) frame w hears e reliable =
      let u = hears.model_at (to_u32 RequestCode.get_outliers) (model_id, timestamp) frame e in
      (
        u.body,
        u.splits,
        serve-answered (as_invalid_args (codec.parse_model_at u.body)) (model_id, timestamp) _ _ w
            (parsed_strictly (codec.parse_model_at u.body) (model_id, timestamp) u.parses) reliable,
      )
  call-answered (AgentCall.update_host_ports hosts) frame w hears e reliable =
      let u = hears.host_ports (to_u32 RequestCode.update_host_opened_ports) hosts frame e in
      (
        u.body,
        u.splits,
        serve-answered (codec.parse_host_ports u.body) hosts _ _ w u.parses reliable,
      )
  call-answered (AgentCall.update_host_user_agents hosts) frame w hears e reliable =
      let u = hears.host_user_agents (to_u32 RequestCode.update_host_os_agents) hosts frame e in
      (
        u.body,
        u.splits,
        serve-answered (codec.parse_host_user_agents u.body) hosts _ _ w u.parses reliable,
      )
