-- ===== src/Client/Api/Calls.antt =====
-- The requests of client/api.rs and what serves them in server/handler.rs: the method on each side,
-- and the reply between them.
pub mod Sides
pub mod Answered
pub mod Received
pub mod Served
pub mod Local
use review_protocol.Prelude.{ℕ, String, Result, ok, err, Option, List, [], ◌∷◌, map_err, and_then}
use review_protocol.ProtocolError.{IoError, io_error, invalid_data, simple}
use review_protocol.Wire.{Bytes}
use review_protocol.Codes.Server.{RequestCode, to_u32}
use review_protocol.Types.Shared.{ℤ, IpAddr}
use review_protocol.Types.Reports.{
  CustomerDataDeletionReport, ReportedRunState, DetectorStatusReport, DataSourceKey, DataSource,
}
use review_protocol.Types.Detection.{
  HostNetworkGroup, SamplingPolicy, LabelDb, UserAgent, ColumnStatisticsUpdate, TimeSeriesUpdate,
  UpdateClusterRequest, OutlierInfo, EventMessage,
}
use review_protocol.Server.Handler.{Answer, HostPorts, Handler, ServerReply}
use review_protocol.Client.Api.{AgentEncoder, Asked, AgentStream, io_other, found}
use review_protocol.Client.Api

-- A call of a method of the agent's connection.
pub data AgentCall (Stats : Type 0) : Type 0 where
  report_customer_data_deletion : CustomerDataDeletionReport → AgentCall Stats
  upload_run_model : ℕ → Bytes → AgentCall Stats
  report_run : ℕ → ReportedRunState → Option String → AgentCall Stats
  report_active_runs : List ℕ → AgentCall Stats
  report_detector_status : DetectorStatusReport → AgentCall Stats
  get_config : AgentCall Stats
  get_allowlist : AgentCall Stats
  get_blocklist : AgentCall Stats
  get_data_source : DataSourceKey → AgentCall Stats
  get_indicator : String → AgentCall Stats
  get_internal_network_list : AgentCall Stats
  get_labeldb_patterns : List (String × String) → AgentCall Stats
  get_tor_exit_node_list : AgentCall Stats
  get_trusted_domain_list : AgentCall Stats
  get_trusted_user_agent_list : AgentCall Stats
  get_sampling_policy_list : AgentCall Stats
  get_pretrained_model : String → AgentCall Stats
  renew_certificate : AgentCall Stats
  get_model : String → AgentCall Stats
  get_model_names : AgentCall Stats
  insert_column_statistics : List (ColumnStatisticsUpdate Stats) → ℕ → ℤ → AgentCall Stats
  insert_model : Bytes → AgentCall Stats
  insert_time_series : List TimeSeriesUpdate → ℕ → ℤ → AgentCall Stats
  remove_model : String → AgentCall Stats
  update_clusters : List UpdateClusterRequest → ℕ → AgentCall Stats
  update_model : Bytes → AgentCall Stats
  update_outliers : List OutlierInfo → ℕ → ℤ → AgentCall Stats
  insert_event_labels : ℕ → ℕ → List EventMessage → AgentCall Stats
  insert_data_source : DataSource → AgentCall Stats
  get_outliers : ℕ → ℤ → AgentCall Stats
  update_host_ports : HostPorts → AgentCall Stats
  update_host_user_agents : List (IpAddr × List UserAgent × List String) → AgentCall Stats

module _ {Stats : Type 0} where
  abbrev pub server_code_of : AgentCall Stats → RequestCode
  server_code_of (AgentCall.report_customer_data_deletion report) =
      RequestCode.report_customer_data_deletion
  server_code_of (AgentCall.upload_run_model run_id model) = RequestCode.upload_run_model
  server_code_of (AgentCall.report_run run_id state reason) = RequestCode.report_run
  server_code_of (AgentCall.report_active_runs run_ids) = RequestCode.report_active_runs
  server_code_of (AgentCall.report_detector_status report) = RequestCode.report_detector_status
  server_code_of AgentCall.get_config = RequestCode.get_config
  server_code_of AgentCall.get_allowlist = RequestCode.get_allowlist
  server_code_of AgentCall.get_blocklist = RequestCode.get_blocklist
  server_code_of (AgentCall.get_data_source source_key) = RequestCode.get_data_source
  server_code_of (AgentCall.get_indicator name) = RequestCode.get_indicator
  server_code_of AgentCall.get_internal_network_list = RequestCode.get_internal_network_list
  server_code_of (AgentCall.get_labeldb_patterns labeldbs) = RequestCode.get_label_db_patterns
  server_code_of AgentCall.get_tor_exit_node_list = RequestCode.get_tor_exit_node_list
  server_code_of AgentCall.get_trusted_domain_list = RequestCode.get_trusted_domain_list
  server_code_of AgentCall.get_trusted_user_agent_list = RequestCode.get_trusted_user_agent_list
  server_code_of AgentCall.get_sampling_policy_list = RequestCode.get_sampling_policy_list
  server_code_of (AgentCall.get_pretrained_model name) = RequestCode.get_pretrained_model
  server_code_of AgentCall.renew_certificate = RequestCode.renew_certificate
  server_code_of (AgentCall.get_model name) = RequestCode.get_model
  server_code_of AgentCall.get_model_names = RequestCode.get_model_names
  server_code_of (AgentCall.insert_column_statistics statistics model_id batch_ts) =
      RequestCode.insert_column_statistics
  server_code_of (AgentCall.insert_model model) = RequestCode.insert_model
  server_code_of (AgentCall.insert_time_series time_series model_id batch_ts) =
      RequestCode.insert_time_series
  server_code_of (AgentCall.remove_model name) = RequestCode.remove_model
  server_code_of (AgentCall.update_clusters input model_id) = RequestCode.update_clusters
  server_code_of (AgentCall.update_model model) = RequestCode.update_model
  server_code_of (AgentCall.update_outliers outliers model_id timestamp) =
      RequestCode.update_outliers
  server_code_of (AgentCall.insert_event_labels model_id round labels) =
      RequestCode.insert_event_labels
  server_code_of (AgentCall.insert_data_source source) = RequestCode.insert_data_source
  server_code_of (AgentCall.get_outliers model_id timestamp) = RequestCode.get_outliers
  server_code_of (AgentCall.update_host_ports hosts) = RequestCode.update_host_opened_ports
  server_code_of (AgentCall.update_host_user_agents hosts) = RequestCode.update_host_os_agents

  -- The frame of the call.
  abbrev pub frame_of : AgentEncoder Stats → AgentCall Stats → Result Bytes IoError
  frame_of encoder (AgentCall.report_customer_data_deletion report) =
      encoder.deletion_report (to_u32 RequestCode.report_customer_data_deletion) report
  frame_of encoder (AgentCall.upload_run_model run_id model) =
      encoder.run_model (to_u32 RequestCode.upload_run_model) (run_id, model)
  frame_of encoder (AgentCall.report_run run_id state reason) =
      encoder.run_report (to_u32 RequestCode.report_run) (run_id, state, reason)
  frame_of encoder (AgentCall.report_active_runs run_ids) =
      encoder.ids (to_u32 RequestCode.report_active_runs) run_ids
  frame_of encoder (AgentCall.report_detector_status report) =
      encoder.detector_report (to_u32 RequestCode.report_detector_status) report
  frame_of encoder AgentCall.get_config = encoder.unit (to_u32 RequestCode.get_config) tt
  frame_of encoder AgentCall.get_allowlist = encoder.unit (to_u32 RequestCode.get_allowlist) tt
  frame_of encoder AgentCall.get_blocklist = encoder.unit (to_u32 RequestCode.get_blocklist) tt
  frame_of encoder (AgentCall.get_data_source source_key) =
      encoder.data_source_key (to_u32 RequestCode.get_data_source) source_key
  frame_of encoder (AgentCall.get_indicator name) =
      encoder.string (to_u32 RequestCode.get_indicator) name
  frame_of encoder AgentCall.get_internal_network_list =
      encoder.unit (to_u32 RequestCode.get_internal_network_list) tt
  frame_of encoder (AgentCall.get_labeldb_patterns labeldbs) =
      encoder.string_pairs (to_u32 RequestCode.get_label_db_patterns) labeldbs
  frame_of encoder AgentCall.get_tor_exit_node_list =
      encoder.unit (to_u32 RequestCode.get_tor_exit_node_list) tt
  frame_of encoder AgentCall.get_trusted_domain_list =
      encoder.unit (to_u32 RequestCode.get_trusted_domain_list) tt
  frame_of encoder AgentCall.get_trusted_user_agent_list =
      encoder.unit (to_u32 RequestCode.get_trusted_user_agent_list) tt
  frame_of encoder AgentCall.get_sampling_policy_list =
      encoder.unit (to_u32 RequestCode.get_sampling_policy_list) tt
  frame_of encoder (AgentCall.get_pretrained_model name) =
      encoder.string (to_u32 RequestCode.get_pretrained_model) name
  frame_of encoder AgentCall.renew_certificate =
      encoder.unit (to_u32 RequestCode.renew_certificate) tt
  frame_of encoder (AgentCall.get_model name) = encoder.string (to_u32 RequestCode.get_model) name
  frame_of encoder AgentCall.get_model_names = encoder.unit (to_u32 RequestCode.get_model_names) tt
  frame_of encoder (AgentCall.insert_column_statistics statistics model_id batch_ts) =
      encoder.column_statistics (to_u32 RequestCode.insert_column_statistics)
        (statistics, model_id, batch_ts)
  frame_of encoder (AgentCall.insert_model model) =
      encoder.bytes (to_u32 RequestCode.insert_model) model
  frame_of encoder (AgentCall.insert_time_series time_series model_id batch_ts) =
      encoder.time_series (to_u32 RequestCode.insert_time_series) (time_series, model_id, batch_ts)
  frame_of encoder (AgentCall.remove_model name) =
      encoder.string (to_u32 RequestCode.remove_model) name
  frame_of encoder (AgentCall.update_clusters input model_id) =
      encoder.clusters (to_u32 RequestCode.update_clusters) (input, model_id)
  frame_of encoder (AgentCall.update_model model) =
      encoder.bytes (to_u32 RequestCode.update_model) model
  frame_of encoder (AgentCall.update_outliers outliers model_id timestamp) =
      encoder.outliers (to_u32 RequestCode.update_outliers) (outliers, model_id, timestamp)
  frame_of encoder (AgentCall.insert_event_labels model_id round labels) =
      encoder.event_labels (to_u32 RequestCode.insert_event_labels) (model_id, round, labels)
  frame_of encoder (AgentCall.insert_data_source source) =
      encoder.data_source (to_u32 RequestCode.insert_data_source) source
  frame_of encoder (AgentCall.get_outliers model_id timestamp) =
      encoder.model_at (to_u32 RequestCode.get_outliers) (model_id, timestamp)
  frame_of encoder (AgentCall.update_host_ports hosts) =
      encoder.host_ports (to_u32 RequestCode.update_host_opened_ports) hosts
  frame_of encoder (AgentCall.update_host_user_agents hosts) =
      encoder.host_user_agents (to_u32 RequestCode.update_host_os_agents) hosts

module _ (Net : Type 0) {Stats : Type 0} where
  -- What the manager's method answers, but for errors.
  abbrev pub Reply : AgentCall Stats → Type 0
  Reply (AgentCall.report_customer_data_deletion report) = Unit {0}
  Reply (AgentCall.upload_run_model run_id model) = Unit {0}
  Reply (AgentCall.report_run run_id state reason) = Unit {0}
  Reply (AgentCall.report_active_runs run_ids) = Unit {0}
  Reply (AgentCall.report_detector_status report) = Unit {0}
  Reply AgentCall.get_config = String
  Reply AgentCall.get_allowlist = HostNetworkGroup Net
  Reply AgentCall.get_blocklist = HostNetworkGroup Net
  Reply (AgentCall.get_data_source source_key) = Option DataSource
  Reply (AgentCall.get_indicator name) = List (List String)
  Reply AgentCall.get_internal_network_list = HostNetworkGroup Net
  Reply (AgentCall.get_labeldb_patterns labeldbs) = List (String × Option LabelDb)
  Reply AgentCall.get_tor_exit_node_list = List String
  Reply AgentCall.get_trusted_domain_list = List String
  Reply AgentCall.get_trusted_user_agent_list = List String
  Reply AgentCall.get_sampling_policy_list = List SamplingPolicy
  Reply (AgentCall.get_pretrained_model name) = Bytes
  Reply AgentCall.renew_certificate = String × String
  Reply (AgentCall.get_model name) = Bytes
  Reply AgentCall.get_model_names = List String
  Reply (AgentCall.insert_column_statistics statistics model_id batch_ts) = Unit {0}
  Reply (AgentCall.insert_model model) = ℕ
  Reply (AgentCall.insert_time_series time_series model_id batch_ts) = Unit {0}
  Reply (AgentCall.remove_model name) = Unit {0}
  Reply (AgentCall.update_clusters input model_id) = Unit {0}
  Reply (AgentCall.update_model model) = ℕ
  Reply (AgentCall.update_outliers outliers model_id timestamp) = Unit {0}
  Reply (AgentCall.insert_event_labels model_id round labels) = Unit {0}
  Reply (AgentCall.insert_data_source source) = ℕ
  Reply (AgentCall.get_outliers model_id timestamp) = List (String × List ℤ)
  Reply (AgentCall.update_host_ports hosts) = Unit {0}
  Reply (AgentCall.update_host_user_agents hosts) = Unit {0}

  -- What the agent's method returns, but for errors.
  abbrev pub Value : AgentCall Stats → Type 0
  Value (AgentCall.get_data_source source_key) = DataSource
  Value c = Reply c

  -- The agent's result for an answer: an error text becomes an `io::Error`, and a data source that
  -- the manager does not have is an error of its own.
  abbrev pub value_of : (c : AgentCall Stats) → Answer (Reply c) → Result (Value c) IoError
  value_of (AgentCall.report_customer_data_deletion report) x = map_err io_other x
  value_of (AgentCall.upload_run_model run_id model) x = map_err io_other x
  value_of (AgentCall.report_run run_id state reason) x = map_err io_other x
  value_of (AgentCall.report_active_runs run_ids) x = map_err io_other x
  value_of (AgentCall.report_detector_status report) x = map_err io_other x
  value_of AgentCall.get_config x = map_err io_other x
  value_of AgentCall.get_allowlist x = map_err io_other x
  value_of AgentCall.get_blocklist x = map_err io_other x
  value_of (AgentCall.get_data_source source_key) x = and_then (map_err io_other x) found
  value_of (AgentCall.get_indicator name) x = map_err io_other x
  value_of AgentCall.get_internal_network_list x = map_err io_other x
  value_of (AgentCall.get_labeldb_patterns labeldbs) x = map_err io_other x
  value_of AgentCall.get_tor_exit_node_list x = map_err io_other x
  value_of AgentCall.get_trusted_domain_list x = map_err io_other x
  value_of AgentCall.get_trusted_user_agent_list x = map_err io_other x
  value_of AgentCall.get_sampling_policy_list x = map_err io_other x
  value_of (AgentCall.get_pretrained_model name) x = map_err io_other x
  value_of AgentCall.renew_certificate x = map_err io_other x
  value_of (AgentCall.get_model name) x = map_err io_other x
  value_of AgentCall.get_model_names x = map_err io_other x
  value_of (AgentCall.insert_column_statistics statistics model_id batch_ts) x = map_err io_other x
  value_of (AgentCall.insert_model model) x = map_err io_other x
  value_of (AgentCall.insert_time_series time_series model_id batch_ts) x = map_err io_other x
  value_of (AgentCall.remove_model name) x = map_err io_other x
  value_of (AgentCall.update_clusters input model_id) x = map_err io_other x
  value_of (AgentCall.update_model model) x = map_err io_other x
  value_of (AgentCall.update_outliers outliers model_id timestamp) x = map_err io_other x
  value_of (AgentCall.insert_event_labels model_id round labels) x = map_err io_other x
  value_of (AgentCall.insert_data_source source) x = map_err io_other x
  value_of (AgentCall.get_outliers model_id timestamp) x = map_err io_other x
  value_of (AgentCall.update_host_ports hosts) x = map_err io_other x
  value_of (AgentCall.update_host_user_agents hosts) x = map_err io_other x
