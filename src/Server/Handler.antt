-- ===== src/Server/Handler.antt =====
-- `Handler` of server/handler.rs: what a manager's application implements, what the manager answers,
-- and the decoding of requests, which oinq and bincode provide. `Net` and `Stats` stand for the
-- foreign types that some requests and answers carry.
pub mod Dispatch
pub mod Authorized
use review_protocol.Prelude.{ℕ, String, Result, ok, err, Option, List}
use review_protocol.ProtocolError.{IoError}
use review_protocol.Wire.{Bytes, RecvStream, SendStream}
use review_protocol.Types.Shared.{ℤ, IpAddr}
use review_protocol.Types.Reports.{
  CustomerDataDeletionReport, ReportedRunState, DetectorStatusReport, DataSourceKey, DataSource,
}
use review_protocol.Types.Detection.{
  HostNetworkGroup, SamplingPolicy, LabelDb, UserAgent, ColumnStatisticsUpdate, TimeSeriesUpdate,
  UpdateClusterRequest, OutlierInfo, EventMessage,
}

-- `HashMap<IpAddr, HashMap<(u16, u8), u32>>`
abbrev pub HostPorts : Type 0
HostPorts = List (IpAddr × List ((ℕ × ℕ) × ℕ))

abbrev pub Answer : Type 0 → Type 0
Answer A = Result A String

-- `trait Handler`: the methods take the handler's state, which the source holds behind `&self`, and
-- return the new one.
pub record Handler (Net Stats H : Type 0) : Type 0 where
  pub report_customer_data_deletion : CustomerDataDeletionReport → H → Answer (Unit {0}) × H
  pub get_allowlist : String → H → Answer (HostNetworkGroup Net) × H
  pub get_blocklist : String → H → Answer (HostNetworkGroup Net) × H
  pub get_config : String → H → Answer String × H
  pub get_data_source : DataSourceKey → H → Answer (Option DataSource) × H
  pub get_indicator : String → H → Answer (List (List String)) × H
  pub get_internal_network_list : String → H → Answer (HostNetworkGroup Net) × H
  pub get_model : String → H → Answer Bytes × H
  pub get_model_names : H → Answer (List String) × H
  pub get_outliers : ℕ → ℤ → H → Answer (List (String × List ℤ)) × H
  pub get_pretrained_model : String → H → Answer Bytes × H
  pub get_sampling_policy_list : String → H → Answer (List SamplingPolicy) × H
  pub get_labeldb_patterns :
      List (String × String) → H → Answer (List (String × Option LabelDb)) × H
  pub get_tor_exit_node_list : H → Answer (List String) × H
  pub get_trusted_domain_list : H → Answer (List String) × H
  pub get_trusted_user_agent_list : H → Answer (List String) × H
  pub insert_column_statistics :
      List (ColumnStatisticsUpdate Stats) → ℕ → ℤ → H → Answer (Unit {0}) × H
  pub insert_data_source : DataSource → H → Answer ℕ × H
  pub insert_event_labels : ℕ → ℕ → List EventMessage → H → Answer (Unit {0}) × H
  pub insert_model : Bytes → H → Answer ℕ × H
  pub insert_time_series : List TimeSeriesUpdate → ℕ → ℤ → H → Answer (Unit {0}) × H
  pub remove_model : String → H → Answer (Unit {0}) × H
  pub renew_certificate : String → H → Answer (String × String) × H
  pub update_clusters : List UpdateClusterRequest → ℕ → H → Answer (Unit {0}) × H
  pub update_model : Bytes → H → Answer ℕ × H
  pub update_outliers : List OutlierInfo → ℕ → ℤ → H → Answer (Unit {0}) × H
  pub update_host_ports : String → HostPorts → H → Answer (Unit {0}) × H
  pub update_host_user_agents :
      String → List (IpAddr × List UserAgent × List String) → H → Answer (Unit {0}) × H
  pub upload_run_model : String → ℕ → Bytes → H → Answer (Unit {0}) × H
  pub report_run : String → ℕ → ReportedRunState → Option String → H → Answer (Unit {0}) × H
  pub report_active_runs : String → List ℕ → H → Answer (Unit {0}) × H
  pub report_detector_status : String → DetectorStatusReport → H → Answer (Unit {0}) × H

abbrev pub unsupported : {A H : Type 0} → H → Answer A × H
unsupported h = (err "not supported", h)

-- The default methods of the trait.
unfoldable pub default_handler : {Net Stats H : Type 0} → Handler Net Stats H
default_handler = record {
  report_customer_data_deletion = λ a h. unsupported h;
  get_allowlist = λ a h. unsupported h;
  get_blocklist = λ a h. unsupported h;
  get_config = λ a h. unsupported h;
  get_data_source = λ a h. unsupported h;
  get_indicator = λ a h. unsupported h;
  get_internal_network_list = λ a h. unsupported h;
  get_model = λ a h. unsupported h;
  get_model_names = λ h. unsupported h;
  get_outliers = λ a b h. unsupported h;
  get_pretrained_model = λ a h. unsupported h;
  get_sampling_policy_list = λ a h. unsupported h;
  get_labeldb_patterns = λ a h. unsupported h;
  get_tor_exit_node_list = λ h. unsupported h;
  get_trusted_domain_list = λ h. unsupported h;
  get_trusted_user_agent_list = λ h. unsupported h;
  insert_column_statistics = λ a b c h. unsupported h;
  insert_data_source = λ a h. unsupported h;
  insert_event_labels = λ a b c h. unsupported h;
  insert_model = λ a h. unsupported h;
  insert_time_series = λ a b c h. unsupported h;
  remove_model = λ a h. unsupported h;
  renew_certificate = λ a h. unsupported h;
  update_clusters = λ a b h. unsupported h;
  update_model = λ a h. unsupported h;
  update_outliers = λ a b c h. unsupported h;
  update_host_ports = λ a b h. unsupported h;
  update_host_user_agents = λ a b h. unsupported h;
  upload_run_model = λ a b c h. unsupported h;
  report_run = λ a b c d h. unsupported h;
  report_active_runs = λ a b h. unsupported h;
  report_detector_status = λ a b h. unsupported h;
}

-- The answers that a manager sends. A refusal is an `Err` answer without a value.
pub data ServerReply (Net : Type 0) : Type 0 where
  done : Answer (Unit {0}) → ServerReply Net
  network_group : Answer (HostNetworkGroup Net) → ServerReply Net
  text : Answer String → ServerReply Net
  data_source : Answer (Option DataSource) → ServerReply Net
  indicator : Answer (List (List String)) → ServerReply Net
  model : Answer Bytes → ServerReply Net
  texts : Answer (List String) → ServerReply Net
  outliers : Answer (List (String × List ℤ)) → ServerReply Net
  sampling_policies : Answer (List SamplingPolicy) → ServerReply Net
  label_dbs : Answer (List (String × Option LabelDb)) → ServerReply Net
  id : Answer ℕ → ServerReply Net
  certificate : Answer (String × String) → ServerReply Net

-- What oinq and bincode make of bytes: `split_request` is the part of `recv_request_raw` behind the
-- receive of the frame, the others are `parse_args` at each type of arguments.
pub record ServerCodec (Stats : Type 0) : Type 0 where
  pub split_request : Bytes → Result (ℕ × Bytes) IoError
  pub parse_unit : Bytes → Result (Unit {0}) IoError
  pub parse_data_source_key : Bytes → Result DataSourceKey IoError
  pub parse_string : Bytes → Result String IoError
  pub parse_string_pairs : Bytes → Result (List (String × String)) IoError
  pub parse_model_at : Bytes → Result (ℕ × ℤ) IoError
  pub parse_column_statistics : Bytes → Result (List (ColumnStatisticsUpdate Stats) × ℕ × ℤ) IoError
  pub parse_data_source : Bytes → Result DataSource IoError
  pub parse_event_labels : Bytes → Result (ℕ × ℕ × List EventMessage) IoError
  pub parse_bytes : Bytes → Result Bytes IoError
  pub parse_time_series : Bytes → Result (List TimeSeriesUpdate × ℕ × ℤ) IoError
  pub parse_deletion_report : Bytes → Result CustomerDataDeletionReport IoError
  pub parse_clusters : Bytes → Result (List UpdateClusterRequest × ℕ) IoError
  pub parse_outliers : Bytes → Result (List OutlierInfo × ℕ × ℤ) IoError
  pub parse_host_ports : Bytes → Result HostPorts IoError
  pub parse_host_user_agents : Bytes → Result (List (IpAddr × List UserAgent × List String)) IoError
  pub parse_run_model : Bytes → Result (ℕ × Bytes) IoError
  pub parse_run_report : Bytes → Result (ℕ × ReportedRunState × Option String) IoError
  pub parse_ids : Bytes → Result (List ℕ) IoError
  pub parse_detector_report : Bytes → Result DetectorStatusReport IoError

-- The state that a manager serves requests with.
pub record Manager (Net H : Type 0) : Type 0 where
  pub handler : H
  pub send : SendStream (ServerReply Net)
  pub recv : RecvStream
