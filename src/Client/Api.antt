-- ===== src/Client/Api.antt =====
-- client/api.rs: the requests that an agent sends to its manager, with `unary_request` of lib.rs.
-- What quinn and oinq return is a parameter.
pub mod Calls
use review_protocol.Prelude.{
  ℕ, String, Result, ok, err, Option, none, some, List, and_then, map_err,
}
use review_protocol.ProtocolError.{IoError, ErrorKind, io_error, message, simple, not_found}
use review_protocol.ProtocolError as ProtocolError
use review_protocol.Wire.{Bytes, SendStream, send_frame}
use review_protocol.Codes.Server.{RequestCode, to_u32}
use review_protocol.Types.Shared.{ℤ, IpAddr}
use review_protocol.Types.Reports.{
  CustomerDataDeletionReport, ReportedRunState, DetectorStatusReport, DataSourceKey, DataSource,
}
use review_protocol.Types.Detection.{
  HostNetworkGroup, SamplingPolicy, LabelDb, UserAgent, ColumnStatisticsUpdate, TimeSeriesUpdate,
  UpdateClusterRequest, OutlierInfo, EventMessage,
}
use review_protocol.Server.Handler.{Answer, HostPorts}

-- The two halves of the stream that `open_bi` opens: what is sent, and what `frame::recv` returns.
pub record AgentStream (T : Type 0) : Type 0 where
  pub send : SendStream Bytes
  pub response : Result (Answer T) IoError

-- What `oinq::message::send_request` puts into the frame for a code and an input, by the input's
-- type, or the error of an input that does not encode.
pub record AgentEncoder (Stats : Type 0) : Type 0 where
  pub unit : ℕ → Unit {0} → Result Bytes IoError
  pub data_source_key : ℕ → DataSourceKey → Result Bytes IoError
  pub string : ℕ → String → Result Bytes IoError
  pub string_pairs : ℕ → List (String × String) → Result Bytes IoError
  pub model_at : ℕ → ℕ × ℤ → Result Bytes IoError
  pub column_statistics : ℕ → List (ColumnStatisticsUpdate Stats) × ℕ × ℤ → Result Bytes IoError
  pub data_source : ℕ → DataSource → Result Bytes IoError
  pub event_labels : ℕ → ℕ × ℕ × List EventMessage → Result Bytes IoError
  pub bytes : ℕ → Bytes → Result Bytes IoError
  pub time_series : ℕ → List TimeSeriesUpdate × ℕ × ℤ → Result Bytes IoError
  pub deletion_report : ℕ → CustomerDataDeletionReport → Result Bytes IoError
  pub clusters : ℕ → List UpdateClusterRequest × ℕ → Result Bytes IoError
  pub outliers : ℕ → List OutlierInfo × ℕ × ℤ → Result Bytes IoError
  pub host_ports : ℕ → HostPorts → Result Bytes IoError
  pub host_user_agents : ℕ → List (IpAddr × List UserAgent × List String) → Result Bytes IoError
  pub run_model : ℕ → ℕ × Bytes → Result Bytes IoError
  pub run_report : ℕ → ℕ × ReportedRunState × Option String → Result Bytes IoError
  pub ids : ℕ → List ℕ → Result Bytes IoError
  pub detector_report : ℕ → DetectorStatusReport → Result Bytes IoError

-- `io::Error::other`
abbrev pub io_other : String → IoError
io_other e = io_error ProtocolError.ErrorKind.other (message e)

-- The result of a request, with the stream if one was opened.
abbrev pub Asked : Type 0 → Type 0 → Type 0
Asked A T = Result A IoError × Option (AgentStream T)

module _ {T : Type 0} where
  -- `unary_request`: the frame is sent, and the reply received.
  unfoldable pub unary_request :
      Result Bytes IoError → AgentStream T → Result (Answer T) IoError × AgentStream T
  unary_request (ok buf) s =
      let (r, out) = send_frame buf s.send in
      (and_then r (λ u. s.response), record s { send = out })
  unary_request (err e) s = (err e, s)

  -- `request`: the stream is opened first.
  unfoldable pub request :
      Result Bytes IoError → Result (AgentStream T) IoError → Asked (Answer T) T
  unfolding unary_request
  request encoded (ok s) = let (r, s') = unary_request encoded s in (r, some s')
  request encoded (err e) = (err e, none)

  -- `request(..).await?`, and `res.map_err(io::Error::other)`.
  unfoldable pub ask : Result Bytes IoError → Result (AgentStream T) IoError → Asked T T
  unfolding request
  ask encoded opened =
      let (r, s) = request encoded opened in (and_then r (λ res. map_err io_other res), s)

-- `.and_then(|res| res.ok_or_else(|| io::Error::from(io::ErrorKind::NotFound)))`
unfoldable pub found : {A : Type 0} → Option A → Result A IoError
found (some a) = ok a
found none = err (io_error not_found simple)

-- The type of a method on the stream that `open_bi` gives.
abbrev pub Asks : Type 0 → Type 0
Asks T = Result (AgentStream T) IoError → Asked T T

module _ {Stats : Type 0} (encoder : AgentEncoder Stats) where
  unfoldable pub report_customer_data_deletion : CustomerDataDeletionReport → Asks (Unit {0})
  unfolding ask
  report_customer_data_deletion report =
      ask (encoder.deletion_report (to_u32 RequestCode.report_customer_data_deletion) report)

  unfoldable pub upload_run_model : ℕ → Bytes → Asks (Unit {0})
  unfolding ask
  upload_run_model run_id model =
      ask (encoder.run_model (to_u32 RequestCode.upload_run_model) (run_id, model))

  unfoldable pub report_run : ℕ → ReportedRunState → (Option String) → Asks (Unit {0})
  unfolding ask
  report_run run_id state reason =
      ask (encoder.run_report (to_u32 RequestCode.report_run) (run_id, state, reason))

  unfoldable pub report_active_runs : (List ℕ) → Asks (Unit {0})
  unfolding ask
  report_active_runs run_ids = ask (encoder.ids (to_u32 RequestCode.report_active_runs) run_ids)

  unfoldable pub report_detector_status : DetectorStatusReport → Asks (Unit {0})
  unfolding ask
  report_detector_status report =
      ask (encoder.detector_report (to_u32 RequestCode.report_detector_status) report)

  unfoldable pub get_config : Asks String
  unfolding ask
  get_config = ask (encoder.unit (to_u32 RequestCode.get_config) tt)

  unfoldable pub get_allowlist : {Net : Type 0} → Asks (HostNetworkGroup Net)
  unfolding ask
  get_allowlist = ask (encoder.unit (to_u32 RequestCode.get_allowlist) tt)

  unfoldable pub get_blocklist : {Net : Type 0} → Asks (HostNetworkGroup Net)
  unfolding ask
  get_blocklist = ask (encoder.unit (to_u32 RequestCode.get_blocklist) tt)

  unfoldable pub get_data_source :
      DataSourceKey
      → Result (AgentStream (Option DataSource)) IoError
      → Asked DataSource (Option DataSource)
  unfolding ask found
  get_data_source source_key opened =
      let (r, s) =
        ask (encoder.data_source_key (to_u32 RequestCode.get_data_source) source_key) opened in
      (and_then r found, s)

  unfoldable pub get_indicator : String → Asks (List (List String))
  unfolding ask
  get_indicator name = ask (encoder.string (to_u32 RequestCode.get_indicator) name)

  unfoldable pub get_internal_network_list : {Net : Type 0} → Asks (HostNetworkGroup Net)
  unfolding ask
  get_internal_network_list = ask (encoder.unit (to_u32 RequestCode.get_internal_network_list) tt)

  unfoldable pub get_labeldb_patterns :
      (List (String × String)) → Asks (List (String × Option LabelDb))
  unfolding ask
  get_labeldb_patterns labeldbs =
      ask (encoder.string_pairs (to_u32 RequestCode.get_label_db_patterns) labeldbs)

  unfoldable pub get_tor_exit_node_list : Asks (List String)
  unfolding ask
  get_tor_exit_node_list = ask (encoder.unit (to_u32 RequestCode.get_tor_exit_node_list) tt)

  unfoldable pub get_trusted_domain_list : Asks (List String)
  unfolding ask
  get_trusted_domain_list = ask (encoder.unit (to_u32 RequestCode.get_trusted_domain_list) tt)

  unfoldable pub get_trusted_user_agent_list : Asks (List String)
  unfolding ask
  get_trusted_user_agent_list =
      ask (encoder.unit (to_u32 RequestCode.get_trusted_user_agent_list) tt)

  unfoldable pub get_sampling_policy_list : Asks (List SamplingPolicy)
  unfolding ask
  get_sampling_policy_list = ask (encoder.unit (to_u32 RequestCode.get_sampling_policy_list) tt)

  unfoldable pub get_pretrained_model : String → Asks Bytes
  unfolding ask
  get_pretrained_model name = ask (encoder.string (to_u32 RequestCode.get_pretrained_model) name)

  unfoldable pub renew_certificate : Asks (String × String)
  unfolding ask
  renew_certificate = ask (encoder.unit (to_u32 RequestCode.renew_certificate) tt)

  unfoldable pub get_model : String → Asks Bytes
  unfolding ask
  get_model name = ask (encoder.string (to_u32 RequestCode.get_model) name)

  unfoldable pub get_model_names : Asks (List String)
  unfolding ask
  get_model_names = ask (encoder.unit (to_u32 RequestCode.get_model_names) tt)

  unfoldable pub insert_column_statistics :
      (List (ColumnStatisticsUpdate Stats)) → ℕ → ℤ → Asks (Unit {0})
  unfolding ask
  insert_column_statistics statistics model_id batch_ts = ask (
      encoder.column_statistics (to_u32 RequestCode.insert_column_statistics)
        (statistics, model_id, batch_ts))

  unfoldable pub insert_model : Bytes → Asks ℕ
  unfolding ask
  insert_model model = ask (encoder.bytes (to_u32 RequestCode.insert_model) model)

  unfoldable pub insert_time_series : (List TimeSeriesUpdate) → ℕ → ℤ → Asks (Unit {0})
  unfolding ask
  insert_time_series time_series model_id batch_ts = ask (
      encoder.time_series (to_u32 RequestCode.insert_time_series) (time_series, model_id, batch_ts))

  unfoldable pub remove_model : String → Asks (Unit {0})
  unfolding ask
  remove_model name = ask (encoder.string (to_u32 RequestCode.remove_model) name)

  unfoldable pub update_clusters : (List UpdateClusterRequest) → ℕ → Asks (Unit {0})
  unfolding ask
  update_clusters input model_id =
      ask (encoder.clusters (to_u32 RequestCode.update_clusters) (input, model_id))

  unfoldable pub update_model : Bytes → Asks ℕ
  unfolding ask
  update_model model = ask (encoder.bytes (to_u32 RequestCode.update_model) model)

  unfoldable pub update_outliers : (List OutlierInfo) → ℕ → ℤ → Asks (Unit {0})
  unfolding ask
  update_outliers outliers model_id timestamp =
      ask (encoder.outliers (to_u32 RequestCode.update_outliers) (outliers, model_id, timestamp))

  unfoldable pub insert_event_labels : ℕ → ℕ → (List EventMessage) → Asks (Unit {0})
  unfolding ask
  insert_event_labels model_id round labels =
      ask (encoder.event_labels (to_u32 RequestCode.insert_event_labels) (model_id, round, labels))

  unfoldable pub insert_data_source : DataSource → Asks ℕ
  unfolding ask
  insert_data_source source =
      ask (encoder.data_source (to_u32 RequestCode.insert_data_source) source)

  unfoldable pub get_outliers : ℕ → ℤ → Asks (List (String × List ℤ))
  unfolding ask
  get_outliers model_id timestamp =
      ask (encoder.model_at (to_u32 RequestCode.get_outliers) (model_id, timestamp))

  unfoldable pub update_host_ports : HostPorts → Asks (Unit {0})
  unfolding ask
  update_host_ports hosts =
      ask (encoder.host_ports (to_u32 RequestCode.update_host_opened_ports) hosts)

  unfoldable pub update_host_user_agents :
      (List (IpAddr × List UserAgent × List String)) → Asks (Unit {0})
  unfolding ask
  update_host_user_agents hosts =
      ask (encoder.host_user_agents (to_u32 RequestCode.update_host_os_agents) hosts)
