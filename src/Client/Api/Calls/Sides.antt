-- ===== src/Client/Api/Calls/Sides.antt =====
-- A call of client/api.rs on both sides: the reply between them, the agent's method, and the method
-- of server/handler.rs.
use review_protocol.Prelude.{ℕ, String, Result, ok, err, Option, List, ◌∷◌}
use review_protocol.ProtocolError.{IoError, io_error, invalid_data, simple}
use review_protocol.Wire.{Bytes}
use review_protocol.Types.Shared.{ℤ}
use review_protocol.Types.Reports.{DataSource}
use review_protocol.Types.Detection.{HostNetworkGroup, SamplingPolicy, LabelDb}
use review_protocol.Server.Handler.{Answer, Handler, ServerReply}
use review_protocol.Client.Api.{AgentEncoder, Asked, AgentStream, io_other, found}
use review_protocol.Client.Api
use review_protocol.Client.Api.Calls.{AgentCall, Reply, Value}

-- What `frame::recv` makes of the manager's first reply, by the type that the agent expects.
abbrev done_reply : {Net : Type 0} → List (ServerReply Net) → Result (Answer (Unit {0})) IoError
done_reply (ServerReply.done x ∷ rest) = ok x
done_reply _ = err (io_error invalid_data simple)

abbrev text_reply : {Net : Type 0} → List (ServerReply Net) → Result (Answer String) IoError
text_reply (ServerReply.text x ∷ rest) = ok x
text_reply _ = err (io_error invalid_data simple)

abbrev network_group_reply :
    {Net : Type 0} → List (ServerReply Net) → Result (Answer (HostNetworkGroup Net)) IoError
network_group_reply (ServerReply.network_group x ∷ rest) = ok x
network_group_reply _ = err (io_error invalid_data simple)

abbrev data_source_reply :
    {Net : Type 0} → List (ServerReply Net) → Result (Answer (Option DataSource)) IoError
data_source_reply (ServerReply.data_source x ∷ rest) = ok x
data_source_reply _ = err (io_error invalid_data simple)

abbrev indicator_reply :
    {Net : Type 0} → List (ServerReply Net) → Result (Answer (List (List String))) IoError
indicator_reply (ServerReply.indicator x ∷ rest) = ok x
indicator_reply _ = err (io_error invalid_data simple)

abbrev label_dbs_reply :
    {Net : Type 0}
    → List (ServerReply Net)
    → Result (Answer (List (String × Option LabelDb))) IoError
label_dbs_reply (ServerReply.label_dbs x ∷ rest) = ok x
label_dbs_reply _ = err (io_error invalid_data simple)

abbrev texts_reply : {Net : Type 0} → List (ServerReply Net) → Result (Answer (List String)) IoError
texts_reply (ServerReply.texts x ∷ rest) = ok x
texts_reply _ = err (io_error invalid_data simple)

abbrev sampling_policies_reply :
    {Net : Type 0} → List (ServerReply Net) → Result (Answer (List SamplingPolicy)) IoError
sampling_policies_reply (ServerReply.sampling_policies x ∷ rest) = ok x
sampling_policies_reply _ = err (io_error invalid_data simple)

abbrev model_reply : {Net : Type 0} → List (ServerReply Net) → Result (Answer Bytes) IoError
model_reply (ServerReply.model x ∷ rest) = ok x
model_reply _ = err (io_error invalid_data simple)

abbrev certificate_reply :
    {Net : Type 0} → List (ServerReply Net) → Result (Answer (String × String)) IoError
certificate_reply (ServerReply.certificate x ∷ rest) = ok x
certificate_reply _ = err (io_error invalid_data simple)

abbrev id_reply : {Net : Type 0} → List (ServerReply Net) → Result (Answer ℕ) IoError
id_reply (ServerReply.id x ∷ rest) = ok x
id_reply _ = err (io_error invalid_data simple)

abbrev outliers_reply :
    {Net : Type 0} → List (ServerReply Net) → Result (Answer (List (String × List ℤ))) IoError
outliers_reply (ServerReply.outliers x ∷ rest) = ok x
outliers_reply _ = err (io_error invalid_data simple)

module _ (Net : Type 0) {Stats : Type 0} where
  abbrev pub reply_of : (c : AgentCall Stats) → Answer (Reply Net c) → ServerReply Net
  reply_of (AgentCall.report_customer_data_deletion report) x = ServerReply.done x
  reply_of (AgentCall.upload_run_model run_id model) x = ServerReply.done x
  reply_of (AgentCall.report_run run_id state reason) x = ServerReply.done x
  reply_of (AgentCall.report_active_runs run_ids) x = ServerReply.done x
  reply_of (AgentCall.report_detector_status report) x = ServerReply.done x
  reply_of AgentCall.get_config x = ServerReply.text x
  reply_of AgentCall.get_allowlist x = ServerReply.network_group x
  reply_of AgentCall.get_blocklist x = ServerReply.network_group x
  reply_of (AgentCall.get_data_source source_key) x = ServerReply.data_source x
  reply_of (AgentCall.get_indicator name) x = ServerReply.indicator x
  reply_of AgentCall.get_internal_network_list x = ServerReply.network_group x
  reply_of (AgentCall.get_labeldb_patterns labeldbs) x = ServerReply.label_dbs x
  reply_of AgentCall.get_tor_exit_node_list x = ServerReply.texts x
  reply_of AgentCall.get_trusted_domain_list x = ServerReply.texts x
  reply_of AgentCall.get_trusted_user_agent_list x = ServerReply.texts x
  reply_of AgentCall.get_sampling_policy_list x = ServerReply.sampling_policies x
  reply_of (AgentCall.get_pretrained_model name) x = ServerReply.model x
  reply_of AgentCall.renew_certificate x = ServerReply.certificate x
  reply_of (AgentCall.get_model name) x = ServerReply.model x
  reply_of AgentCall.get_model_names x = ServerReply.texts x
  reply_of (AgentCall.insert_column_statistics statistics model_id batch_ts) x = ServerReply.done x
  reply_of (AgentCall.insert_model model) x = ServerReply.id x
  reply_of (AgentCall.insert_time_series time_series model_id batch_ts) x = ServerReply.done x
  reply_of (AgentCall.remove_model name) x = ServerReply.done x
  reply_of (AgentCall.update_clusters input model_id) x = ServerReply.done x
  reply_of (AgentCall.update_model model) x = ServerReply.id x
  reply_of (AgentCall.update_outliers outliers model_id timestamp) x = ServerReply.done x
  reply_of (AgentCall.insert_event_labels model_id round labels) x = ServerReply.done x
  reply_of (AgentCall.insert_data_source source) x = ServerReply.id x
  reply_of (AgentCall.get_outliers model_id timestamp) x = ServerReply.outliers x
  reply_of (AgentCall.update_host_ports hosts) x = ServerReply.done x
  reply_of (AgentCall.update_host_user_agents hosts) x = ServerReply.done x

  abbrev pub received_of :
      (c : AgentCall Stats) → List (ServerReply Net) → Result (Answer (Reply Net c)) IoError
  received_of (AgentCall.report_customer_data_deletion report) replies = done_reply replies
  received_of (AgentCall.upload_run_model run_id model) replies = done_reply replies
  received_of (AgentCall.report_run run_id state reason) replies = done_reply replies
  received_of (AgentCall.report_active_runs run_ids) replies = done_reply replies
  received_of (AgentCall.report_detector_status report) replies = done_reply replies
  received_of AgentCall.get_config replies = text_reply replies
  received_of AgentCall.get_allowlist replies = network_group_reply replies
  received_of AgentCall.get_blocklist replies = network_group_reply replies
  received_of (AgentCall.get_data_source source_key) replies = data_source_reply replies
  received_of (AgentCall.get_indicator name) replies = indicator_reply replies
  received_of AgentCall.get_internal_network_list replies = network_group_reply replies
  received_of (AgentCall.get_labeldb_patterns labeldbs) replies = label_dbs_reply replies
  received_of AgentCall.get_tor_exit_node_list replies = texts_reply replies
  received_of AgentCall.get_trusted_domain_list replies = texts_reply replies
  received_of AgentCall.get_trusted_user_agent_list replies = texts_reply replies
  received_of AgentCall.get_sampling_policy_list replies = sampling_policies_reply replies
  received_of (AgentCall.get_pretrained_model name) replies = model_reply replies
  received_of AgentCall.renew_certificate replies = certificate_reply replies
  received_of (AgentCall.get_model name) replies = model_reply replies
  received_of AgentCall.get_model_names replies = texts_reply replies
  received_of (AgentCall.insert_column_statistics statistics model_id batch_ts) replies =
      done_reply replies
  received_of (AgentCall.insert_model model) replies = id_reply replies
  received_of (AgentCall.insert_time_series time_series model_id batch_ts) replies =
      done_reply replies
  received_of (AgentCall.remove_model name) replies = done_reply replies
  received_of (AgentCall.update_clusters input model_id) replies = done_reply replies
  received_of (AgentCall.update_model model) replies = id_reply replies
  received_of (AgentCall.update_outliers outliers model_id timestamp) replies = done_reply replies
  received_of (AgentCall.insert_event_labels model_id round labels) replies = done_reply replies
  received_of (AgentCall.insert_data_source source) replies = id_reply replies
  received_of (AgentCall.get_outliers model_id timestamp) replies = outliers_reply replies
  received_of (AgentCall.update_host_ports hosts) replies = done_reply replies
  received_of (AgentCall.update_host_user_agents hosts) replies = done_reply replies

  -- The agent's method.
  abbrev pub ask_of :
      AgentEncoder Stats
      → (c : AgentCall Stats) → Result (AgentStream (Reply Net c)) IoError
      → Asked (Value Net c) (Reply Net c)
  ask_of encoder (AgentCall.report_customer_data_deletion report) opened =
      Api.report_customer_data_deletion encoder report opened
  ask_of encoder (AgentCall.upload_run_model run_id model) opened =
      Api.upload_run_model encoder run_id model opened
  ask_of encoder (AgentCall.report_run run_id state reason) opened =
      Api.report_run encoder run_id state reason opened
  ask_of encoder (AgentCall.report_active_runs run_ids) opened =
      Api.report_active_runs encoder run_ids opened
  ask_of encoder (AgentCall.report_detector_status report) opened =
      Api.report_detector_status encoder report opened
  ask_of encoder AgentCall.get_config opened = Api.get_config encoder opened
  ask_of encoder AgentCall.get_allowlist opened = Api.get_allowlist encoder opened
  ask_of encoder AgentCall.get_blocklist opened = Api.get_blocklist encoder opened
  ask_of encoder (AgentCall.get_data_source source_key) opened =
      Api.get_data_source encoder source_key opened
  ask_of encoder (AgentCall.get_indicator name) opened = Api.get_indicator encoder name opened
  ask_of encoder AgentCall.get_internal_network_list opened =
      Api.get_internal_network_list encoder opened
  ask_of encoder (AgentCall.get_labeldb_patterns labeldbs) opened =
      Api.get_labeldb_patterns encoder labeldbs opened
  ask_of encoder AgentCall.get_tor_exit_node_list opened = Api.get_tor_exit_node_list encoder opened
  ask_of encoder AgentCall.get_trusted_domain_list opened =
      Api.get_trusted_domain_list encoder opened
  ask_of encoder AgentCall.get_trusted_user_agent_list opened =
      Api.get_trusted_user_agent_list encoder opened
  ask_of encoder AgentCall.get_sampling_policy_list opened =
      Api.get_sampling_policy_list encoder opened
  ask_of encoder (AgentCall.get_pretrained_model name) opened =
      Api.get_pretrained_model encoder name opened
  ask_of encoder AgentCall.renew_certificate opened = Api.renew_certificate encoder opened
  ask_of encoder (AgentCall.get_model name) opened = Api.get_model encoder name opened
  ask_of encoder AgentCall.get_model_names opened = Api.get_model_names encoder opened
  ask_of encoder (AgentCall.insert_column_statistics statistics model_id batch_ts) opened =
      Api.insert_column_statistics encoder statistics model_id batch_ts opened
  ask_of encoder (AgentCall.insert_model model) opened = Api.insert_model encoder model opened
  ask_of encoder (AgentCall.insert_time_series time_series model_id batch_ts) opened =
      Api.insert_time_series encoder time_series model_id batch_ts opened
  ask_of encoder (AgentCall.remove_model name) opened = Api.remove_model encoder name opened
  ask_of encoder (AgentCall.update_clusters input model_id) opened =
      Api.update_clusters encoder input model_id opened
  ask_of encoder (AgentCall.update_model model) opened = Api.update_model encoder model opened
  ask_of encoder (AgentCall.update_outliers outliers model_id timestamp) opened =
      Api.update_outliers encoder outliers model_id timestamp opened
  ask_of encoder (AgentCall.insert_event_labels model_id round labels) opened =
      Api.insert_event_labels encoder model_id round labels opened
  ask_of encoder (AgentCall.insert_data_source source) opened =
      Api.insert_data_source encoder source opened
  ask_of encoder (AgentCall.get_outliers model_id timestamp) opened =
      Api.get_outliers encoder model_id timestamp opened
  ask_of encoder (AgentCall.update_host_ports hosts) opened =
      Api.update_host_ports encoder hosts opened
  ask_of encoder (AgentCall.update_host_user_agents hosts) opened =
      Api.update_host_user_agents encoder hosts opened

  -- The manager's method.
  abbrev pub served_by :
      {H : Type 0}
      → Handler Net Stats H
      → String
      → (c : AgentCall Stats) → H
      → Answer (Reply Net c) × H
  served_by handler peer (AgentCall.report_customer_data_deletion report) h =
      handler.report_customer_data_deletion report h
  served_by handler peer (AgentCall.upload_run_model run_id model) h =
      handler.upload_run_model peer run_id model h
  served_by handler peer (AgentCall.report_run run_id state reason) h =
      handler.report_run peer run_id state reason h
  served_by handler peer (AgentCall.report_active_runs run_ids) h =
      handler.report_active_runs peer run_ids h
  served_by handler peer (AgentCall.report_detector_status report) h =
      handler.report_detector_status peer report h
  served_by handler peer AgentCall.get_config h = handler.get_config peer h
  served_by handler peer AgentCall.get_allowlist h = handler.get_allowlist peer h
  served_by handler peer AgentCall.get_blocklist h = handler.get_blocklist peer h
  served_by handler peer (AgentCall.get_data_source source_key) h =
      handler.get_data_source source_key h
  served_by handler peer (AgentCall.get_indicator name) h = handler.get_indicator name h
  served_by handler peer AgentCall.get_internal_network_list h =
      handler.get_internal_network_list peer h
  served_by handler peer (AgentCall.get_labeldb_patterns labeldbs) h =
      handler.get_labeldb_patterns labeldbs h
  served_by handler peer AgentCall.get_tor_exit_node_list h = handler.get_tor_exit_node_list h
  served_by handler peer AgentCall.get_trusted_domain_list h = handler.get_trusted_domain_list h
  served_by handler peer AgentCall.get_trusted_user_agent_list h =
      handler.get_trusted_user_agent_list h
  served_by handler peer AgentCall.get_sampling_policy_list h =
      handler.get_sampling_policy_list peer h
  served_by handler peer (AgentCall.get_pretrained_model name) h =
      handler.get_pretrained_model name h
  served_by handler peer AgentCall.renew_certificate h = handler.renew_certificate peer h
  served_by handler peer (AgentCall.get_model name) h = handler.get_model name h
  served_by handler peer AgentCall.get_model_names h = handler.get_model_names h
  served_by handler peer (AgentCall.insert_column_statistics statistics model_id batch_ts) h =
      handler.insert_column_statistics statistics model_id batch_ts h
  served_by handler peer (AgentCall.insert_model model) h = handler.insert_model model h
  served_by handler peer (AgentCall.insert_time_series time_series model_id batch_ts) h =
      handler.insert_time_series time_series model_id batch_ts h
  served_by handler peer (AgentCall.remove_model name) h = handler.remove_model name h
  served_by handler peer (AgentCall.update_clusters input model_id) h =
      handler.update_clusters input model_id h
  served_by handler peer (AgentCall.update_model model) h = handler.update_model model h
  served_by handler peer (AgentCall.update_outliers outliers model_id timestamp) h =
      handler.update_outliers outliers model_id timestamp h
  served_by handler peer (AgentCall.insert_event_labels model_id round labels) h =
      handler.insert_event_labels model_id round labels h
  served_by handler peer (AgentCall.insert_data_source source) h =
      handler.insert_data_source source h
  served_by handler peer (AgentCall.get_outliers model_id timestamp) h =
      handler.get_outliers model_id timestamp h
  served_by handler peer (AgentCall.update_host_ports hosts) h =
      handler.update_host_ports peer hosts h
  served_by handler peer (AgentCall.update_host_user_agents hosts) h =
      handler.update_host_user_agents peer hosts h
