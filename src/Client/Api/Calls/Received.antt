-- ===== src/Client/Api/Calls/Received.antt =====
-- A call of client/api.rs at the agent: what its method makes of the manager's reply.
use review_protocol.Prelude.{String, ◌≡◌, refl, ap, Result, ok, some, [], ◌∷◌, and_then, map_err}
use review_protocol.ProtocolError.{IoError}
use review_protocol.Wire.{Bytes}
use review_protocol.Codes.Server.{RequestCode, to_u32}
use review_protocol.Server.Handler.{Answer, Handler, ServerCodec}
use review_protocol.Server.Handler.Dispatch.{answer}
use review_protocol.Wire.{send_frame, send_outcome}
use review_protocol.Client.Api.{
  AgentEncoder, AgentStream, request, unary_request, ask, found, io_other,
  report_customer_data_deletion, upload_run_model, report_run, report_active_runs,
  report_detector_status, get_config, get_allowlist, get_blocklist, get_data_source, get_indicator,
  get_internal_network_list, get_labeldb_patterns, get_tor_exit_node_list, get_trusted_domain_list,
  get_trusted_user_agent_list, get_sampling_policy_list, get_pretrained_model, renew_certificate,
  get_model, get_model_names, insert_column_statistics, insert_model, insert_time_series,
  remove_model, update_clusters, update_model, update_outliers, insert_event_labels,
  insert_data_source, get_outliers, update_host_ports, update_host_user_agents,
}
use review_protocol.Client.Api.Calls.{AgentCall, frame_of, Reply, value_of}
use review_protocol.Client.Api.Calls.Sides.{reply_of, received_of, ask_of}

module _ {Net Stats H : Type 0} (encoder : AgentEncoder Stats) (handler : Handler Net Stats H)
    (codec : ServerCodec Stats) (peer_name : String) where
  pub received_of-reply_of :
      (c : AgentCall Stats) (x : Answer (Reply Net c))
      → received_of Net c (reply_of Net c x ∷ []) ≡ ok x
  received_of-reply_of (AgentCall.report_customer_data_deletion report) x = refl
  received_of-reply_of (AgentCall.upload_run_model run_id model) x = refl
  received_of-reply_of (AgentCall.report_run run_id state reason) x = refl
  received_of-reply_of (AgentCall.report_active_runs run_ids) x = refl
  received_of-reply_of (AgentCall.report_detector_status report) x = refl
  received_of-reply_of AgentCall.get_config x = refl
  received_of-reply_of AgentCall.get_allowlist x = refl
  received_of-reply_of AgentCall.get_blocklist x = refl
  received_of-reply_of (AgentCall.get_data_source source_key) x = refl
  received_of-reply_of (AgentCall.get_indicator name) x = refl
  received_of-reply_of AgentCall.get_internal_network_list x = refl
  received_of-reply_of (AgentCall.get_labeldb_patterns labeldbs) x = refl
  received_of-reply_of AgentCall.get_tor_exit_node_list x = refl
  received_of-reply_of AgentCall.get_trusted_domain_list x = refl
  received_of-reply_of AgentCall.get_trusted_user_agent_list x = refl
  received_of-reply_of AgentCall.get_sampling_policy_list x = refl
  received_of-reply_of (AgentCall.get_pretrained_model name) x = refl
  received_of-reply_of AgentCall.renew_certificate x = refl
  received_of-reply_of (AgentCall.get_model name) x = refl
  received_of-reply_of AgentCall.get_model_names x = refl
  received_of-reply_of (AgentCall.insert_column_statistics statistics model_id batch_ts) x = refl
  received_of-reply_of (AgentCall.insert_model model) x = refl
  received_of-reply_of (AgentCall.insert_time_series time_series model_id batch_ts) x = refl
  received_of-reply_of (AgentCall.remove_model name) x = refl
  received_of-reply_of (AgentCall.update_clusters input model_id) x = refl
  received_of-reply_of (AgentCall.update_model model) x = refl
  received_of-reply_of (AgentCall.update_outliers outliers model_id timestamp) x = refl
  received_of-reply_of (AgentCall.insert_event_labels model_id round labels) x = refl
  received_of-reply_of (AgentCall.insert_data_source source) x = refl
  received_of-reply_of (AgentCall.get_outliers model_id timestamp) x = refl
  received_of-reply_of (AgentCall.update_host_ports hosts) x = refl
  received_of-reply_of (AgentCall.update_host_user_agents hosts) x = refl

  ask-answer :
      {X : Type 0} (encoded : Result Bytes IoError) (frame : Bytes) (x : Answer X)
      (opened : AgentStream X)
      → encoded ≡ ok frame
      → opened.send ≡ record { outcomes = []; sent = [] }
      → opened.response ≡ ok x
      → ask encoded (ok opened) ≡ (
        map_err io_other x,
        some (record opened { send = record { outcomes = []; sent = frame ∷ [] } }),
      )
  unfolding ask request unary_request send_frame send_outcome
  ask-answer encoded frame x opened e idle answer = rw (e, idle, answer) refl

  pub agent-receives :
      (c : AgentCall Stats) (frame : Bytes) (x : Answer (Reply Net c))
      (opened : AgentStream (Reply Net c))
      → frame_of encoder c ≡ ok frame
      → opened.send ≡ record { outcomes = []; sent = [] }
      → opened.response ≡ ok x
      → ((ask_of Net encoder c (ok opened)).0 ≡ value_of Net c x)
        × ((ask_of Net encoder c (ok opened)).1
            ≡ some (record opened { send = record { outcomes = []; sent = frame ∷ [] } }))
  unfolding report_customer_data_deletion upload_run_model report_run report_active_runs
      report_detector_status get_config get_allowlist get_blocklist get_data_source get_indicator
      get_internal_network_list get_labeldb_patterns get_tor_exit_node_list get_trusted_domain_list
      get_trusted_user_agent_list get_sampling_policy_list get_pretrained_model renew_certificate
      get_model get_model_names insert_column_statistics insert_model insert_time_series
      remove_model update_clusters update_model update_outliers insert_event_labels
      insert_data_source get_outliers update_host_ports update_host_user_agents
  agent-receives (AgentCall.report_customer_data_deletion report) frame x opened e idle answer =
      let asked =
        ask-answer
          (encoder.deletion_report (to_u32 RequestCode.report_customer_data_deletion) report) frame
          x opened e idle answer in
      (ap (λ y. y.0) asked, ap (λ y. y.1) asked)
  agent-receives (AgentCall.upload_run_model run_id model) frame x opened e idle answer =
      let asked =
        ask-answer (encoder.run_model (to_u32 RequestCode.upload_run_model) (run_id, model)) frame x
          opened e idle answer in
      (ap (λ y. y.0) asked, ap (λ y. y.1) asked)
  agent-receives (AgentCall.report_run run_id state reason) frame x opened e idle answer =
      let asked =
        ask-answer (encoder.run_report (to_u32 RequestCode.report_run) (run_id, state, reason))
          frame x opened e idle answer in
      (ap (λ y. y.0) asked, ap (λ y. y.1) asked)
  agent-receives (AgentCall.report_active_runs run_ids) frame x opened e idle answer =
      let asked =
        ask-answer (encoder.ids (to_u32 RequestCode.report_active_runs) run_ids) frame x opened e
          idle answer in
      (ap (λ y. y.0) asked, ap (λ y. y.1) asked)
  agent-receives (AgentCall.report_detector_status report) frame x opened e idle answer =
      let asked =
        ask-answer (encoder.detector_report (to_u32 RequestCode.report_detector_status) report)
          frame x opened e idle answer in
      (ap (λ y. y.0) asked, ap (λ y. y.1) asked)
  agent-receives AgentCall.get_config frame x opened e idle answer =
      let asked =
        ask-answer (encoder.unit (to_u32 RequestCode.get_config) tt) frame x opened e idle answer in
      (ap (λ y. y.0) asked, ap (λ y. y.1) asked)
  agent-receives AgentCall.get_allowlist frame x opened e idle answer =
      let asked =
        ask-answer (encoder.unit (to_u32 RequestCode.get_allowlist) tt) frame x opened e idle
          answer in
      (ap (λ y. y.0) asked, ap (λ y. y.1) asked)
  agent-receives AgentCall.get_blocklist frame x opened e idle answer =
      let asked =
        ask-answer (encoder.unit (to_u32 RequestCode.get_blocklist) tt) frame x opened e idle
          answer in
      (ap (λ y. y.0) asked, ap (λ y. y.1) asked)
  agent-receives (AgentCall.get_data_source source_key) frame x opened e idle answer =
      let asked =
        ask-answer (encoder.data_source_key (to_u32 RequestCode.get_data_source) source_key) frame x
          opened e idle answer in
      (ap (λ y. and_then y.0 found) asked, ap (λ y. y.1) asked)
  agent-receives (AgentCall.get_indicator name) frame x opened e idle answer =
      let asked =
        ask-answer (encoder.string (to_u32 RequestCode.get_indicator) name) frame x opened e idle
          answer in
      (ap (λ y. y.0) asked, ap (λ y. y.1) asked)
  agent-receives AgentCall.get_internal_network_list frame x opened e idle answer =
      let asked =
        ask-answer (encoder.unit (to_u32 RequestCode.get_internal_network_list) tt) frame x opened e
          idle answer in
      (ap (λ y. y.0) asked, ap (λ y. y.1) asked)
  agent-receives (AgentCall.get_labeldb_patterns labeldbs) frame x opened e idle answer =
      let asked =
        ask-answer (encoder.string_pairs (to_u32 RequestCode.get_label_db_patterns) labeldbs) frame
          x opened e idle answer in
      (ap (λ y. y.0) asked, ap (λ y. y.1) asked)
  agent-receives AgentCall.get_tor_exit_node_list frame x opened e idle answer =
      let asked =
        ask-answer (encoder.unit (to_u32 RequestCode.get_tor_exit_node_list) tt) frame x opened e
          idle answer in
      (ap (λ y. y.0) asked, ap (λ y. y.1) asked)
  agent-receives AgentCall.get_trusted_domain_list frame x opened e idle answer =
      let asked =
        ask-answer (encoder.unit (to_u32 RequestCode.get_trusted_domain_list) tt) frame x opened e
          idle answer in
      (ap (λ y. y.0) asked, ap (λ y. y.1) asked)
  agent-receives AgentCall.get_trusted_user_agent_list frame x opened e idle answer =
      let asked =
        ask-answer (encoder.unit (to_u32 RequestCode.get_trusted_user_agent_list) tt) frame x opened
          e idle answer in
      (ap (λ y. y.0) asked, ap (λ y. y.1) asked)
  agent-receives AgentCall.get_sampling_policy_list frame x opened e idle answer =
      let asked =
        ask-answer (encoder.unit (to_u32 RequestCode.get_sampling_policy_list) tt) frame x opened e
          idle answer in
      (ap (λ y. y.0) asked, ap (λ y. y.1) asked)
  agent-receives (AgentCall.get_pretrained_model name) frame x opened e idle answer =
      let asked =
        ask-answer (encoder.string (to_u32 RequestCode.get_pretrained_model) name) frame x opened e
          idle answer in
      (ap (λ y. y.0) asked, ap (λ y. y.1) asked)
  agent-receives AgentCall.renew_certificate frame x opened e idle answer =
      let asked =
        ask-answer (encoder.unit (to_u32 RequestCode.renew_certificate) tt) frame x opened e idle
          answer in
      (ap (λ y. y.0) asked, ap (λ y. y.1) asked)
  agent-receives (AgentCall.get_model name) frame x opened e idle answer =
      let asked =
        ask-answer (encoder.string (to_u32 RequestCode.get_model) name) frame x opened e idle
          answer in
      (ap (λ y. y.0) asked, ap (λ y. y.1) asked)
  agent-receives AgentCall.get_model_names frame x opened e idle answer =
      let asked =
        ask-answer (encoder.unit (to_u32 RequestCode.get_model_names) tt) frame x opened e idle
          answer in
      (ap (λ y. y.0) asked, ap (λ y. y.1) asked)
  agent-receives (AgentCall.insert_column_statistics statistics model_id batch_ts) frame x opened e
        idle answer =
      let asked =
        ask-answer
          (encoder.column_statistics (to_u32 RequestCode.insert_column_statistics)
            (statistics, model_id, batch_ts))
          frame x opened e idle answer in
      (ap (λ y. y.0) asked, ap (λ y. y.1) asked)
  agent-receives (AgentCall.insert_model model) frame x opened e idle answer =
      let asked =
        ask-answer (encoder.bytes (to_u32 RequestCode.insert_model) model) frame x opened e idle
          answer in
      (ap (λ y. y.0) asked, ap (λ y. y.1) asked)
  agent-receives (AgentCall.insert_time_series time_series model_id batch_ts) frame x opened e idle
        answer =
      let asked =
        ask-answer
          (encoder.time_series (to_u32 RequestCode.insert_time_series)
            (time_series, model_id, batch_ts))
          frame x opened e idle answer in
      (ap (λ y. y.0) asked, ap (λ y. y.1) asked)
  agent-receives (AgentCall.remove_model name) frame x opened e idle answer =
      let asked =
        ask-answer (encoder.string (to_u32 RequestCode.remove_model) name) frame x opened e idle
          answer in
      (ap (λ y. y.0) asked, ap (λ y. y.1) asked)
  agent-receives (AgentCall.update_clusters input model_id) frame x opened e idle answer =
      let asked =
        ask-answer (encoder.clusters (to_u32 RequestCode.update_clusters) (input, model_id)) frame x
          opened e idle answer in
      (ap (λ y. y.0) asked, ap (λ y. y.1) asked)
  agent-receives (AgentCall.update_model model) frame x opened e idle answer =
      let asked =
        ask-answer (encoder.bytes (to_u32 RequestCode.update_model) model) frame x opened e idle
          answer in
      (ap (λ y. y.0) asked, ap (λ y. y.1) asked)
  agent-receives (AgentCall.update_outliers outliers model_id timestamp) frame x opened e idle
        answer =
      let asked =
        ask-answer
          (encoder.outliers (to_u32 RequestCode.update_outliers) (outliers, model_id, timestamp))
          frame x opened e idle answer in
      (ap (λ y. y.0) asked, ap (λ y. y.1) asked)
  agent-receives (AgentCall.insert_event_labels model_id round labels) frame x opened e idle
        answer =
      let asked =
        ask-answer
          (encoder.event_labels (to_u32 RequestCode.insert_event_labels) (model_id, round, labels))
          frame x opened e idle answer in
      (ap (λ y. y.0) asked, ap (λ y. y.1) asked)
  agent-receives (AgentCall.insert_data_source source) frame x opened e idle answer =
      let asked =
        ask-answer (encoder.data_source (to_u32 RequestCode.insert_data_source) source) frame x
          opened e idle answer in
      (ap (λ y. y.0) asked, ap (λ y. y.1) asked)
  agent-receives (AgentCall.get_outliers model_id timestamp) frame x opened e idle answer =
      let asked =
        ask-answer (encoder.model_at (to_u32 RequestCode.get_outliers) (model_id, timestamp)) frame
          x opened e idle answer in
      (ap (λ y. y.0) asked, ap (λ y. y.1) asked)
  agent-receives (AgentCall.update_host_ports hosts) frame x opened e idle answer =
      let asked =
        ask-answer (encoder.host_ports (to_u32 RequestCode.update_host_opened_ports) hosts) frame x
          opened e idle answer in
      (ap (λ y. y.0) asked, ap (λ y. y.1) asked)
  agent-receives (AgentCall.update_host_user_agents hosts) frame x opened e idle answer =
      let asked =
        ask-answer (encoder.host_user_agents (to_u32 RequestCode.update_host_os_agents) hosts) frame
          x opened e idle answer in
      (ap (λ y. y.0) asked, ap (λ y. y.1) asked)
