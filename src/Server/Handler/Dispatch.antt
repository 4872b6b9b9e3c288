-- ===== src/Server/Handler/Dispatch.antt =====
-- The `match` on the request code in server/handler.rs, which `handle_authorized` and
-- `handle_authorized_with_context` both have.
use review_protocol.Prelude.{ℕ, String, Result, ok, err, Option, none, some}
use review_protocol.ProtocolError.{
  IoError, io_error, invalid_data, invalid_args, not_supported, dispatch, from_io, new,
}
use review_protocol.Wire.{Bytes, send_frame}
use review_protocol.Prelude.{map_ok, map_err, and_then}
use review_protocol.Codes.Server.{RequestCode}
use review_protocol.Server.Handler.{Handler, ServerCodec, ServerReply, Manager, Answer}

-- `io::Error::new(kind, DispatchError::new(..))` for an unknown request code.
unfoldable pub unknown_code : IoError
unfolding new
unknown_code = io_error invalid_data (dispatch (new not_supported "unknown request code"))

-- `parse_args(..).map_err(|e| DispatchError::from_io(InvalidArgs, &e))`
unfoldable pub as_invalid_args : {A : Type 0} → Result A IoError → Result A IoError
unfolding from_io
as_invalid_args r = map_err (from_io invalid_args) r

-- A step gives a request to hand over to the caller, or `none` to go on, or fails.
abbrev pub Outcome : Type 0 → Type 0 → Type 0
Outcome Net H = Result (Option (ℕ × Bytes)) IoError × Manager Net H

module _ {Net H : Type 0} where
  -- `send_response(..).await?`
  unfoldable pub answer : ServerReply Net → Manager Net H → Outcome Net H
  answer reply w =
      let (r, s) = send_frame reply w.send in (map_ok (λ u. none) r, record w { send = s })

  -- The method of the handler on arguments that were parsed, and its answer.
  unfoldable pub serve :
      {A T : Type 0}
      → Result A IoError
      → (A → H → Answer T × H)
      → (Answer T → ServerReply Net)
      → Manager Net H
      → Outcome Net H
  unfolding answer
  serve (ok args) method reply w =
      let (result, h) = method args w.handler in answer (reply result) (record w { handler = h })
  serve (err e) method reply w = (err e, w)

  -- After the answer to an unknown code the loop fails.
  unfoldable pub refuse : IoError → ServerReply Net → Manager Net H → Outcome Net H
  refuse e reply w =
      let (r, s) = send_frame reply w.send in (and_then r (λ u. err e), record w { send = s })

module _ {Net Stats H : Type 0} (handler : Handler Net Stats H) (codec : ServerCodec Stats) where
  unfoldable pub dispatch_request : String → RequestCode → ℕ → Bytes → Manager Net H → Outcome Net H
  unfolding serve as_invalid_args refuse unknown_code
  dispatch_request peer RequestCode.get_allowlist code body w =
      serve (codec.parse_unit body) (λ u. handler.get_allowlist peer) ServerReply.network_group w
  dispatch_request peer RequestCode.get_blocklist code body w =
      serve (codec.parse_unit body) (λ u. handler.get_blocklist peer) ServerReply.network_group w
  dispatch_request peer RequestCode.get_data_source code body w =
      serve (codec.parse_data_source_key body) handler.get_data_source ServerReply.data_source w
  dispatch_request peer RequestCode.get_indicator code body w =
      serve (codec.parse_string body) handler.get_indicator ServerReply.indicator w
  dispatch_request peer RequestCode.get_model code body w =
      serve (as_invalid_args (codec.parse_string body)) handler.get_model ServerReply.model w
  dispatch_request peer RequestCode.get_model_names code body w =
      serve (codec.parse_unit body) (λ u. handler.get_model_names) ServerReply.texts w
  dispatch_request peer RequestCode.get_label_db_patterns code body w =
      serve (codec.parse_string_pairs body) handler.get_labeldb_patterns ServerReply.label_dbs w
  dispatch_request peer RequestCode.get_tor_exit_node_list code body w =
      serve (codec.parse_unit body) (λ u. handler.get_tor_exit_node_list) ServerReply.texts w
  dispatch_request peer RequestCode.get_trusted_domain_list code body w =
      serve (codec.parse_unit body) (λ u. handler.get_trusted_domain_list) ServerReply.texts w
  dispatch_request peer RequestCode.get_trusted_user_agent_list code body w =
      serve (codec.parse_unit body) (λ u. handler.get_trusted_user_agent_list) ServerReply.texts w
  dispatch_request peer RequestCode.get_config code body w =
      serve (codec.parse_unit body) (λ u. handler.get_config peer) ServerReply.text w
  dispatch_request peer RequestCode.get_internal_network_list code body w =
      serve (codec.parse_unit body) (λ u. handler.get_internal_network_list peer)
        ServerReply.network_group w
  dispatch_request peer RequestCode.get_outliers code body w =
      serve (as_invalid_args (codec.parse_model_at body)) (λ x. handler.get_outliers x.0 x.1)
        ServerReply.outliers w
  dispatch_request peer RequestCode.get_pretrained_model code body w =
      serve (codec.parse_string body) handler.get_pretrained_model ServerReply.model w
  dispatch_request peer RequestCode.get_sampling_policy_list code body w =
      serve (codec.parse_unit body) (λ u. handler.get_sampling_policy_list peer)
        ServerReply.sampling_policies w
  dispatch_request peer RequestCode.insert_column_statistics code body w =
      serve (codec.parse_column_statistics body) (λ x. handler.insert_column_statistics x.0 x.1 x.2)
        ServerReply.done w
  dispatch_request peer RequestCode.insert_data_source code body w =
      serve (codec.parse_data_source body) handler.insert_data_source ServerReply.id w
  dispatch_request peer RequestCode.insert_event_labels code body w =
      serve (codec.parse_event_labels body) (λ x. handler.insert_event_labels x.0 x.1 x.2)
        ServerReply.done w
  dispatch_request peer RequestCode.insert_model code body w =
      serve (codec.parse_bytes body) handler.insert_model ServerReply.id w
  dispatch_request peer RequestCode.insert_time_series code body w =
      serve (codec.parse_time_series body) (λ x. handler.insert_time_series x.0 x.1 x.2)
        ServerReply.done w
  dispatch_request peer RequestCode.remove_model code body w =
      serve (codec.parse_string body) handler.remove_model ServerReply.done w
  dispatch_request peer RequestCode.renew_certificate code body w =
      serve (ok tt) (λ u. handler.renew_certificate peer) ServerReply.certificate w
  dispatch_request peer RequestCode.report_customer_data_deletion code body w =
      serve (codec.parse_deletion_report body) handler.report_customer_data_deletion
        ServerReply.done w
  dispatch_request peer RequestCode.update_clusters code body w =
      serve (codec.parse_clusters body) (λ x. handler.update_clusters x.0 x.1) ServerReply.done w
  dispatch_request peer RequestCode.update_model code body w =
      serve (codec.parse_bytes body) handler.update_model ServerReply.id w
  dispatch_request peer RequestCode.update_outliers code body w =
      serve (codec.parse_outliers body) (λ x. handler.update_outliers x.0 x.1 x.2) ServerReply.done
        w
  dispatch_request peer RequestCode.update_host_opened_ports code body w =
      serve (codec.parse_host_ports body) (handler.update_host_ports peer) ServerReply.done w
  dispatch_request peer RequestCode.update_host_os_agents code body w =
      serve (codec.parse_host_user_agents body) (handler.update_host_user_agents peer)
        ServerReply.done w
  dispatch_request peer RequestCode.upload_run_model code body w =
      serve (codec.parse_run_model body) (λ x. handler.upload_run_model peer x.0 x.1)
        ServerReply.done w
  dispatch_request peer RequestCode.report_run code body w =
      serve (codec.parse_run_report body) (λ x. handler.report_run peer x.0 x.1 x.2)
        ServerReply.done w
  dispatch_request peer RequestCode.report_active_runs code body w =
      serve (codec.parse_ids body) (handler.report_active_runs peer) ServerReply.done w
  dispatch_request peer RequestCode.report_detector_status code body w =
      serve (codec.parse_detector_report body) (handler.report_detector_status peer)
        ServerReply.done w
  dispatch_request peer RequestCode.unknown code body w =
      refuse unknown_code (ServerReply.done (err "unknown request code")) w
  dispatch_request peer _ code body w = (ok (some (code, body)), w)
