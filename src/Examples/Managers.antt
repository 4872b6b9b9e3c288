-- ===== src/Examples/Managers.antt =====
-- A manager that serves certificates, with an authorizer that permits nothing but configurations.
use review_protocol.Prelude.{ℕ, ◌≡◌, refl, ◌∙◌, Result, ok, err, some, [], ◌∷◌}
use review_protocol.ProtocolError.{
  IoError, error_kind, permission_denied, of_io_error, forbidden, display,
}
use review_protocol.Wire.{Bytes}
use review_protocol.Codes.Server.{RequestCode, from_primitive}
use review_protocol.ServiceId.ServerCodes.{from_server_request_code}
use review_protocol.ServiceId.ServerIds.{server_config_get}
use review_protocol.Auth.{
  Authorizer, AuthorizationError, peer, adapter, from_peer_context, noop_authorizer,
  denial_to_string,
}
use review_protocol.Server.Handler.{Handler, ServerCodec, ServerReply, Manager, default_handler}
use review_protocol.Server.Handler.Dispatch.{dispatch_request}
use review_protocol.Server.Handler.Authorized.{
  check, denied, serve_request, serve_requests, handle_authorized, handle_authorized_with_context,
}
use review_protocol.Server.Handler.Authorized.Runs.{Runs, serve_requests-Runs}
use review_protocol.Server.Handler.Authorized.Permits.{
  only_permitted_requests_act, denied_request_is_refused, Kept,
}
use review_protocol.Server.Handler.Authorized.Adapter.{adapted_authorizer_serves_the_same}
use review_protocol.Server.Handler.Authorized.Refusals.{
  peer_without_permission_is_inert, permitted-inert,
}
use review_protocol.Server.Handler.Authorized.Answers.{request_answered_once, Fate}
use review_protocol.Examples.Samples.{idle, split, bad_data}
use review_protocol.Prelude.{suc}

abbrev undecodable : {T : Type 0} → Bytes → Result T IoError
undecodable body = err bad_data

abbrev pub codec : ServerCodec ℕ
codec = record {
  split_request = split;
  parse_unit = λ body. ok tt;
  parse_data_source_key = undecodable;
  parse_string = undecodable;
  parse_string_pairs = undecodable;
  parse_model_at = undecodable;
  parse_column_statistics = undecodable;
  parse_data_source = undecodable;
  parse_event_labels = undecodable;
  parse_bytes = undecodable;
  parse_time_series = undecodable;
  parse_deletion_report = undecodable;
  parse_clusters = undecodable;
  parse_outliers = undecodable;
  parse_host_ports = undecodable;
  parse_host_user_agents = undecodable;
  parse_run_model = undecodable;
  parse_run_report = undecodable;
  parse_ids = undecodable;
  parse_detector_report = undecodable;
}

-- It counts the configurations that it hands out.
unfoldable pub handler : Handler ℕ ℕ ℕ
unfolding default_handler
handler = record default_handler { get_config = λ p h. (ok "config", suc h) }

abbrev pub manager : Manager ℕ ℕ
manager = record { handler = 0; send = idle; recv = ok (36 ∷ []) ∷ [] }

abbrev pub no_reason : AuthorizationError
no_reason = record { reason = "no" }

abbrev pub nothing : Authorizer
nothing = record { authorize = λ p id. err no_reason }

serve_requests-Runs_example :
    Runs handler codec
      (noop_authorizer.authorize (peer "a"))
      "a"
      manager
      (serve_requests handler codec (noop_authorizer.authorize (peer "a")) "a" manager)
serve_requests-Runs_example =
    serve_requests-Runs handler codec (noop_authorizer.authorize (peer "a")) "a" manager

keeps_zero : Kept handler codec (nothing.authorize (peer "a")) (peer "a").name (λ h. h ≡ 0)
keeps_zero code body v permitted same =
    permitted-inert handler codec nothing (peer "a")
      (from_server_request_code (from_primitive code)) (from_primitive code) code body v refl
      (λ id. (no_reason, refl)) permitted
    ∙ same

only_permitted_requests_act_example :
    (handle_authorized handler codec (peer "a") nothing manager).1.handler ≡ 0
only_permitted_requests_act_example =
    only_permitted_requests_act handler codec nothing (peer "a") (λ h. h ≡ 0) manager keeps_zero
      refl

peer_without_permission_is_inert_example :
    (handle_authorized handler codec (peer "a") nothing manager).1.handler ≡ 0
peer_without_permission_is_inert_example =
    peer_without_permission_is_inert handler codec nothing (peer "a") manager
      (λ id. (no_reason, refl))

named_example : from_server_request_code RequestCode.get_config ≡ some server_config_get
unfolding from_server_request_code
named_example = refl

denied_request_is_refused_example :
    (serve_request handler codec
        (nothing.authorize (peer "a"))
        "a"
        (check (nothing.authorize (peer "a")) RequestCode.get_config)
        RequestCode.get_config
        36
        []
        manager
      ≡ (
        err (denied no_reason),
        record manager {
          send = record {
            outcomes = [];
            sent = ServerReply.done (err "authorization denied") ∷ [];
          };
        },
      ))
    × (error_kind (denied no_reason) ≡ permission_denied)
    × (of_io_error (denied no_reason) ≡ forbidden)
    × (display (denied no_reason) ≡ denial_to_string no_reason)
denied_request_is_refused_example =
    denied_request_is_refused handler codec (nothing.authorize (peer "a")) "a"
      RequestCode.get_config 36 [] manager server_config_get no_reason refl named_example refl

adapted_authorizer_serves_the_same_example :
    handle_authorized_with_context handler codec
      (from_peer_context (peer "a"))
      (adapter nothing)
      manager
    ≡ handle_authorized handler codec (peer "a") nothing manager
adapted_authorizer_serves_the_same_example =
    adapted_authorizer_serves_the_same handler codec (peer "a") nothing manager

request_answered_once_example :
    Fate handler codec RequestCode.get_config 36 [] manager
      (dispatch_request handler codec "a" RequestCode.get_config 36 [] manager)
request_answered_once_example =
    request_answered_once handler codec "a" RequestCode.get_config 36 [] manager refl
