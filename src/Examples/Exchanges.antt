-- ===== src/Examples/Exchanges.antt =====
-- The manager's side of an install of three bytes, and of a power request.
use review_protocol.Prelude.{
  ℕ, ◌≡◌, refl, map_ok, if◌then◌else◌, ◌++◌, true, false, ok, err, none, some, List, [], ◌∷◌, arith,
}
use review_protocol.Wire.{Bytes, send_frame}
use review_protocol.Auth.{peer}
use review_protocol.Types.Node.Observation.{NodePowerResponse, graceful_reboot}
use review_protocol.Types.Node.Package.{install, proceed, done, namespace_unconfigured}
use review_protocol.Request.PackageReader.Reads.{received}
use review_protocol.Request.PackageReader.{new, next_chunk, drain}
use review_protocol.Request.Installer.{run_installer}
use review_protocol.Request.NodeHandler.{preflight, package_result, node_power_expects_response}
use review_protocol.Request.Serve.{Agent, respond}
use review_protocol.Request.Package.{dispatch_node_package, receive_package, proceeds, conclude}
use review_protocol.Request.Package.Exchange.{installed}
use review_protocol.Server.Api.Errors.{denied}
use review_protocol.Server.Api.SendPackage.{send_package}
use review_protocol.Server.Api.Install.{BiStream, install_exchange, node_package_install_authorized}
use review_protocol.Server.Api.Install.Refusals.{
  install_without_permission_is_inert, by_authorizer, no_transfer_without_proceed,
}
use review_protocol.Server.Api.Install.Conversation.{install_conversation, reported}
use review_protocol.Server.Api.Requests.{Stream, node_power, response, sent, receive}
use review_protocol.Server.Api.Requests.Laws.{power_waits_for_what_is_answered, after_frame}
use review_protocol.Examples.Samples.{
  behind, fields, handler, idle, agent, source, zeros, zeros-Endless,
}
use review_protocol.Examples.Managers.{nothing, no_reason}
use review_protocol.Types.Node.Observation.{initiated}

abbrev frame : Bytes
frame = 109 ∷ []

abbrev stream : BiStream
stream = record {
  send = idle;
  was_reset = false;
  verdict = ok (ok proceed);
  response = ok (ok done);
}

abbrev zero_chunk : List Bytes
zero_chunk = (0 ∷ 0 ∷ 0 ∷ []) ∷ []

abbrev receiving_zeros : Agent ℕ
receiving_zeros = record agent { recv = received zero_chunk behind }

sent_zeros :
    (send_package zeros 3 tt (record { outcomes = []; sent = frame ∷ [] })).2.sent
    ≡ (frame ∷ []) ++ zero_chunk
unfolding send_package send_frame
sent_zeros = refl

zeros_reported :
    (dispatch_node_package handler (install fields) receiving_zeros).1.send.sent
    ≡ preflight (ok proceed) ∷ package_result (ok done) ∷ []
unfolding dispatch_node_package receive_package respond drain next_chunk new run_installer conclude
    handler proceeds send_frame
zeros_reported = refl

install_conversation_example :
    ((install_exchange zeros (ok frame) (ok stream) 3 tt).0
      ≡ reported (installed handler fields receiving_zeros).0)
    × ((dispatch_node_package handler (install fields) receiving_zeros).1.recv ≡ behind)
unfolding handler
install_conversation_example =
    install_conversation zeros handler fields tt frame stream zero_chunk behind receiving_zeros
      (ok proceed) (ok done) (omega arith) zeros-Endless refl refl refl sent_zeros refl
      zeros_reported refl refl

abbrev refusing : BiStream
refusing = record stream { verdict = ok (ok namespace_unconfigured) }

no_transfer_without_proceed_example :
    ((install_exchange source (ok frame) (ok refusing) 3 (1 ∷ [])).1 ≡ 1 ∷ [])
    × ((install_exchange source (ok frame) (ok refusing) 3 (1 ∷ [])).2
        ≡ some (record refusing { send = record { outcomes = []; sent = frame ∷ [] } }))
no_transfer_without_proceed_example =
    no_transfer_without_proceed source frame refusing 3 (1 ∷ []) refl (λ e. cc)

install_without_permission_is_inert_example :
    node_package_install_authorized source
      (peer "a")
      nothing
      (λ r. ok frame)
      (install fields)
      (ok stream)
      (1 ∷ [])
    ≡ (err (denied no_reason), 1 ∷ [], none)
install_without_permission_is_inert_example =
    install_without_permission_is_inert source (peer "a") nothing (λ r. ok frame) (install fields)
      (ok stream) (1 ∷ []) (denied no_reason) (by_authorizer fields no_reason refl)

abbrev power_stream : NodePowerResponse → Stream NodePowerResponse
power_stream resp = record { send = idle; finished = false; response = ok (ok resp) }

abbrev accepted : NodePowerResponse
accepted = initiated

power_waits_for_what_is_answered_example :
    let x = node_power (λ r. ok frame) graceful_reboot (ok (power_stream accepted)) in
    (x.0 ≡ (
      if node_power_expects_response graceful_reboot
      then map_ok response (receive (ok (ok accepted)))
      else ok sent))
    × (x.1
        ≡ some (record (power_stream accepted) {
          send = after_frame frame (power_stream accepted);
          finished = if node_power_expects_response graceful_reboot then false else true;
        }))
power_waits_for_what_is_answered_example =
    power_waits_for_what_is_answered (λ r. ok frame) graceful_reboot frame (power_stream accepted)
      refl refl
