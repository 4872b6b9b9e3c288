-- ===== src/Server/Api/Install.antt =====
-- The manager's side of an install, server/api.rs: `install_exchange` and the methods that call it,
-- with their outcomes of server/node.rs.
pub mod Refusals
pub mod Conversation
use review_protocol.Prelude.{ℕ, String, Bool, true, false, Result, ok, err, Option, none, some}
use review_protocol.ProtocolError.{IoError}
use review_protocol.Wire.{Bytes, SendStream, send_frame}
use review_protocol.ServiceId.{ServiceId}
use review_protocol.ServiceId.Requests.{node_package_service_id}
use review_protocol.Auth.{
  Authorizer, AuthorizerV2, AuthorizationError, PeerContext, AuthorizationContext,
}
use review_protocol.Types.Node.Package.{
  NodePackageRequest, install, NodePackageResponse, InstallPreflight, proceed,
}
use review_protocol.Types.Node.Package
use review_protocol.Request.NodeHandler.{Answer}
use review_protocol.Server.Api.Errors.{ApiError, io, context, text, denied}
use review_protocol.Server.Api.SendPackage.{AsyncRead, send_package}

-- `insufficient_disk_space` carries the file system, and the bytes required and available.
pub data TerminalPreflight : Type 0 where
  already_applied : TerminalPreflight
  insufficient_disk_space : String → ℕ → ℕ → TerminalPreflight
  bind_addrs_on_update namespace_unconfigured enrollment_unsupported : TerminalPreflight
  config_template_on_update : TerminalPreflight
  unknown_config_template : String → TerminalPreflight

pub data InstallOutcome : Type 0 where
  preflight : TerminalPreflight → InstallOutcome
  applied : NodePackageResponse → InstallOutcome

-- The `match` on the verdict: every verdict but `proceed` ends the exchange.
unfoldable pub terminal : InstallPreflight → Option TerminalPreflight
terminal Package.InstallPreflight.proceed = none
terminal Package.InstallPreflight.already_applied = some already_applied
terminal (Package.InstallPreflight.insufficient_disk_space filesystem required available) =
    some (insufficient_disk_space filesystem required available)
terminal Package.InstallPreflight.bind_addrs_on_update = some bind_addrs_on_update
terminal Package.InstallPreflight.namespace_unconfigured = some namespace_unconfigured
terminal Package.InstallPreflight.enrollment_unsupported = some enrollment_unsupported
terminal Package.InstallPreflight.config_template_on_update = some config_template_on_update
terminal (Package.InstallPreflight.unknown_config_template id) = some (unknown_config_template id)

unfoldable pub reject_install : NodePackageRequest → Result (Unit {0}) ApiError
reject_install (install f) =
    err (text "an install request carries a payload; use `node_package_install`")
reject_install _ = ok tt

unfoldable pub install_size : NodePackageRequest → Result ℕ ApiError
install_size (install f) = ok f.size
install_size _ =
    err (text "`node_package_install` accepts only an install request; use `node_package`")

-- The two halves of the stream that `open_bi` opens: what is sent, whether the send half was
-- reset, and what the two receives return, with the decoding that oinq provides.
pub record BiStream : Type 0 where
  pub send : SendStream Bytes
  pub was_reset : Bool
  pub verdict : Result (Answer InstallPreflight) IoError
  pub response : Result (Answer NodePackageResponse) IoError

unfoldable pub receive_response :
    Result (Answer NodePackageResponse) IoError → Result InstallOutcome ApiError
receive_response (ok (ok resp)) = ok (applied resp)
receive_response (ok (err e)) = err (text e)
receive_response (err e) = err (context "receiving the install response" e)

module _ {S : Type 0} (pkg : AsyncRead S) where
  -- The result, the source behind the exchange, and the stream, if one was opened.
  abbrev pub Exchanged : Type 0
  Exchanged = Result InstallOutcome ApiError × S × Option BiStream

  -- After `send_package`: an aborted transfer resets the stream, and no response is awaited.
  unfoldable pub after_package :
      BiStream → Result (Unit {0}) ApiError × S × SendStream Bytes → Exchanged
  unfolding receive_response
  after_package bi (ok u, s, out) =
      (receive_response bi.response, s, some (record bi { send = out }))
  after_package bi (err e, s, out) = (err e, s, some (record bi { send = out; was_reset = true }))

  -- After the verdict was received.
  unfoldable pub after_preflight : ℕ → S → BiStream → Option TerminalPreflight → Exchanged
  unfolding after_package
  after_preflight size s bi (some t) = (ok (preflight t), s, some bi)
  after_preflight size s bi none = after_package bi (send_package pkg size s bi.send)

  unfoldable pub receive_verdict :
      ℕ → S → BiStream → Result (Answer InstallPreflight) IoError → Exchanged
  unfolding after_preflight terminal
  receive_verdict size s bi (ok (ok v)) = after_preflight size s bi (terminal v)
  receive_verdict size s bi (ok (err e)) = (err (text e), s, some bi)
  receive_verdict size s bi (err e) =
      (err (context "receiving the install preflight verdict" e), s, some bi)

  -- After the request frame was sent.
  unfoldable pub after_request_sent : ℕ → S → BiStream → Result (Unit {0}) IoError → Exchanged
  unfolding receive_verdict
  after_request_sent size s bi (ok u) = receive_verdict size s bi bi.verdict
  after_request_sent size s bi (err e) = (err (io e), s, some bi)

  -- `encoded` is what `encode_request` gives for the request, `opened` what `open_bi` gives.
  unfoldable pub install_exchange :
      Result Bytes ApiError → Result BiStream IoError → ℕ → S → Exchanged
  unfolding after_request_sent
  install_exchange (err e) opened size s = (err e, s, none)
  install_exchange (ok buf) (err e) size s = (err (io e), s, none)
  install_exchange (ok buf) (ok bi) size s =
      let (r, out) = send_frame buf bi.send in
      after_request_sent size s (record bi { send = out }) r

  unfoldable pub node_package_install :
      (NodePackageRequest → Result Bytes ApiError)
      → NodePackageRequest
      → Result BiStream IoError
      → S
      → Exchanged
  unfolding install_size install_exchange
  node_package_install encode req opened s = elim (install_size req) [
    | ok size ↦ install_exchange (encode req) opened size s
    | err e ↦ (err e, s, none)
  ]

  -- `authorize(..).map_err(|e| anyhow!(e))?` before the exchange.
  unfoldable pub when_permitted : Result (Unit {0}) AuthorizationError → S → Exchanged → Exchanged
  when_permitted (ok u) s x = x
  when_permitted (err e) s x = (err (denied e), s, none)

  unfoldable pub node_package_install_authorized :
      PeerContext
      → Authorizer
      → (NodePackageRequest → Result Bytes ApiError)
      → NodePackageRequest
      → Result BiStream IoError
      → S
      → Exchanged
  unfolding install_size install_exchange when_permitted
  node_package_install_authorized p authorizer encode req opened s = elim (install_size req) [
    | ok size ↦
        when_permitted (authorizer.authorize p (node_package_service_id req)) s
          (install_exchange (encode req) opened size s)
    | err e ↦ (err e, s, none)
  ]

  unfoldable pub node_package_install_with_context :
      AuthorizationContext
      → AuthorizerV2
      → (NodePackageRequest → Result Bytes ApiError)
      → NodePackageRequest
      → Result BiStream IoError
      → S
      → Exchanged
  unfolding install_size install_exchange when_permitted
  node_package_install_with_context ctx authorizer encode req opened s = elim (install_size req) [
    | ok size ↦
        when_permitted (authorizer.authorize_with_context ctx (node_package_service_id req)) s
          (install_exchange (encode req) opened size s)
    | err e ↦ (err e, s, none)
  ]
