-- ===== src/Server/Api/Install/Refusals.antt =====
-- The manager's side of an install, server/api.rs: the ends of the exchange without a transfer.
use review_protocol.Prelude.{
  ℕ, false, ◌≡◌, ◌≢◌, refl, ap, Result, ok, err, none, some, [], ◌∷◌, ◌++◌,
}
use review_protocol.ProtocolError.{IoError}
use review_protocol.Wire.{Bytes}
use review_protocol.Wire.Laws.{Reliable, send_frame-Reliable}
use review_protocol.ServiceId.Requests.{node_package_service_id}
use review_protocol.Auth.{Authorizer, AuthorizationError, PeerContext}
use review_protocol.Request.Handle.Service.{is_install}
use review_protocol.Types.Node.Package.{
  InstallFields, NodePackageRequest, InstallPreflight, proceed, install,
}
use review_protocol.Types.Node.Package
use review_protocol.Request.NodeHandler.{Answer}
use review_protocol.Server.Api.Errors.{ApiError, text, denied}
use review_protocol.Server.Api.SendPackage.{AsyncRead}
use review_protocol.Server.Api.Install.{
  BiStream, install_exchange, receive_verdict, when_permitted, node_package_install_authorized,
}

-- Why `node_package_install_authorized` refuses a request, and the error that it returns.
pub data Refused (p : PeerContext) (authorizer : Authorizer)
    : NodePackageRequest → ApiError → Type 0 where
  by_authorizer :
      (f : InstallFields) (e : AuthorizationError)
      → authorizer.authorize p (node_package_service_id (install f)) ≡ err e
      → Refused p authorizer (install f) (denied e)
  by_kind :
      (req : NodePackageRequest)
      → is_install req ≡ false
      → Refused p authorizer req
          (text "`node_package_install` accepts only an install request; use `node_package`")

module _ {S : Type 0} (pkg : AsyncRead S) where
  -- An install that the authorizer denies to the peer fails with the denial, and a request that is
  -- not an install with the text that says so, whatever the authorizer answers: no stream is opened,
  -- and nothing is read from the package source.
  pub install_without_permission_is_inert :
      (p : PeerContext) (authorizer : Authorizer)
      (encode : NodePackageRequest → Result Bytes ApiError) (req : NodePackageRequest)
      (opened : Result BiStream IoError) (s : S) (a : ApiError)
      → Refused p authorizer req a
      → node_package_install_authorized pkg p authorizer encode req opened s ≡ (err a, s, none)
  unfolding node_package_install_authorized
  install_without_permission_is_inert p authorizer encode _ opened s _ (by_authorizer f e h) =
      ap
        (λ verdict.
          when_permitted pkg verdict s (install_exchange pkg (encode (install f)) opened f.size s))
        h
  install_without_permission_is_inert p authorizer encode (install f) opened s _ (by_kind _ h) = cc
  install_without_permission_is_inert p authorizer encode _ opened s _ (by_kind _ h) = refl

  untouched :
      (size : ℕ) (s : S) (bi : BiStream) (received : Result (Answer InstallPreflight) IoError)
      → received ≢ ok (ok proceed)
      → let x = receive_verdict pkg size s bi received in (x.1 ≡ s) × (x.2 ≡ some bi)
  unfolding receive_verdict
  untouched size s bi (ok (ok Package.InstallPreflight.proceed)) h = absurd (h refl)
  untouched size s bi (ok (ok _)) h = (refl, refl)
  untouched size s bi (ok (err e)) h = (refl, refl)
  untouched size s bi (err e) h = (refl, refl)

  -- Unless the verdict that arrives is to proceed, the request is the only frame that is sent, the
  -- package source is not read, and the stream is not reset. The sends do not fail.
  pub no_transfer_without_proceed :
      (buf : Bytes) (bi : BiStream) (size : ℕ) (s : S)
      → Reliable bi.send
      → bi.verdict ≢ ok (ok proceed)
      → let x = install_exchange pkg (ok buf) (ok bi) size s in
        (x.1 ≡ s)
        × (x.2
            ≡ some (record bi { send = record { outcomes = []; sent = bi.send.sent ++ buf ∷ [] } }))
  unfolding install_exchange
  no_transfer_without_proceed buf bi size s reliable other =
      rw (send_frame-Reliable buf bi.send reliable) (
        untouched size s
          (record bi { send = record { outcomes = []; sent = bi.send.sent ++ buf ∷ [] } })
          bi.verdict other)
