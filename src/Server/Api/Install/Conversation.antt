-- ===== src/Server/Api/Install/Conversation.antt =====
-- Both sides of an install: `install_exchange` of server/api.rs with `dispatch_node_package` of
-- request.rs.
use mathlib.Core.List.{append_cancel_left}
use review_protocol.Prelude.{◌<◌, ◌≡◌, refl, sym, ap, ◌∙◌, ok, err, Result, List, [], ◌∷◌, ◌++◌}
use review_protocol.Wire.{Bytes, RecvStream, SendStream}
use review_protocol.Wire.Laws.{Reliable, send_frame-Reliable}
use review_protocol.Types.Node.Package.{
  InstallFields, install, InstallPreflight, proceed, NodePackageResponse,
}
use review_protocol.Request.PackageReader.{u64_limit}
use review_protocol.Request.PackageReader.Reads.{received}
use review_protocol.Request.NodeHandler.{NodeHandler, Answer, preflight, package_result}
use review_protocol.Request.Serve.{Agent}
use review_protocol.Request.Package.{dispatch_node_package}
use review_protocol.Request.Package.Exchange.{verdict, installed}
use review_protocol.Server.Api.Errors.{ApiError, text}
use review_protocol.Server.Api.SendPackage.{AsyncRead, send_package}
use review_protocol.Server.Api.SendPackage.Succeeds.{Endless, send_package_succeeds}
use review_protocol.Server.Api.SendPackage.Delivery.{sent_package_is_installed}
use review_protocol.Server.Api.Install.{
  BiStream, InstallOutcome, applied, install_exchange, after_package, receive_response,
  receive_verdict,
}

-- What the manager is to report of the handler's result.
abbrev pub reported : Answer NodePackageResponse → Result InstallOutcome ApiError
reported (ok resp) = ok (applied resp)
reported (err e) = err (text e)

receive_response-reported : (r : Answer NodePackageResponse) → receive_response (ok r) ≡ reported r
unfolding receive_response
receive_response-reported (ok resp) = refl
receive_response-reported (err e) = refl

module _ {S : Type 0} (pkg : AsyncRead S) where
  after_package-ok :
      (bi : BiStream) (x : Result (Unit {0}) ApiError × S × SendStream Bytes)
      → x.0 ≡ ok tt
      → (after_package pkg bi x).0 ≡ receive_response bi.response
  unfolding after_package
  after_package-ok bi (ok u, s, out) h = refl
  after_package-ok bi (err e, s, out) h = cc

  -- The stream after the request frame.
  abbrev pub requested : Bytes → BiStream → BiStream
  requested buf bi = record bi { send = record { outcomes = []; sent = bi.send.sent ++ buf ∷ [] } }

  exchange-proceeds :
      (buf : Bytes) (bi : BiStream) (f : InstallFields) (s : S)
      → Reliable bi.send
      → bi.verdict ≡ ok (ok proceed)
      → (send_package pkg f.size s (requested buf bi).send).0 ≡ ok tt
      → (install_exchange pkg (ok buf) (ok bi) f.size s).0 ≡ receive_response bi.response
  unfolding install_exchange receive_verdict
  exchange-proceeds buf bi f s reliable proceeding success =
      rw (send_frame-Reliable buf bi.send reliable) (
        ap (λ x. (receive_verdict pkg f.size s (requested buf bi) x).0) proceeding
        ∙ after_package-ok (requested buf bi) (send_package pkg f.size s (requested buf bi).send)
            success)

  module _ {H : Type 0} (handler : NodeHandler H) where
    -- A whole install. The manager sends the request and, on the verdict to proceed, the package
    -- from a source that always has a byte to give. The agent, whose verdict is to proceed, receives
    -- the frames behind the request, with anything behind them, and the manager receives the two
    -- frames that the agent answers. If no send fails, the manager reports the response that the
    -- agent's handler returned as applied, or its error text as the error, and the agent's stream
    -- stands behind the payload.
    pub install_conversation :
        (f : InstallFields) (s : S) (buf : Bytes) (bi : BiStream) (chunks : List Bytes)
        (rest : RecvStream) (w : Agent H) (v : Answer InstallPreflight)
        (r : Answer NodePackageResponse)
        → f.size < u64_limit
        → Endless pkg
        → Reliable bi.send
        → Reliable w.send
        → verdict handler f w ≡ ok proceed
        → (send_package pkg f.size s (requested buf bi).send).2.sent
          ≡ (requested buf bi).send.sent ++ chunks
        → w.recv ≡ received chunks rest
        → (dispatch_node_package handler (install f) w).1.send.sent
          ≡ w.send.sent ++ preflight v ∷ package_result r ∷ []
        → bi.verdict ≡ ok v
        → bi.response ≡ ok r
        → ((install_exchange pkg (ok buf) (ok bi) f.size s).0 ≡ reported (installed handler f w).0)
          × ((dispatch_node_package handler (install f) w).1.recv ≡ rest)
    install_conversation f s buf bi chunks rest w v r fits endless reliable answers proceeding sent
          arrived replies verdict_arrived response_arrived =
        let success = (send_package_succeeds pkg f.size s (requested buf bi).send endless refl).0 in
        let (done, frames, behind, state) =
          sent_package_is_installed pkg handler f s (requested buf bi).send chunks rest w fits
            success sent answers proceeding arrived in
        let same : preflight v ∷ package_result r ∷ []
            ≡ preflight (ok proceed) ∷ package_result (installed handler f w).0 ∷ [] =
          append_cancel_left w.send.sent _ _ (sym replies ∙ frames) in
        let v_proceeds : v ≡ ok proceed = cc in
        let r_installed : r ≡ (installed handler f w).0 = cc in
        (
          exchange-proceeds buf bi f s reliable (verdict_arrived ∙ ap ok v_proceeds) success
              ∙ ap (receive_response) (response_arrived ∙ ap ok r_installed)
              ∙ receive_response-reported (installed handler f w).0,
          behind,
        )
