-- ===== src/Request/Package/Exchange.antt =====
-- `dispatch_node_package` of request.rs: what an install answers, and where it leaves the stream.
use mathlib.Core.Path.{ap₂}
use mathlib.Core.List.{append_assoc, append_cancel_left}
use review_protocol.Prelude.{
  ℕ, ◌<◌, ◌≡◌, refl, sym, ap, ◌∙◌, true, false, Result, ok, err, List, [], ◌∷◌, ◌++◌, All, arith,
}
use review_protocol.ProtocolError.{IoError}
use review_protocol.Wire.{Bytes, RecvStream}
use review_protocol.Wire.Laws.{Reliable, send_frame-Reliable}
use review_protocol.Types.Node.Package.{
  NodePackageResponse, InstallFields, InstallPreflight, install, proceed,
}
use review_protocol.Request.PackageReader.{PackageReader, new, drain, u64_limit}
use review_protocol.Request.PackageReader.Reads.{total, received}
use review_protocol.Request.PackageReader.Transfer.{NonEmpty, transfer_ends_behind_payload}
use review_protocol.Request.Package.Received.{drained_after_run}
use review_protocol.Request.Installer.{Installer, run_installer}
use review_protocol.Request.NodeHandler.{NodeHandler, Answer, NodeReply, preflight, package_result}
use review_protocol.Request.Serve.{Agent, respond}
use review_protocol.Request.Package.{proceeds, conclude, receive_package, dispatch_node_package}
use review_protocol.Prelude.{String}

payload_drained :
    {H : Type 0} (p : Installer H) (cs : List Bytes) (rest recv : RecvStream) (size : ℕ)
    → recv ≡ received cs rest
    → total cs ≡ size
    → All NonEmpty cs
    → size < u64_limit
    → let after = drain (run_installer p (new recv size)).2 in
      (after.0 ≡ ok tt) × (after.1.recv ≡ rest)
payload_drained p cs rest recv size e q nonempty fits =
    rw (e, ← q) (transfer_ends_behind_payload p cs rest nonempty (omega arith))

conclude-ok :
    (result : Answer NodePackageResponse) (drained : Result (Unit {0}) IoError)
    → drained ≡ ok tt
    → conclude result drained ≡ result
unfolding conclude
conclude-ok result drained h = rw h

conclude-response :
    (result : Answer NodePackageResponse) (drained : Result (Unit {0}) IoError)
    (resp : NodePackageResponse)
    → conclude result drained ≡ ok resp
    → drained ≡ ok tt
unfolding conclude
conclude-response result (ok u) resp h = refl
conclude-response (ok r) (err e) resp h = cc
conclude-response (err r) (err e) resp h = cc

module _ {H : Type 0} where
  -- The state after a reply on a stream whose sends do not fail.
  abbrev pub replied : NodeReply → Agent H → Agent H
  replied reply w = record w { send = record { outcomes = []; sent = w.send.sent ++ reply ∷ [] } }

  pub respond-Reliable :
      (reply : NodeReply) (w : Agent H)
      → Reliable w.send
      → respond reply w ≡ (ok tt, replied reply w)
  unfolding respond
  respond-Reliable reply w h = rw (send_frame-Reliable reply w.send h)

module _ {H : Type 0} (handler : NodeHandler H) (f : InstallFields) (w : Agent H) where
  -- The handler's verdict, and the state behind it.
  abbrev pub verdict : Answer InstallPreflight
  verdict = (handler.node_package_install_preflight (install f) w.handler).0

  abbrev pub judged : Agent H
  judged = record w { handler = (handler.node_package_install_preflight (install f) w.handler).1 }

  -- The handler's run on the payload, its result, its state and the reader behind it.
  abbrev pub installed : Result NodePackageResponse String × H × PackageReader
  installed =
      run_installer (handler.node_package_install (install f) judged.handler) (new w.recv f.size)

  -- An install whose verdict is not to proceed, on a stream whose sends do not fail: the verdict is
  -- the only reply, the install method is not run, and nothing is taken from the receive stream.
  pub install_refused :
      Reliable w.send
      → proceeds verdict ≡ false
      → dispatch_node_package handler (install f) w ≡ (ok tt, replied (preflight verdict) judged)
  unfolding dispatch_node_package
  install_refused reliable refused =
      rw (respond-Reliable (preflight verdict) judged reliable, refused)

  pub dispatch-proceeds :
      Reliable w.send
      → proceeds verdict ≡ true
      → dispatch_node_package handler (install f) w ≡ (
        ok tt,
        record w {
          handler = installed.1;
          recv = (drain installed.2).1.recv;
          send = record {
            outcomes = [];
            sent =
                (w.send.sent ++ preflight verdict ∷ [])
                ++ package_result (conclude installed.0 (drain installed.2).0) ∷ [];
          };
        },
      )
  unfolding dispatch_node_package receive_package
  dispatch-proceeds reliable proceeding =
      let concluded = package_result (conclude installed.0 (drain installed.2).0) in
      let received_all : Agent H = record (replied (preflight verdict) judged) {
        handler = installed.1;
        recv = (drain installed.2).1.recv;
      } in
      rw (respond-Reliable (preflight verdict) judged reliable, proceeding)
        (respond-Reliable concluded received_all refl)

  -- An install that is to proceed, with its payload of the declared size at the front of the stream
  -- as frames that are not empty, and sends that do not fail: the replies are the verdict and
  -- then the result that the handler returns, and the stream stands at the frame behind the payload,
  -- whatever part of the payload the handler has read.
  pub install_answers_with_the_result :
      (cs : List Bytes) (rest : RecvStream)
      → Reliable w.send
      → verdict ≡ ok proceed
      → w.recv ≡ received cs rest
      → total cs ≡ f.size
      → All NonEmpty cs
      → f.size < u64_limit
      → let (r, w') = dispatch_node_package handler (install f) w in
        (r ≡ ok tt)
        × (w'.send.sent ≡ w.send.sent ++ preflight (ok proceed) ∷ package_result installed.0 ∷ [])
        × (w'.recv ≡ rest)
        × (w'.handler ≡ installed.1)
  unfolding proceeds
  install_answers_with_the_result cs rest reliable proceeding payload size nonempty fits =
      let p = handler.node_package_install (install f) judged.handler in
      let t = payload_drained p cs rest w.recv f.size payload size nonempty fits in
      let e = dispatch-proceeds reliable (ap proceeds proceeding) in
      (
        ap (λ x. x.0) e,
        ap (λ x. x.1.send.sent) e
            ∙ append_assoc w.send.sent (preflight verdict ∷ []) _
            ∙ ap₂ (λ v r. w.send.sent ++ preflight v ∷ package_result r ∷ []) proceeding
                (conclude-ok installed.0 (drain installed.2).0 t.0),
        ap (λ x. x.1.recv) e ∙ t.1,
        ap (λ x. x.1.handler) e,
      )

  -- A success that an install reports is never reported short: on a stream whose sends do not fail,
  -- if the terminal reply is a response of the handler and not an error, then frames of exactly the
  -- declared size have been taken from the stream, and nothing behind them.
  pub install_success_has_the_payload :
      (resp : NodePackageResponse)
      → Reliable w.send
      → verdict ≡ ok proceed
      → (dispatch_node_package handler (install f) w).1.send.sent
        ≡ w.send.sent ++ preflight (ok proceed) ∷ package_result (ok resp) ∷ []
      → (cs : List Bytes) × (w.recv
          ≡ received cs (dispatch_node_package handler (install f) w).1.recv)
        × (total cs ≡ f.size)
  unfolding proceeds new
  install_success_has_the_payload resp reliable proceeding reported =
      let p = handler.node_package_install (install f) judged.handler in
      let e = dispatch-proceeds reliable (ap proceeds proceeding) in
      let concluded = conclude installed.0 (drain installed.2).0 in
      let replies : preflight verdict ∷ package_result concluded ∷ []
          ≡ preflight (ok proceed) ∷ package_result (ok resp) ∷ [] =
        append_cancel_left w.send.sent _ _ (
          sym (append_assoc w.send.sent (preflight verdict ∷ []) (package_result concluded ∷ []))
          ∙ sym (ap (λ x. x.1.send.sent) e)
          ∙ reported) in
      let drained = conclude-response installed.0 (drain installed.2).0 resp (ground arith) in
      let (cs, frames, bytes) = drained_after_run p (new w.recv f.size) drained in
      (cs, frames ∙ ap (received cs) (sym (ap (λ x. x.1.recv) e)), bytes)
