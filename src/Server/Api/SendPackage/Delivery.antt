-- ===== src/Server/Api/SendPackage/Delivery.antt =====
-- `send_package` of server/api.rs against `dispatch_node_package` of request.rs: what the manager
-- sends is what the agent takes as the payload.
use review_protocol.Prelude.{◌<◌, ◌≡◌, sym, ◌∙◌, ok, List, [], ◌∷◌, ◌++◌, All}
use mathlib.Core.List.{append_cancel_left}
use review_protocol.Wire.{Bytes, RecvStream, SendStream}
use review_protocol.Wire.Laws.{Reliable}
use review_protocol.Types.Node.Package.{InstallFields, install, proceed}
use review_protocol.Request.PackageReader.{u64_limit}
use review_protocol.Request.PackageReader.Reads.{received}
use review_protocol.Request.PackageReader.Transfer.{NonEmpty}
use review_protocol.Request.NodeHandler.{NodeHandler, preflight, package_result}
use review_protocol.Request.Serve.{Agent}
use review_protocol.Request.Package.{dispatch_node_package}
use review_protocol.Request.Package.Exchange.{verdict, installed, install_answers_with_the_result}
use review_protocol.Server.Api.SendPackage.{AsyncRead, send_package}
use review_protocol.Server.Api.SendPackage.Chunks.{IsChunk, send_package-Sent}

nonempty_chunks : (cs : List Bytes) → All IsChunk cs → All NonEmpty cs
nonempty_chunks [] h = tt
nonempty_chunks (c ∷ cs) (h, t) = (h.0, nonempty_chunks cs t)

module _ {S H : Type 0} (pkg : AsyncRead S) (handler : NodeHandler H) where
  -- The manager's transfer and the agent's exchange fit together. If `send_package` succeeds for
  -- the size of an install, and the agent whose verdict was to proceed receives the frames that it
  -- sent, with anything behind them, then the agent answers its verdict and the result that its
  -- handler returns, whatever part of the payload the handler reads, and its stream stands at the
  -- frame behind the payload. The size is a `u64`, and the agent's sends do not fail.
  pub sent_package_is_installed :
      (f : InstallFields) (s : S) (out : SendStream Bytes) (chunks : List Bytes) (rest : RecvStream)
      (w : Agent H)
      → f.size < u64_limit
      → (send_package pkg f.size s out).0 ≡ ok tt
      → (send_package pkg f.size s out).2.sent ≡ out.sent ++ chunks
      → Reliable w.send
      → verdict handler f w ≡ ok proceed
      → w.recv ≡ received chunks rest
      → let (r, w') = dispatch_node_package handler (install f) w in
        (r ≡ ok tt)
        × (w'.send.sent
            ≡ w.send.sent ++ preflight (ok proceed) ∷ package_result (installed handler f w).0 ∷ [])
        × (w'.recv ≡ rest)
        × (w'.handler ≡ (installed handler f w).1)
  sent_package_is_installed f s out chunks rest w fits success sent reliable proceeding arrived =
      let t = send_package-Sent pkg f.size s out in
      let same : chunks ≡ t.chunks = append_cancel_left out.sent _ _ (sym sent ∙ t.appended) in
      install_answers_with_the_result handler f w chunks rest reliable proceeding arrived
        (rw same (t.complete success)) (rw same (nonempty_chunks t.chunks t.are_chunks)) fits
