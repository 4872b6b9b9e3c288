-- ===== src/Request/Package.antt =====
-- `dispatch_node_package` of request.rs: the exchange for a package request.
pub mod Received
pub mod Exchange
use review_protocol.Prelude.{String, Bool, true, false, Result, ok, err, if◌then◌else◌, ◌<>◌}
use review_protocol.ProtocolError.{IoError, display}
use review_protocol.Types.Node.Package.{
  NodePackageRequest, install, NodePackageResponse, InstallPreflight, proceed, InstallFields,
}
use review_protocol.Request.PackageReader.{PackageReader, new, drain}
use review_protocol.Request.Installer.{run_installer}
use review_protocol.Request.NodeHandler.{NodeHandler, Answer, preflight, package_result}
use review_protocol.Request.Serve.{Agent, Serve, pure, call, respond, continue, ◌>>=◌, ◌>>◌}

-- `matches!(verdict, Ok(InstallPreflight::Proceed))`
unfoldable pub proceeds : Answer InstallPreflight → Bool
proceeds (ok proceed) = true
proceeds _ = false

-- The `match` on the handler's result and the drain's.
unfoldable pub conclude :
    Answer NodePackageResponse → Result (Unit {0}) IoError → Answer NodePackageResponse
unfolding display
conclude result (ok u) = result
conclude (err e) (err d) = err e
conclude (ok resp) (err e) = err ("failed to receive the package payload: " <> display e)

module _ {H : Type 0} (handler : NodeHandler H) where
  -- Behind a verdict to proceed: the handler's install on a reader of the declared size, the drain
  -- of what it left, and the terminal reply.
  unfoldable pub receive_package : InstallFields → Serve H (Unit {0})
  receive_package f w =
      let (result, h, r) =
        run_installer (handler.node_package_install (install f) w.handler) (new w.recv f.size) in
      let (drained, r') = drain r in
      respond (package_result (conclude result drained)) (record w { handler = h; recv = r'.recv })

  unfoldable pub dispatch_node_package : NodePackageRequest → Serve H (Unit {0})
  unfolding proceeds call
  dispatch_node_package (install f) = do
    verdict ← call (handler.node_package_install_preflight (install f))
    respond (preflight verdict)
    if proceeds verdict then receive_package f else pure tt
  dispatch_node_package req = do
    result ← call (handler.node_package req)
    respond (package_result result)
