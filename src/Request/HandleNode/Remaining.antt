-- ===== src/Request/HandleNode/Remaining.antt =====
-- Serving a request of a node family, request.rs: what it leaves of the receive stream is what was
-- there before, so what holds of all outcomes to come goes on to hold.
use review_protocol.Request.Package.{proceeds}
use review_protocol.Request.NodeHandler.{preflight, HandlerError}
use review_protocol.Request.Serve.{Serve, continue, decoded, pure}
use review_protocol.ProtocolError.{ProtocolErrorKind}
use review_protocol.Prelude.{
  inl, inr, ◌⊎◌, if◌then◌else◌, Bool, true, false, ℕ, zero, suc, ◌≡◌, Result, ok, err, Option, none,
  some, [], ◌∷◌, length, arith, All,
}
use review_protocol.ProtocolError.{IoError}
use review_protocol.Wire.{Bytes, RecvStream, recv_raw}
use review_protocol.Codes.Client.{RequestCode}
use review_protocol.Types.Node.Package.{NodePackageRequest, InstallFields, install}
use review_protocol.Request.PackageReader.{
  PackageReader, new, read_chunk, accept_chunk, remember, next_chunk, drain, drain_loop,
  drain_round,
}
use review_protocol.Request.Installer.{Installer, finish, inspect, read, run_installer}
use review_protocol.Request.NodeHandler.{NodeHandler, NodeCodec}
use review_protocol.Request.Serve.{Agent, respond, decode_args}
use review_protocol.Request.Package.{dispatch_node_package, receive_package}
use review_protocol.Request.HandleNode.{serve_package, dispatch}
use review_protocol.Request.HandleNode.Loop.{serve_family-recv, serve_power-recv}
use review_protocol.Prelude.{Bool}
use review_protocol.Prelude.{◌⊎◌}
use review_protocol.ProtocolError.{ProtocolErrorKind}
use review_protocol.Request.HandleNode.{Serve}
use review_protocol.Request.NodeHandler.{preflight}
use review_protocol.Request.Serve.{decoded}
use review_protocol.Request.HandleNode.{HandlerError}
use review_protocol.Request.Package.{proceeds}
use review_protocol.Request.HandleNode.{continue}

module _ (P : Result Bytes IoError → Type 0) where
  pub recv_raw-All : (recv : RecvStream) → All P recv → All P (recv_raw recv).1
  unfolding recv_raw
  recv_raw-All [] h = h
  recv_raw-All (x ∷ rest) h = h.1

  next_chunk-recv :
      (r : PackageReader)
      → ((next_chunk r).1.recv ≡ r.recv) ⊎ ((next_chunk r).1.recv ≡ (recv_raw r.recv).1)
  unfolding next_chunk read_chunk accept_chunk remember
  next_chunk-recv r = ground arith

  next_chunk-All : (r : PackageReader) → All P r.recv → All P (next_chunk r).1.recv
  next_chunk-All r h = elim (next_chunk-recv r) [
    | inl e ↦ rw e h
    | inr e ↦ rw e (recv_raw-All r.recv h)
  ]

  run_installer-All :
      {H : Type 0} (p : Installer H) (r : PackageReader)
      → All P r.recv
      → All P (run_installer p r).2.recv
  unfolding run_installer
  run_installer-All (finish result s) r h = h
  run_installer-All (inspect k) r h = run_installer-All (k r.size r.remaining) r h
  run_installer-All (read k) r h =
      run_installer-All (k (next_chunk r).0) (next_chunk r).1 (next_chunk-All r h)

  drain_round-All :
      (k : PackageReader → Result (Unit {0}) IoError × PackageReader)
      (x : Result (Option Bytes) IoError × PackageReader)
      → All P x.1.recv
      → ((r : PackageReader) → All P r.recv → All P (k r).1.recv)
      → All P (drain_round k x).1.recv
  unfolding drain_round
  drain_round-All k (ok (some c), r) h s = s r h
  drain_round-All k (ok none, r) h s = h
  drain_round-All k (err e, r) h s = h

  drain_loop-All : (fuel : ℕ) (r : PackageReader) → All P r.recv → All P (drain_loop fuel r).1.recv
  unfolding drain_loop
  drain_loop-All zero r h = h
  drain_loop-All (suc fuel) r h =
      drain_round-All (drain_loop fuel) (next_chunk r) (next_chunk-All r h) (drain_loop-All fuel)

  -- A step that only takes from the stream.
  abbrev pub Takes : {H A : Type 0} → Serve H A → Type 0
  Takes {H = H} m = (w : Agent H) → All P w.recv → All P (m w).1.recv

  module _ {H : Type 0} where
    continue-Takes :
        {A B : Type 0} (f : A → Serve H B) (x : Result A HandlerError × Agent H)
        → All P x.1.recv
        → ((a : A) → Takes (f a))
        → All P (continue f x).1.recv
    continue-Takes f (ok a, w) h t = t a w h
    continue-Takes f (err e, w) h t = h

    decoded-Takes :
        {T : Type 0} (code : ℕ) (classify : Option ProtocolErrorKind) (x : Result T IoError)
        → Takes (decoded {H = H} code classify x)
    unfolding decoded
    decoded-Takes code classify (ok args) w h = h
    decoded-Takes code classify (err e) w h = h

    if-Takes :
        (b : Bool) (m n : Serve H (Unit {0})) → Takes m → Takes n → Takes (if b then m else n)
    if-Takes true m n t u = t
    if-Takes false m n t u = u

  module _ {H : Type 0} (handler : NodeHandler H) (codec : NodeCodec) where
    receive_package-All :
        (f : InstallFields) (w : Agent H)
        → All P w.recv
        → All P (receive_package handler f w).1.recv
    unfolding receive_package drain new respond
    receive_package-All f w h =
        let p = handler.node_package_install (install f) w.handler in
        let r = (run_installer p (new w.recv f.size)).2 in
        drain_loop-All (suc (length r.recv)) r (run_installer-All p (new w.recv f.size) h)

    dispatch_node_package-Takes :
        (req : NodePackageRequest) → Takes (dispatch_node_package handler req)
    unfolding dispatch_node_package respond
    dispatch_node_package-Takes (install f) w h =
        let (v, judged) = handler.node_package_install_preflight (install f) w.handler in
        continue-Takes (λ u. if proceeds v then receive_package handler f else pure tt)
          (respond (preflight v) (record w { handler = judged })) h
          (λ u.
            if-Takes (proceeds v) (receive_package handler f) (pure tt) (receive_package-All f)
              (λ w h. h))
    dispatch_node_package-Takes _ w h = h

    serve_package-Takes : (code : ℕ) (body : Bytes) → Takes (serve_package handler codec code body)
    unfolding serve_package decode_args
    serve_package-Takes code body w h =
        let parsed = codec.parse_package body in
        continue-Takes (dispatch_node_package handler) (decoded code none parsed w)
          (decoded-Takes code none parsed w h) dispatch_node_package-Takes

    pub dispatch-Takes :
        (c : RequestCode) (code : ℕ) (body : Bytes) → Takes (dispatch handler codec c code body)
    unfolding dispatch respond
    dispatch-Takes RequestCode.node_power code body w h =
        rw (serve_power-recv handler codec code body w) h
    dispatch-Takes RequestCode.node_package code body w h = serve_package-Takes code body w h
    dispatch-Takes _ code body w h = grind (arith, serve_family-recv)
