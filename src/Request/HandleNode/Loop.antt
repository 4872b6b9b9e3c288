-- ===== src/Request/HandleNode/Loop.antt =====
-- `handle_node` of request.rs: the loop ends, and satisfies the equation of the source's loop.
use review_protocol.Prelude.{
  ℕ, zero, suc, ◌≤◌, ◌≡◌, ap, Result, ok, err, Option, none, some, length, arith,
}
use review_protocol.ProtocolError.{IoError}
use review_protocol.Wire.{Bytes, recv_raw}
use review_protocol.Codes.Client.{RequestCode}
use review_protocol.Types.Node.Package.{NodePackageRequest, InstallFields, install}
use review_protocol.Request.PackageReader.{
  PackageReader, new, next_chunk, drain, drain_loop, drain_round,
}
use review_protocol.Request.Installer.{Installer, finish, inspect, read, run_installer}
use review_protocol.Request.NodeHandler.{NodeHandler, NodeCodec, NodeReply, Answer}
use review_protocol.Request.Serve.{Agent, respond, decode_args}
use review_protocol.Request.Package.{dispatch_node_package, receive_package}
use review_protocol.Request.HandleNode.{
  serve_family, serve_power, serve_package, dispatch, handle_node,
}
use review_protocol.Request.ServeLoop.{round, recv_request}
use review_protocol.Request.ServeLoop.Laws.{serve_stream-round}
use review_protocol.Request.HandleNode.{decode_args}

-- No read puts a frame back.
next_chunk-shortens : (r : PackageReader) → length (next_chunk r).1.recv ≤ length r.recv
unfolding next_chunk
next_chunk-shortens r = ground arith

run_installer-shortens :
    {H : Type 0} (p : Installer H) (r : PackageReader)
    → length (run_installer p r).2.recv ≤ length r.recv
unfolding run_installer
run_installer-shortens (finish result h) r = omega arith
run_installer-shortens (inspect k) r = run_installer-shortens (k r.size r.remaining) r
run_installer-shortens (read k) r =
    omega
      (arith, next_chunk-shortens r, run_installer-shortens (k (next_chunk r).0) (next_chunk r).1)

drain_round-shortens :
    (k : PackageReader → Result (Unit {0}) IoError × PackageReader) (n : ℕ)
    (x : Result (Option Bytes) IoError × PackageReader)
    → length x.1.recv ≤ n
    → ((r : PackageReader) → length (k r).1.recv ≤ length r.recv)
    → length (drain_round k x).1.recv ≤ n
unfolding drain_round
drain_round-shortens k n (ok (some c), r) h s = omega (arith, s r)
drain_round-shortens k n (ok none, r) h s = h
drain_round-shortens k n (err e, r) h s = h

drain_loop-shortens :
    (fuel : ℕ) (r : PackageReader) → length (drain_loop fuel r).1.recv ≤ length r.recv
unfolding drain_loop
drain_loop-shortens zero r = omega arith
drain_loop-shortens (suc fuel) r =
    drain_round-shortens (drain_loop fuel) (length r.recv) (next_chunk r) (next_chunk-shortens r)
      (drain_loop-shortens fuel)

module _ {H : Type 0} (handler : NodeHandler H) (codec : NodeCodec) where
  pub serve_family-recv :
      {Req Resp : Type 0} (parse : Bytes → Result Req IoError) (method : Req → H → Answer Resp × H)
      (reply : Answer Resp → NodeReply) (code : ℕ) (body : Bytes) (w : Agent H)
      → (serve_family handler codec parse method reply code body w).1.recv ≡ w.recv
  unfolding serve_family decode_args respond
  serve_family-recv parse method reply code body w = ground arith

  pub serve_power-recv :
      (code : ℕ) (body : Bytes) (w : Agent H)
      → (serve_power handler codec code body w).1.recv ≡ w.recv
  unfolding serve_power decode_args respond
  serve_power-recv code body w = ground arith

  receive_package-shortens :
      (f : InstallFields) (w : Agent H)
      → length (receive_package handler f w).1.recv ≤ length w.recv
  unfolding receive_package drain new respond
  receive_package-shortens f w =
      let p = handler.node_package_install (install f) w.handler in
      let start = new w.recv f.size in
      let r = (run_installer p start).2 in
      omega (arith, run_installer-shortens p start, drain_loop-shortens (suc (length r.recv)) r)

  dispatch_node_package-shortens :
      (req : NodePackageRequest) (w : Agent H)
      → length (dispatch_node_package handler req w).1.recv ≤ length w.recv
  unfolding dispatch_node_package respond
  dispatch_node_package-shortens (install f) w = grind (arith, receive_package-shortens)
  dispatch_node_package-shortens _ w = ground arith

  serve_package-shortens :
      (code : ℕ) (body : Bytes) (w : Agent H)
      → length (serve_package handler codec code body w).1.recv ≤ length w.recv
  unfolding serve_package decode_args
  serve_package-shortens code body w = grind (arith, dispatch_node_package-shortens)

  pub dispatch-shortens :
      (c : RequestCode) (code : ℕ) (body : Bytes) (w : Agent H)
      → length (dispatch handler codec c code body w).1.recv ≤ length w.recv
  unfolding dispatch respond
  dispatch-shortens RequestCode.node_power code body w =
      omega (arith, ap length (serve_power-recv code body w))
  dispatch-shortens RequestCode.node_package code body w = serve_package-shortens code body w
  dispatch-shortens _ code body w = grind (arith, serve_family-recv)

  -- The fuel of `handle_node` is enough in every state: the function satisfies the equation of the
  -- source's loop, which receives a request, serves it, and goes on, ends, or fails.
  pub handle_node_equation :
      (w : Agent H)
      → handle_node handler codec w
        ≡ round codec.split_request
            (dispatch handler codec)
            (handle_node handler codec)
            (recv_request codec.split_request (dispatch handler codec) w.recv)
            (record w { recv = (recv_raw w.recv).1 })
  unfolding handle_node
  handle_node_equation w =
      serve_stream-round codec.split_request (dispatch handler codec) dispatch-shortens w
