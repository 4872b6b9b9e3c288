-- ===== src/Request/Handle/Nodes.antt =====
-- `handle` and `handle_node` of request.rs on the requests of the node families.
use review_protocol.Prelude.{ℕ, zero, suc, [], ◌∷◌, ◌≡◌, refl, Result, ok, err, length, All}
use review_protocol.ProtocolError.{IoError}
use review_protocol.Wire.{Bytes, RecvStream, recv_raw}
use review_protocol.Codes.Client.{RequestCode, from_primitive}
use review_protocol.Request.Handler.{Handler, node_handler}
use review_protocol.Request.Serve.{Agent}
use review_protocol.Request.ServeLoop.{
  Served, after_request, round, recv_request, handle_loop, serve_stream,
}
use review_protocol.Request.HandleNode.{
  serve_family, serve_power, serve_package, dispatch, handle_node,
}
use review_protocol.Request.HandleNode.Remaining.{recv_raw-All, dispatch-Takes}
use review_protocol.Request.Handle.{
  AgentCodec, serve_args, serve_grouped_power, serve_grouped_package, dispatch_any, handle,
}

-- The codes that the two loops serve alike: those of the node families, and `unknown`.
abbrev pub Grouped : RequestCode → Type 0
Grouped RequestCode.node_service = Unit
Grouped RequestCode.node_network_interface = Unit
Grouped RequestCode.node_hostname = Unit
Grouped RequestCode.node_time_sync = Unit
Grouped RequestCode.node_logging = Unit
Grouped RequestCode.node_remote_access = Unit
Grouped RequestCode.node_power = Unit
Grouped RequestCode.node_observation = Unit
Grouped RequestCode.node_version = Unit
Grouped RequestCode.node_package = Unit
Grouped RequestCode.node_enroll = Unit
Grouped RequestCode.unknown = Unit
Grouped _ = ⊥

module _ {Net H : Type 0} (handler : Handler Net H) (codec : AgentCodec Net) where
  pub dispatch_any-Grouped :
      (c : RequestCode) (code : ℕ) (body : Bytes)
      → Grouped c
      → dispatch_any handler codec c code body
        ≡ dispatch (node_handler handler) codec.node c code body
  unfolding dispatch_any dispatch serve_args serve_family serve_grouped_power serve_power
      serve_grouped_package serve_package
  dispatch_any-Grouped RequestCode.node_service code body g = refl
  dispatch_any-Grouped RequestCode.node_network_interface code body g = refl
  dispatch_any-Grouped RequestCode.node_hostname code body g = refl
  dispatch_any-Grouped RequestCode.node_time_sync code body g = refl
  dispatch_any-Grouped RequestCode.node_logging code body g = refl
  dispatch_any-Grouped RequestCode.node_remote_access code body g = refl
  dispatch_any-Grouped RequestCode.node_power code body g = refl
  dispatch_any-Grouped RequestCode.node_observation code body g = refl
  dispatch_any-Grouped RequestCode.node_version code body g = refl
  dispatch_any-Grouped RequestCode.node_package code body g = refl
  dispatch_any-Grouped RequestCode.node_enroll code body g = refl
  dispatch_any-Grouped RequestCode.unknown code body g = refl
  dispatch_any-Grouped _ code body g = absurd g

  -- A frame that is no request, or a request of a code that both loops serve alike.
  abbrev pub NodeRequest : Result (ℕ × Bytes) IoError → Type 0
  NodeRequest (ok (code, body)) = Grouped (from_primitive code)
  NodeRequest (err e) = Unit

  abbrev pub NodeFrame : Result Bytes IoError → Type 0
  NodeFrame (ok frame) = NodeRequest (codec.node.split_request frame)
  NodeFrame (err e) = Unit

  abbrev Any : Type 0
  Any = Served codec.node.split_request (dispatch_any handler codec)

  after_request-NodeFrame :
      (k l : Agent H → Any) (x : Any)
      → All NodeFrame x.1.recv
      → ((v : Agent H) → All NodeFrame v.recv → k v ≡ l v)
      → after_request codec.node.split_request (dispatch_any handler codec) k x
        ≡ after_request codec.node.split_request (dispatch (node_handler handler) codec.node) l x
  unfolding after_request
  after_request-NodeFrame k l (ok u, w) a h = h w a
  after_request-NodeFrame k l (err e, w) a h = refl

  round-NodeFrame :
      (k l : Agent H → Any) (x : Result (ℕ × Bytes) IoError) (w : Agent H)
      → NodeRequest x
      → All NodeFrame w.recv
      → ((v : Agent H) → All NodeFrame v.recv → k v ≡ l v)
      → round codec.node.split_request (dispatch_any handler codec) k x w
        ≡ round codec.node.split_request (dispatch (node_handler handler) codec.node) l x w
  unfolding round
  round-NodeFrame k l (ok (code, body)) w n a h =
      let c = from_primitive code in
      rw (dispatch_any-Grouped c code body n) (
        after_request-NodeFrame k l (dispatch (node_handler handler) codec.node c code body w)
          (dispatch-Takes NodeFrame (node_handler handler) codec.node c code body w a) h)
  round-NodeFrame k l (err e) w n a h = refl

  recv_request-NodeFrame :
      (recv : RecvStream)
      → All NodeFrame recv
      → NodeRequest (recv_request codec.node.split_request (dispatch_any handler codec) recv)
  unfolding recv_raw
  recv_request-NodeFrame [] a = tt
  recv_request-NodeFrame (ok frame ∷ rest) a = a.0
  recv_request-NodeFrame (err e ∷ rest) a = tt

  handle_loop-NodeFrame :
      (fuel : ℕ) (w : Agent H)
      → All NodeFrame w.recv
      → handle_loop codec.node.split_request (dispatch_any handler codec) fuel w
        ≡ handle_loop codec.node.split_request (dispatch (node_handler handler) codec.node) fuel w
  unfolding handle_loop
  handle_loop-NodeFrame zero w a = refl
  handle_loop-NodeFrame (suc fuel) w a =
      round-NodeFrame (handle_loop codec.node.split_request (dispatch_any handler codec) fuel)
        (handle_loop codec.node.split_request (dispatch (node_handler handler) codec.node) fuel)
        (recv_request codec.node.split_request (dispatch_any handler codec) w.recv)
        (record w { recv = (recv_raw w.recv).1 }) (recv_request-NodeFrame w.recv a)
        (recv_raw-All NodeFrame w.recv a) (handle_loop-NodeFrame fuel)

  -- `handle` is `handle_node` on the streams of a node manager: where every frame to come that is a
  -- request has a code of the node families or one that no release has assigned, the whole run of
  -- `handle` is that of `handle_node` with the same handler, its outcome, its replies, the handler's
  -- state and the rest of the stream, whatever the sends do and whatever the handler reads.
  pub handle_refines_handle_node :
      (w : Agent H)
      → All NodeFrame w.recv
      → handle handler codec w ≡ handle_node (node_handler handler) codec.node w
  unfolding handle handle_node serve_stream
  handle_refines_handle_node w a = handle_loop-NodeFrame (suc (length w.recv)) w a
