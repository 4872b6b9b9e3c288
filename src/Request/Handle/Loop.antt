-- ===== src/Request/Handle/Loop.antt =====
-- `handle` of request.rs: the loop ends, and satisfies the equation of the source's loop.
use review_protocol.ProtocolError.{ProtocolErrorKind}
use review_protocol.Request.Handle.{serve_grouped_power}
use review_protocol.Prelude.{Result, refl, ℕ, ◌≤◌, ◌≡◌, length, arith, Option}
use review_protocol.ProtocolError.{IoError}
use review_protocol.Wire.{Bytes, recv_raw}
use review_protocol.Codes.Client.{RequestCode}
use review_protocol.Request.NodeHandler.{Answer, NodeReply}
use review_protocol.Request.Handler.{Handler, node_handler}
use review_protocol.Request.Serve.{Agent, respond, decode_args}
use review_protocol.Request.ServeLoop.{round, recv_request}
use review_protocol.Request.ServeLoop.Runs.{Runs, serve_stream-Runs}
use review_protocol.Request.ServeLoop.Laws.{serve_stream-round}
use review_protocol.Request.HandleNode.Loop.{dispatch-shortens}
use review_protocol.Request.Handle.{
  AgentCodec, serve_method, serve_args, serve_flat_power, serve_flat_observation, dispatch_any,
  handle,
}
use review_protocol.Request.Handle.Nodes.{dispatch_any-Grouped}

module _ {Net H : Type 0} (handler : Handler Net H) (codec : AgentCodec Net) where
  serve_method-recv :
      {A : Type 0} (method : H → Answer A × H) (reply : Answer A → NodeReply) (w : Agent H)
      → (serve_method method reply w).1.recv ≡ w.recv
  unfolding serve_method respond
  serve_method-recv method reply w = refl

  serve_args-recv :
      {Req A : Type 0} (parse : Bytes → Result Req IoError) (classify : Option ProtocolErrorKind)
      (method : Req → H → Answer A × H) (reply : Answer A → NodeReply) (code : ℕ) (body : Bytes)
      (w : Agent H)
      → (serve_args parse classify method reply code body w).1.recv ≡ w.recv
  unfolding serve_args decode_args respond
  serve_args-recv parse classify method reply code body w = ground arith

  dispatch_any-shortens :
      (c : RequestCode) (code : ℕ) (body : Bytes) (w : Agent H)
      → length (dispatch_any handler codec c code body w).1.recv ≤ length w.recv
  unfolding dispatch_any serve_flat_power serve_flat_observation serve_grouped_power decode_args
      respond
  dispatch_any-shortens RequestCode.node_package code body w =
      rw (dispatch_any-Grouped handler codec RequestCode.node_package code body tt)
        (dispatch-shortens (node_handler handler) codec.node RequestCode.node_package code body w)
  dispatch_any-shortens _ code body w = grind (arith, serve_method-recv, serve_args-recv)

  -- The fuel of `handle` is enough in every state: the function satisfies the equation of the
  -- source's loop, which receives a request, serves it, and goes on, ends, or fails.
  pub handle_equation :
      (w : Agent H)
      → handle handler codec w
        ≡ round codec.node.split_request
            (dispatch_any handler codec)
            (handle handler codec)
            (recv_request codec.node.split_request (dispatch_any handler codec) w.recv)
            (record w { recv = (recv_raw w.recv).1 })
  unfolding handle
  handle_equation w =
      serve_stream-round codec.node.split_request (dispatch_any handler codec) dispatch_any-shortens
        w

  -- Every call of `handle` is a finite run of the source's loop, from any state: it receives requests
  -- and serves each by the `match` on its code, one after the other, and ends in one of three ways: by
  -- a receive that reports the end of the stream, without an error; by another receive that fails,
  -- with that error; or by a request that fails, with its error. Nothing is received behind that.
  pub handle-Runs :
      (w : Agent H)
      → Runs codec.node.split_request (dispatch_any handler codec) w (handle handler codec w)
  unfolding handle
  handle-Runs w =
      serve_stream-Runs codec.node.split_request (dispatch_any handler codec) dispatch_any-shortens
        w
