-- ===== src/Request/Handle/Refines.antt =====
-- `handle` of request.rs serves the typed requests of Request.Handle.Service, in their order.
use mathlib.Core.List.{append_assoc, append-nil}
use review_protocol.Prelude.{ℕ, ◌≡◌, refl, ap, ◌∙◌, ok, List, [], ◌∷◌, map}
use review_protocol.Wire.{Bytes, recv_raw}
use review_protocol.Wire.Laws.{Reliable}
use review_protocol.Codes.Client.{from_primitive}
use review_protocol.Request.Handler.{Handler}
use review_protocol.Request.Serve.{Agent}
use review_protocol.Request.ServeLoop.{Served, after_request, round}
use review_protocol.Request.Handle.{AgentCodec, dispatch_any, handle}
use review_protocol.Request.Handle.Loop.{handle_equation}
use review_protocol.Request.Handle.Service.{
  AgentRequest, code_of, Carries, replies_to, replies_to_all,
}
use review_protocol.Request.Handle.Answered.{answered, dispatch_any-answered}

module _ {Net H : Type 0} (handler : Handler Net H) (codec : AgentCodec Net) where
  -- The frame of a request: its code, and a body that carries its arguments.
  pub record Framed (request : AgentRequest Net) (frame : Bytes) : Type 0 where
    pub code : ℕ
    pub body : Bytes
    pub splits : codec.node.split_request frame ≡ ok (code, body)
    pub names : from_primitive code ≡ code_of request
    pub carries : Carries codec request body

  pub data AllFramed : List (AgentRequest Net) → List Bytes → Type 0 where
    nil : AllFramed [] []
    cons :
        {request : AgentRequest Net} {frame : Bytes} {rs : List (AgentRequest Net)}
        {frames : List Bytes}
        → Framed request frame
        → AllFramed rs frames
        → AllFramed (request ∷ rs) (frame ∷ frames)

  abbrev Any : Type 0
  Any = Served codec.node.split_request (dispatch_any handler codec)

  round-answered :
      (more : Agent H → Any) (request : AgentRequest Net) (frame : Bytes) (w : Agent H)
      → Framed request frame
      → Reliable w.send
      → round codec.node.split_request
          (dispatch_any handler codec)
          more
          (codec.node.split_request frame)
          w
        ≡ more (answered (replies_to handler codec request w.handler) w)
  unfolding round after_request
  round-answered more request frame w f r =
      rw
        (f.splits, f.names, dispatch_any-answered handler codec request f.code f.body w r f.carries)
        refl

  -- The loop refines the service: on a stream that carries typed requests, frame by frame, and then
  -- ends, and whose sends do not fail, `handle` returns without an error, all frames are taken, the
  -- replies are those of the service in the order of the requests, and the handler is in the
  -- state that the methods' calls in that order leave. An install
  -- is not among the requests, and a flat request of host control is served by the grouped method.
  pub handle_refines_the_service :
      (rs : List (AgentRequest Net)) (frames : List Bytes) (w : Agent H)
      → AllFramed rs frames
      → Reliable w.send
      → w.recv ≡ map ok frames
      → handle handler codec w
        ≡ (ok tt, record (answered (replies_to_all handler codec rs w.handler) w) { recv = [] })
  unfolding round recv_raw
  handle_refines_the_service _ _ w nil r e =
      rw (handle_equation handler codec w, e, append-nil w.send.sent, r) refl
  handle_refines_the_service _ _ w
        (cons {request = request} {frame = frame} {rs = rs} {frames = frames} f fs) r e =
      let w1 : Agent H = record w { recv = map ok frames } in
      let (first, h1) = replies_to handler codec request w.handler in
      let (later, h2) = replies_to_all handler codec rs h1 in
      rw (handle_equation handler codec w, e)
        (round-answered (handle handler codec) request frame w1 f r
          ∙ handle_refines_the_service rs frames (answered (first, h1) w1) fs refl refl
          ∙ ap
              (λ sent. (
                ok tt,
                record w { handler = h2; send = record { outcomes = []; sent = sent }; recv = [] },
              ))
              (append_assoc w.send.sent first later))
