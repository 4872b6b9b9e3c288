-- ===== src/Server/Handler/Authorized/Loop.antt =====
-- The loop of server/handler.rs ends, and satisfies the equation of the source's loop.
use review_protocol.Prelude.{
  ℕ, zero, suc, ◌≤◌, ◌<◌, ◌≡◌, refl, ap, String, Result, ok, err, none, some, [], ◌∷◌, length,
  arith,
}
use review_protocol.ProtocolError.{IoError}
use review_protocol.Wire.{Bytes, RecvStream, recv_raw}
use review_protocol.Codes.Server.{RequestCode, from_primitive}
use review_protocol.ServiceId.{ServiceId}
use review_protocol.Server.Handler.{Handler, ServerCodec, ServerReply, Manager, Answer}
use review_protocol.Server.Handler.Dispatch.{Outcome, unknown_code, refuse, serve, dispatch_request}
use review_protocol.Server.Handler.Authorized.{
  Verdict, denied, check, serve_request, after_serve, serve_round, receive_request, serve_loop,
  serve_requests,
}

module _ {Net H : Type 0} where
  serve-recv :
      {A T : Type 0} (r : Result A IoError) (method : A → H → Answer T × H)
      (reply : Answer T → ServerReply Net) (w : Manager Net H)
      → (serve r method reply w).1.recv ≡ w.recv
  unfolding serve
  serve-recv r method reply w = ground arith

  refuse-recv :
      (e : IoError) (reply : ServerReply Net) (w : Manager Net H)
      → (refuse e reply w).1.recv ≡ w.recv
  unfolding refuse
  refuse-recv e reply w = refl

module _ {Net Stats H : Type 0} (handler : Handler Net Stats H) (codec : ServerCodec Stats) where
  dispatch_request-recv :
      (peer : String) (c : RequestCode) (code : ℕ) (body : Bytes) (w : Manager Net H)
      → (dispatch_request handler codec peer c code body w).1.recv ≡ w.recv
  unfolding dispatch_request
  dispatch_request-recv peer RequestCode.unknown code body w =
      refuse-recv unknown_code (ServerReply.done (err "unknown request code")) w
  dispatch_request-recv peer _ code body w = grind (arith, serve-recv)

  module _ (authorize : ServiceId → Verdict) (peer : String) where
    pub serve_request-recv :
        (v : Verdict) (c : RequestCode) (code : ℕ) (body : Bytes) (w : Manager Net H)
        → (serve_request handler codec authorize peer v c code body w).1.recv ≡ w.recv
    unfolding serve_request
    serve_request-recv (ok u) c code body w = dispatch_request-recv peer c code body w
    serve_request-recv (err e) c code body w =
        refuse-recv (denied e) (ServerReply.done (err "authorization denied")) w

    after_serve-cong :
        (k l : Manager Net H → Outcome Net H) (n : ℕ) (x : Outcome Net H)
        → length x.1.recv ≤ n
        → ((v : Manager Net H) → length v.recv ≤ n → k v ≡ l v)
        → after_serve handler codec authorize peer k x
          ≡ after_serve handler codec authorize peer l x
    unfolding after_serve
    after_serve-cong k l n (ok none, w) le h = h w le
    after_serve-cong k l n (ok (some request), w) le h = refl
    after_serve-cong k l n (err e, w) le h = refl

    serve_round-cong :
        (k l : Manager Net H → Outcome Net H) (n : ℕ) (x : Result (ℕ × Bytes) IoError)
        (w : Manager Net H)
        → ((request : ℕ × Bytes) → x ≡ ok request → length w.recv < n)
        → ((v : Manager Net H) → length v.recv < n → k v ≡ l v)
        → serve_round handler codec authorize peer k x w
          ≡ serve_round handler codec authorize peer l x w
    unfolding serve_round
    serve_round-cong k l n (ok (code, body)) w lt h =
        let c = from_primitive code in
        after_serve-cong k l (length w.recv)
          (serve_request handler codec authorize peer (check authorize c) c code body w)
          (omega (arith, ap length (serve_request-recv (check authorize c) c code body w)))
          (λ v le. h v (omega (arith, lt (code, body) refl)))
    serve_round-cong k l n (err e) w lt h = refl

    pub receive_request-shortens :
        (recv : RecvStream) (request : ℕ × Bytes)
        → receive_request handler codec authorize peer recv ≡ ok request
        → length (recv_raw recv).1 < length recv
    unfolding recv_raw
    receive_request-shortens [] request h = cc
    receive_request-shortens (outcome ∷ rest) request h = omega arith

    serve_loop-fuel :
        (f g : ℕ) (w : Manager Net H)
        → length w.recv < f
        → length w.recv < g
        → serve_loop handler codec authorize peer f w ≡ serve_loop handler codec authorize peer g w
    unfolding serve_loop
    serve_loop-fuel zero g w h k = absurd (omega arith)
    serve_loop-fuel (suc f) zero w h k = absurd (omega arith)
    serve_loop-fuel (suc f) (suc g) w h k =
        serve_round-cong (serve_loop handler codec authorize peer f)
          (serve_loop handler codec authorize peer g) (length w.recv)
          (receive_request handler codec authorize peer w.recv)
          (record w { recv = (recv_raw w.recv).1 }) (receive_request-shortens w.recv)
          (λ v lt. serve_loop-fuel f g v (omega arith) (omega arith))

    -- The fuel of the manager's loop is enough in every state: it satisfies the equation of the
    -- source's loop, which receives a request, serves it, and goes on, hands over, ends, or fails.
    pub serve_requests_equation :
        (w : Manager Net H)
        → serve_requests handler codec authorize peer w
          ≡ serve_round handler codec authorize peer
              (serve_requests handler codec authorize peer)
              (receive_request handler codec authorize peer w.recv)
              (record w { recv = (recv_raw w.recv).1 })
    unfolding serve_requests
    serve_requests_equation w =
        serve_round-cong (serve_loop handler codec authorize peer (length w.recv))
          (serve_requests handler codec authorize peer) (length w.recv)
          (receive_request handler codec authorize peer w.recv)
          (record w { recv = (recv_raw w.recv).1 }) (receive_request-shortens w.recv)
          (λ v lt. serve_loop-fuel (length w.recv) (suc (length v.recv)) v lt (omega arith))
