-- ===== src/Request/ServeLoop/Laws.antt =====
-- The loop of `handle_node` and of `handle`, request.rs: it ends, with enough fuel, whenever serving
-- a request puts no frame back.
use review_protocol.Prelude.{
  ℕ, zero, suc, ◌≤◌, ◌<◌, ◌≡◌, refl, Result, ok, err, [], ◌∷◌, length, arith,
}
use review_protocol.ProtocolError.{IoError}
use review_protocol.Wire.{Bytes, RecvStream, recv_raw}
use review_protocol.Codes.Client.{RequestCode, from_primitive}
use review_protocol.Request.Serve.{Agent, Serve}
use review_protocol.Request.ServeLoop.{
  Served, after_request, round, recv_request, handle_loop, serve_stream,
}

module _ {H : Type 0} (split_request : Bytes → Result (ℕ × Bytes) IoError)
    (dispatch : RequestCode → ℕ → Bytes → Serve H (Unit {0})) where
  after_request-cong :
      (k l : Agent H → Served split_request dispatch) (n : ℕ) (x : Served split_request dispatch)
      → length x.1.recv ≤ n
      → ((v : Agent H) → length v.recv ≤ n → k v ≡ l v)
      → after_request split_request dispatch k x ≡ after_request split_request dispatch l x
  unfolding after_request
  after_request-cong k l n (ok u, w) le h = h w le
  after_request-cong k l n (err e, w) le h = refl

  pub recv_request-shortens :
      (recv : RecvStream) (request : ℕ × Bytes)
      → recv_request split_request dispatch recv ≡ ok request
      → length (recv_raw recv).1 < length recv
  unfolding recv_raw
  recv_request-shortens [] request h = cc
  recv_request-shortens (outcome ∷ rest) request h = omega arith

  -- Serving a request puts no frame back into the receive stream.
  abbrev pub Shortens : Type 0
  Shortens =
      (c : RequestCode) (code : ℕ) (body : Bytes) (w : Agent H)
      → length (dispatch c code body w).1.recv ≤ length w.recv

  module _ (dispatch-shortens : Shortens) where
    -- The loop goes on with states of less than `n` frames to come, if a request takes one.
    round-cong :
        (k l : Agent H → Served split_request dispatch) (n : ℕ) (x : Result (ℕ × Bytes) IoError)
        (w : Agent H)
        → ((request : ℕ × Bytes) → x ≡ ok request → length w.recv < n)
        → ((v : Agent H) → length v.recv < n → k v ≡ l v)
        → round split_request dispatch k x w ≡ round split_request dispatch l x w
    unfolding round
    round-cong k l n (ok (code, body)) w lt h =
        after_request-cong k l (length w.recv) (dispatch (from_primitive code) code body w)
          (dispatch-shortens (from_primitive code) code body w)
          (λ v le. h v (omega (arith, lt (code, body) refl)))
    round-cong k l n (err e) w lt h = refl

    handle_loop-fuel :
        (f g : ℕ) (w : Agent H)
        → length w.recv < f
        → length w.recv < g
        → handle_loop split_request dispatch f w ≡ handle_loop split_request dispatch g w
    unfolding handle_loop
    handle_loop-fuel zero g w h k = absurd (omega arith)
    handle_loop-fuel (suc f) zero w h k = absurd (omega arith)
    handle_loop-fuel (suc f) (suc g) w h k =
        round-cong (handle_loop split_request dispatch f) (handle_loop split_request dispatch g)
          (length w.recv) (recv_request split_request dispatch w.recv)
          (record w { recv = (recv_raw w.recv).1 }) (recv_request-shortens w.recv)
          (λ v lt. handle_loop-fuel f g v (omega arith) (omega arith))

    pub serve_stream-round :
        (w : Agent H)
        → serve_stream split_request dispatch w
          ≡ round split_request dispatch
              (serve_stream split_request dispatch)
              (recv_request split_request dispatch w.recv)
              (record w { recv = (recv_raw w.recv).1 })
    unfolding serve_stream
    serve_stream-round w =
        round-cong (handle_loop split_request dispatch (length w.recv))
          (serve_stream split_request dispatch) (length w.recv)
          (recv_request split_request dispatch w.recv) (record w { recv = (recv_raw w.recv).1 })
          (recv_request-shortens w.recv)
          (λ v lt. handle_loop-fuel (length w.recv) (suc (length v.recv)) v lt (omega arith))
