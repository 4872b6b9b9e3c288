-- ===== src/Request/ServeLoop/Runs.antt =====
-- The loop of `handle_node` and of `handle`, request.rs, as a relation without fuel: a run is a
-- finite sequence of rounds, by what the receive and the `match` return.
use review_protocol.Prelude.{
  ℕ, zero, suc, true, ◌≤◌, ◌<◌, ◌≡◌, ◌≢◌, refl, ap, Result, ok, err, length, arith, Bool-cases, inl,
  inr,
}
use review_protocol.ProtocolError.{ErrorKind, IoError, error_kind, unexpected_eof}
use review_protocol.Wire.{Bytes, recv_raw}
use review_protocol.Codes.Client.{RequestCode, from_primitive}
use review_protocol.Request.PackageReader.{is_eof}
use review_protocol.Request.NodeHandler.{HandlerError, recv_error}
use review_protocol.Request.Serve.{Agent, Serve}
use review_protocol.Request.ServeLoop.{
  Served, after_request, round, recv_request, handle_loop, serve_stream,
}
use review_protocol.Request.ServeLoop.Laws.{Shortens, recv_request-shortens}

pub is_eof_iff : (k : ErrorKind) → is_eof k ≡ true → k ≡ unexpected_eof
is_eof_iff unexpected_eof e = refl
is_eof_iff _ e = cc

module _ {H : Type 0} (split_request : Bytes → Result (ℕ × Bytes) IoError)
    (dispatch : RequestCode → ℕ → Bytes → Serve H (Unit {0})) where
  abbrev rest_of : Agent H → Agent H
  rest_of w = record w { recv = (recv_raw w.recv).1 }

  pub data Runs : Agent H → Served split_request dispatch → Type 0 where
    ends :
        (w : Agent H) (e : IoError)
        → recv_request split_request dispatch w.recv ≡ err e
        → error_kind e ≡ unexpected_eof
        → Runs w (ok tt, record w { recv = (recv_raw w.recv).1 })
    receive_fails :
        (w : Agent H) (e : IoError)
        → recv_request split_request dispatch w.recv ≡ err e
        → error_kind e ≢ unexpected_eof
        → Runs w (err (recv_error e), record w { recv = (recv_raw w.recv).1 })
    request_fails :
        (w v : Agent H) (code : ℕ) (body : Bytes) (e : HandlerError)
        → recv_request split_request dispatch w.recv ≡ ok (code, body)
        → dispatch (from_primitive code) code body (record w { recv = (recv_raw w.recv).1 })
          ≡ (err e, v)
        → Runs w (err e, v)
    serves :
        (w v : Agent H) (code : ℕ) (body : Bytes) (x : Served split_request dispatch)
        → recv_request split_request dispatch w.recv ≡ ok (code, body)
        → dispatch (from_primitive code) code body (record w { recv = (recv_raw w.recv).1 })
          ≡ (ok tt, v)
        → Runs v x
        → Runs w x

  after_request-Runs :
      (more : Agent H → Served split_request dispatch) (w : Agent H) (code : ℕ) (body : Bytes)
      (x : Served split_request dispatch)
      → recv_request split_request dispatch w.recv ≡ ok (code, body)
      → dispatch (from_primitive code) code body (rest_of w) ≡ x
      → ((v : Agent H) → length v.recv ≤ length x.1.recv → Runs v (more v))
      → Runs w (after_request split_request dispatch more x)
  unfolding after_request
  after_request-Runs more w code body (ok tt, v) received served h =
      serves w v code body (more v) received served (h v (omega arith))
  after_request-Runs more w code body (err e, v) received served h =
      request_fails w v code body e received served

  module _ (dispatch-shortens : Shortens split_request dispatch) where
    round-Runs :
        (more : Agent H → Served split_request dispatch) (w : Agent H)
        (x : Result (ℕ × Bytes) IoError)
        → recv_request split_request dispatch w.recv ≡ x
        → ((v : Agent H) → length v.recv < length w.recv → Runs v (more v))
        → Runs w (round split_request dispatch more x (rest_of w))
    unfolding round
    round-Runs more w (ok (code, body)) received h =
        after_request-Runs more w code body _ received refl (λ v le. h v (
          omega (
            arith,
            le,
            dispatch-shortens (from_primitive code) code body (rest_of w),
            recv_request-shortens split_request dispatch w.recv (code, body) received,
          )))
    round-Runs more w (err e) received h = elim (Bool-cases (is_eof (error_kind e))) [
      | inl eof ↦ rw eof (ends w e received (is_eof_iff (error_kind e) eof))
      | inr other ↦ rw other (receive_fails w e received (λ eof. let same = ap is_eof eof in cc))
    ]

    handle_loop-Runs :
        (fuel : ℕ) (w : Agent H)
        → length w.recv < fuel
        → Runs w (handle_loop split_request dispatch fuel w)
    unfolding handle_loop
    handle_loop-Runs zero w lt = absurd (omega arith)
    handle_loop-Runs (suc fuel) w lt =
        round-Runs (handle_loop split_request dispatch fuel) w _ refl
          (λ v shorter. handle_loop-Runs fuel v (omega arith))

    pub serve_stream-Runs : (w : Agent H) → Runs w (serve_stream split_request dispatch w)
    unfolding serve_stream
    serve_stream-Runs w = handle_loop-Runs (suc (length w.recv)) w (omega arith)
