-- ===== src/Request/ServeLoop.antt =====
-- The loop of `handle_node` and of `handle`, request.rs, which the two functions share but for the
-- `match` on the request code, the parameter `dispatch`.
pub mod Laws
pub mod Runs
use review_protocol.Prelude.{ℕ, zero, suc, Result, ok, err, if◌then◌else◌, and_then, length}
use review_protocol.ProtocolError.{IoError, error_kind}
use review_protocol.Wire.{Bytes, RecvStream, recv_raw}
use review_protocol.Codes.Client.{RequestCode, from_primitive}
use review_protocol.Request.PackageReader.{is_eof}
use review_protocol.Request.NodeHandler.{HandlerError, recv_error}
use review_protocol.Request.Serve.{Agent, Serve}

module _ {H : Type 0} (split_request : Bytes → Result (ℕ × Bytes) IoError)
    (dispatch : RequestCode → ℕ → Bytes → Serve H (Unit {0})) where
  abbrev pub Served : Type 0
  Served = Result (Unit {0}) HandlerError × Agent H

  -- After the request is served the loop goes on with `more`, or returns the error.
  unfoldable pub after_request : (Agent H → Served) → Served → Served
  after_request more (ok u, w) = more w
  after_request more (err e, w) = (err e, w)

  -- One round of the loop: the outcome of `recv_request_raw`, and the request.
  unfoldable pub round : (Agent H → Served) → Result (ℕ × Bytes) IoError → Agent H → Served
  unfolding after_request
  round more (ok (code, body)) w = after_request more (dispatch (from_primitive code) code body w)
  round more (err e) w = if is_eof (error_kind e) then (ok tt, w) else (err (recv_error e), w)

  -- `recv_request_raw`: the next frame, taken apart.
  abbrev pub recv_request : RecvStream → Result (ℕ × Bytes) IoError
  recv_request recv = and_then (recv_raw recv).0 split_request

  -- The loop on fuel. A round that goes on has received a frame, so one round more than the
  -- frames to come is enough.
  unfoldable pub handle_loop : ℕ → Agent H → Served
  unfolding round recv_raw
  handle_loop zero w = (ok tt, w)
  handle_loop (suc fuel) w =
      round (handle_loop fuel) (recv_request w.recv) (record w { recv = (recv_raw w.recv).1 })

  unfoldable pub serve_stream : Agent H → Served
  unfolding handle_loop
  serve_stream w = handle_loop (suc (length w.recv)) w
