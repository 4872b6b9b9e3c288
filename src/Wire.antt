-- ===== src/Wire.antt =====
-- The two halves of a QUIC stream as the crate sees them, frame by frame. quinn and oinq are not
-- part of the repository, so a stream is given by what the calls on it return: a receive
-- stream by the outcomes of the receives to come, a send stream by the outcomes of the sends to
-- come, with the frames that were sent so far.
pub mod Laws
use review_protocol.Prelude.{ℕ, Result, ok, err, Option, none, some, List, [], ◌∷◌, ◌++◌}
use review_protocol.ProtocolError.{IoError, io_error, unexpected_eof, simple}

abbrev pub Bytes : Type 0
Bytes = List ℕ

abbrev pub RecvStream : Type 0
RecvStream = List (Result Bytes IoError)

-- `oinq::frame::recv_raw`: the next outcome. After the last one the stream has ended.
unfoldable pub recv_raw : RecvStream → Result Bytes IoError × RecvStream
recv_raw [] = (err (io_error unexpected_eof simple), [])
recv_raw (outcome ∷ rest) = (outcome, rest)

pub record SendStream (F : Type 0) : Type 0 where
  pub outcomes : List (Option IoError)
  pub sent : List F

-- A send with its outcome: a frame whose send fails is not sent.
unfoldable pub send_outcome :
    {F : Type 0} → F → List F → List (Option IoError) → Result (Unit {0}) IoError × SendStream F
send_outcome f sent [] = (ok tt, record { outcomes = []; sent = sent ++ f ∷ [] })
send_outcome f sent (none ∷ os) = (ok tt, record { outcomes = os; sent = sent ++ f ∷ [] })
send_outcome f sent (some e ∷ os) = (err e, record { outcomes = os; sent = sent })

-- One send, with the next outcome. A stream with no outcome left does not fail.
unfoldable pub send_frame :
    {F : Type 0} → F → SendStream F → Result (Unit {0}) IoError × SendStream F
unfolding send_outcome
send_frame f s = send_outcome f s.sent s.outcomes
