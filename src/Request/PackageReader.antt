-- ===== src/Request/PackageReader.antt =====
-- `PackageReader` of request.rs: the payload of an install, bounded to its declared size. A
-- successful read hands out its chunk, where the source fills the caller's buffer.
pub mod Reads
pub mod Drain
pub mod Transfer
use review_protocol.Prelude.{
  ℕ, zero, suc, ◌-◌, ◌+◌, String, Bool, true, false, Result, ok, err, Option, none, some, List, [],
  ◌∷◌, length, ltb, leb, ◌==◌, if◌then◌else◌, ◌<>◌, decimal,
}
use review_protocol.ProtocolError.{
  IoError, io_error, error_kind, unexpected_eof, invalid_data, message, nested, ErrorKind,
}
use review_protocol.Wire.{Bytes, RecvStream, recv_raw}

pub record PackageReader : Type 0 where
  pub recv : RecvStream
  pub size : ℕ
  pub remaining : ℕ
  pub failed : Bool

unfoldable pub new : RecvStream → ℕ → PackageReader
new recv size = record { recv = recv; size = size; remaining = size; failed = false }

abbrev pub u64_limit : ℕ
u64_limit = 18446744073709551616

-- `e.kind() == io::ErrorKind::UnexpectedEof`
abbrev pub is_eof : ErrorKind → Bool
is_eof unexpected_eof = true
is_eof _ = false

unfoldable pub truncated_payload : IoError → IoError
truncated_payload e = if is_eof (error_kind e) then e else io_error unexpected_eof (nested e)

abbrev overrun : ℕ → ℕ → String
overrun len remaining =
    "package chunk of "
    <> decimal len
    <> " bytes overruns the "
    <> decimal remaining
    <> " bytes still expected"

-- What `read_chunk` does with a frame that was received.
unfoldable pub accept_chunk : Bytes → PackageReader → Result Bytes IoError × PackageReader
accept_chunk buf r =
    let len = length buf in
    if leb u64_limit len
    then (
      err (io_error invalid_data (message "out of range integral type conversion attempted")),
      r,
    )
    else if ltb r.remaining len
    then (err (io_error invalid_data (message (overrun len r.remaining))), r)
    else (ok buf, record r { remaining = r.remaining - len })

unfoldable pub read_chunk : PackageReader → Result Bytes IoError × PackageReader
unfolding recv_raw truncated_payload accept_chunk
read_chunk r =
    let (received, rest) = recv_raw r.recv in
    elim received [
      | ok buf ↦ accept_chunk buf (record r { recv = rest })
      | err e ↦ (err (truncated_payload e), record r { recv = rest })
    ]

-- The `match` of `next_chunk`: an error is remembered.
unfoldable pub remember :
    Result Bytes IoError × PackageReader → Result (Option Bytes) IoError × PackageReader
remember (ok buf, r) = (ok (some buf), r)
remember (err e, r) = (err e, record r { failed = true })

abbrev pub already_failed : IoError
already_failed = io_error invalid_data (message "the package transfer already failed")

-- `ok (some chunk)` is the source's `Ok(true)`, and `ok none` its `Ok(false)`.
unfoldable pub next_chunk : PackageReader → Result (Option Bytes) IoError × PackageReader
unfolding read_chunk remember
next_chunk r =
    if r.failed
    then (err already_failed, r)
    else if r.remaining == 0
    then (ok none, r)
    else remember (read_chunk r)

-- One round of the loop of `drain`, before the rounds `more`.
unfoldable pub drain_round :
    (PackageReader → Result (Unit {0}) IoError × PackageReader)
    → Result (Option Bytes) IoError × PackageReader
    → Result (Unit {0}) IoError × PackageReader
drain_round more (ok (some buf), r) = more r
drain_round more (ok none, r) = (ok tt, r)
drain_round more (err e, r) = (err e, r)

-- The loop on fuel. A round that goes on has received a frame, so one round more than the frames
-- to come is enough.
unfoldable pub drain_loop : ℕ → PackageReader → Result (Unit {0}) IoError × PackageReader
unfolding drain_round next_chunk
drain_loop zero r = (ok tt, r)
drain_loop (suc fuel) r = drain_round (drain_loop fuel) (next_chunk r)

unfoldable pub drain : PackageReader → Result (Unit {0}) IoError × PackageReader
unfolding drain_loop
drain r = drain_loop (suc (length r.recv)) r
