-- ===== src/Server/Api/SendPackage.antt =====
-- `send_package` of server/api.rs: the payload of an install, as length-prefixed chunks.
pub mod Chunks
pub mod Succeeds
pub mod Delivery
use review_protocol.Prelude.{
  ℕ, zero, suc, ◌-◌, String, if◌then◌else◌, ◌*◌, ◌≤◌, ◌≡◌, min, Bool, true, false, Result, ok, err,
  List, length, ◌==◌, ◌<>◌, decimal,
}
use review_protocol.ProtocolError.{IoError}
use review_protocol.Wire.{Bytes, SendStream, send_frame}
use review_protocol.Server.Api.Errors.{ApiError, io, context, text}

abbrev pub package_chunk_len : ℕ
package_chunk_len = 64 * 1024

-- `AsyncRead`, over the state `S` of a source: one read into a buffer of `want` bytes gives at
-- most that many, and none at the end of the source. This is the documented contract of the
-- trait, which callers implement.
pub record AsyncRead (S : Type 0) : Type 0 where
  pub read : ℕ → S → Result Bytes IoError × S
  pub read_le : (want : ℕ) (s : S) (b : Bytes) → (read want s).0 ≡ ok b → length b ≤ want

module _ {S : Type 0} (pkg : AsyncRead S) (size : ℕ) where
  abbrev pub Sending : Type 0
  Sending = Result (Unit {0}) ApiError × S × SendStream Bytes

  abbrev ended_early : ℕ → String
  ended_early remaining =
      "the package source ended after "
      <> decimal (size - remaining)
      <> " of "
      <> decimal size
      <> " bytes"

  -- After `send_raw`: the loop goes on with `more`, or returns the error.
  unfoldable pub after_send :
      (S → SendStream Bytes → Sending) → S → Result (Unit {0}) IoError × SendStream Bytes → Sending
  after_send more s (ok u, out) = more s out
  after_send more s (err e, out) = (err (io e), s, out)

  -- After `read`: a chunk is sent, and an early end of the source is an error.
  unfoldable pub after_read :
      (ℕ → S → SendStream Bytes → Sending)
      → ℕ
      → SendStream Bytes
      → Result Bytes IoError × S
      → Sending
  unfolding after_send
  after_read more remaining out (ok chunk, s) =
      if length chunk == 0
      then (err (text (ended_early remaining)), s, out)
      else after_send (more (remaining - length chunk)) s (send_frame chunk out)
  after_read more remaining out (err e, s) = (err (context "reading the package payload" e), s, out)

  -- The loop on fuel. Each round that goes on has sent a byte, so as many rounds as bytes remain
  -- are enough.
  unfoldable pub send_loop : ℕ → ℕ → S → SendStream Bytes → Sending
  unfolding after_read
  send_loop zero remaining s out = (ok tt, s, out)
  send_loop (suc fuel) remaining s out =
      if remaining == 0
      then (ok tt, s, out)
      else after_read (send_loop fuel) remaining out (pkg.read (min remaining package_chunk_len) s)

  unfoldable pub send_package : S → SendStream Bytes → Sending
  unfolding send_loop
  send_package s out = send_loop size size s out
