-- ===== src/Server/Api/SendPackage/Succeeds.antt =====
-- `send_package` of server/api.rs: a source that does not end early, and sends that do not fail.
use review_protocol.Prelude.{
  ℕ, zero, suc, ◌-◌, ◌<◌, ◌≡◌, refl, min, inl, inr, Result, ok, err, length, arith, Bool-cases,
  ◌==◌,
}
use review_protocol.ProtocolError.{IoError}
use review_protocol.Wire.{Bytes, SendStream}
use review_protocol.Wire.Laws.{Reliable, send_frame-Reliable}
use review_protocol.Server.Api.SendPackage.{
  AsyncRead, Sending, package_chunk_len, after_read, send_loop, send_package,
}
use review_protocol.Prelude.{false, List, ◌++◌, All}
use review_protocol.Request.PackageReader.Reads.{total}
use review_protocol.Server.Api.SendPackage.Chunks.{IsChunk, finished_transfer_has_the_size}

module _ {S : Type 0} (pkg : AsyncRead S) where
  -- A source whose reads give at least a byte when they are asked for one.
  abbrev pub Endless : Type 0
  Endless = (n : ℕ) (s : S) → 0 < n → (c : Bytes) × ((pkg.read n s).0 ≡ ok c) × (0 < length c)

  module _ (size : ℕ) where
    after_read-succeeds :
        (more : ℕ → S → SendStream Bytes → Sending pkg size) (remaining : ℕ)
        (out : SendStream Bytes) (x : Result Bytes IoError × S) (c : Bytes)
        → Reliable out
        → x.0 ≡ ok c
        → 0 < length c
        → ((s : S) (o : SendStream Bytes)
            → Reliable o
            → (more (remaining - length c) s o).0 ≡ ok tt)
        → (after_read pkg size more remaining out x).0 ≡ ok tt
    unfolding after_read
    after_read-succeeds more remaining out (ok d, s) c r h some_bytes k =
        let same : d ≡ c = ground arith in
        let not_empty : (length c == 0) ≡ false = ground arith in
        rw (same, not_empty, send_frame-Reliable c out r) (k s _ refl)
    after_read-succeeds more remaining out (err e, s) c r h some_bytes k = cc

    send_loop-succeeds :
        (fuel remaining : ℕ) (s : S) (out : SendStream Bytes)
        → Endless
        → Reliable out
        → (send_loop pkg size fuel remaining s out).0 ≡ ok tt
    unfolding send_loop
    send_loop-succeeds zero remaining s out endless r = refl
    send_loop-succeeds (suc fuel) remaining s out endless r = elim (Bool-cases (remaining == 0)) [
      | inl none_left ↦ rw none_left
      | inr some_left ↦
          let (c, gives, some_bytes) = endless (min remaining package_chunk_len) s (ground arith) in
          rw some_left (
            after_read-succeeds (send_loop pkg size fuel) remaining out
              (pkg.read (min remaining package_chunk_len) s) c r gives some_bytes
              (λ t o q. send_loop-succeeds fuel (remaining - length c) t o endless q))
    ]

    -- A transfer from a source that always has a byte to give, over a stream whose sends do not
    -- fail, ends and succeeds: what it has sent behind the earlier frames are chunks that make up the
    -- declared size exactly.
    pub send_package_succeeds :
        (s : S) (out : SendStream Bytes)
        → Endless
        → Reliable out
        → ((send_package pkg size s out).0 ≡ ok tt)
          × (chunks : List Bytes) × ((send_package pkg size s out).2.sent ≡ out.sent ++ chunks)
          × All IsChunk chunks
          × (total chunks ≡ size)
    unfolding send_package
    send_package_succeeds s out endless r =
        let done = send_loop-succeeds size size s out endless r in
        let (chunks, appended, are_chunks, complete) =
          finished_transfer_has_the_size pkg size s out done in
        (done, chunks, appended, are_chunks, complete)
