-- ===== src/Server/Api/SendPackage/Chunks.antt =====
-- `send_package` of server/api.rs: the chunks that it sends.
use mathlib.Core.List.{append-nil, append_assoc}
use review_protocol.Prelude.{
  ℕ, zero, suc, ◌-◌, ◌≤◌, ◌<◌, ◌≡◌, refl, sym, ◌∙◌, min, ◌⊎◌, inl, inr, Result, ok, err, List, [],
  ◌∷◌, ◌++◌, length, All, arith, Bool-cases, ◌==◌,
}
use review_protocol.ProtocolError.{IoError}
use review_protocol.Wire.{Bytes, SendStream, send_frame}
use review_protocol.Request.PackageReader.Reads.{total}
use review_protocol.Server.Api.Errors.{ApiError}
use review_protocol.Wire.Laws.{send_frame-cases}
use review_protocol.Server.Api.SendPackage.{
  AsyncRead, Sending, package_chunk_len, after_send, after_read, send_loop, send_package,
}

-- A chunk that the agent's reader takes: not empty, and no longer than the chunk length.
abbrev pub IsChunk : Bytes → Type 0
IsChunk c = (0 < length c) × (length c ≤ package_chunk_len)

-- After a run that ended with `ended`, chunks stand behind what was sent before; they hold
-- `remaining` bytes together if the run succeeded, and no more bytes otherwise.
pub record Sent (remaining : ℕ) (before : List Bytes) (ended : Result (Unit {0}) ApiError)
    (after : List Bytes) : Type 0 where
  pub chunks : List Bytes
  pub appended : after ≡ before ++ chunks
  pub are_chunks : All IsChunk chunks
  pub within : total chunks ≤ remaining
  pub complete : ended ≡ ok tt → total chunks ≡ remaining

module _ {remaining : ℕ} {before after : List Bytes} {ended : Result (Unit {0}) ApiError} where
  Sent-nothing :
      before ≡ after → (ended ≡ ok tt → 0 ≡ remaining) → Sent remaining before ended after
  Sent-nothing e c = record {
    chunks = [];
    appended = sym e ∙ sym (append-nil before);
    are_chunks = tt;
    within = omega arith;
    complete = c;
  }

  Sent-chunk :
      (c : Bytes)
      → IsChunk c
      → length c ≤ remaining
      → Sent (remaining - length c) (before ++ c ∷ []) ended after
      → Sent remaining before ended after
  Sent-chunk c is_chunk le s = record {
    chunks = c ∷ s.chunks;
    appended = s.appended ∙ append_assoc before (c ∷ []) s.chunks;
    are_chunks = (is_chunk, s.are_chunks);
    within = omega (arith, s.within);
    complete = λ h. omega (arith, s.complete h);
  }

module _ {S : Type 0} (pkg : AsyncRead S) (size : ℕ) where
  abbrev SentBy : ℕ → SendStream Bytes → Sending pkg size → Type 0
  SentBy remaining out x = Sent remaining out.sent x.0 x.2.sent

  -- What one send does to the frames that were sent.
  abbrev Sends : Bytes → SendStream Bytes → Result (Unit {0}) IoError × SendStream Bytes → Type 0
  Sends c out x =
      ((x.0 ≡ ok tt) × (x.1.sent ≡ out.sent ++ c ∷ []))
      ⊎ ((e : IoError) × (x.0 ≡ err e) × (x.1.sent ≡ out.sent))

  after_send-Sent :
      (more : S → SendStream Bytes → Sending pkg size) (c : Bytes) (remaining : ℕ) (s : S)
      (out : SendStream Bytes) (x : Result (Unit {0}) IoError × SendStream Bytes)
      → Sends c out x
      → IsChunk c
      → length c ≤ remaining
      → ((t : S) (o : SendStream Bytes) → SentBy (remaining - length c) o (more t o))
      → SentBy remaining out (after_send pkg size more s x)
  unfolding after_send
  after_send-Sent more c remaining s out (ok u, o) (inl (p, q)) is_chunk le h =
      Sent-chunk c is_chunk le (rw (← q) (h s o))
  after_send-Sent more c remaining s out (ok u, o) (inr (e, p, q)) is_chunk le h = cc
  after_send-Sent more c remaining s out (err e, o) (inl (p, q)) is_chunk le h = cc
  after_send-Sent more c remaining s out (err e, o) (inr (d, p, q)) is_chunk le h =
      Sent-nothing (sym q) (λ k. cc)

  after_read-Sent :
      (more : ℕ → S → SendStream Bytes → Sending pkg size) (remaining : ℕ) (out : SendStream Bytes)
      (x : Result Bytes IoError × S)
      → ((c : Bytes) → x.0 ≡ ok c → (length c ≤ remaining) × (length c ≤ package_chunk_len))
      → ((n : ℕ) (t : S) (o : SendStream Bytes) → n < remaining → SentBy n o (more n t o))
      → SentBy remaining out (after_read pkg size more remaining out x)
  unfolding after_read
  after_read-Sent more remaining out (ok c, s) le h = elim (Bool-cases (length c == 0)) [
    | inl empty ↦ rw empty (Sent-nothing refl (λ k. cc))
    | inr some_bytes ↦ rw some_bytes (
        after_send-Sent (more (remaining - length c)) c remaining s out (send_frame c out)
          (send_frame-cases c out) (ground arith, (le c refl).1) (le c refl).0
          (λ t o. h (remaining - length c) t o (ground (arith, le c refl))))
  ]
  after_read-Sent more remaining out (err e, s) le h = Sent-nothing refl (λ k. cc)

  send_loop-Sent :
      (fuel remaining : ℕ) (s : S) (out : SendStream Bytes)
      → remaining ≤ fuel
      → SentBy remaining out (send_loop pkg size fuel remaining s out)
  unfolding send_loop
  send_loop-Sent zero remaining s out le = Sent-nothing refl (λ k. omega arith)
  send_loop-Sent (suc fuel) remaining s out le = elim (Bool-cases (remaining == 0)) [
    | inl none_left ↦ rw none_left (Sent-nothing refl (λ k. ground arith))
    | inr some_left ↦ rw some_left (
        after_read-Sent (send_loop pkg size fuel) remaining out
          (pkg.read (min remaining package_chunk_len) s)
          (λ c e. (
            omega (arith, pkg.read_le (min remaining package_chunk_len) s c e),
            omega (arith, pkg.read_le (min remaining package_chunk_len) s c e),
          ))
          (λ n t o lt. send_loop-Sent fuel n t o (omega arith)))
  ]

  pub send_package-Sent :
      (s : S) (out : SendStream Bytes)
      → Sent size out.sent (send_package pkg size s out).0 (send_package pkg size s out).2.sent
  unfolding send_package
  send_package-Sent s out = send_loop-Sent size size s out (omega arith)

  -- Whatever the source gives and whichever sends fail, what is sent behind the earlier frames are
  -- chunks of one byte to the chunk length, which hold no more bytes than the declared size.
  pub send_package_sends_chunks :
      (s : S) (out : SendStream Bytes)
      → (chunks : List Bytes) × ((send_package pkg size s out).2.sent ≡ out.sent ++ chunks)
        × All IsChunk chunks
        × (total chunks ≤ size)
  send_package_sends_chunks s out =
      let t = send_package-Sent s out in (t.chunks, t.appended, t.are_chunks, t.within)

  -- A transfer that succeeds has sent, behind the earlier frames, chunks that make up the declared
  -- size exactly.
  pub finished_transfer_has_the_size :
      (s : S) (out : SendStream Bytes)
      → (send_package pkg size s out).0 ≡ ok tt
      → (chunks : List Bytes) × ((send_package pkg size s out).2.sent ≡ out.sent ++ chunks)
        × All IsChunk chunks
        × (total chunks ≡ size)
  finished_transfer_has_the_size s out success =
      let t = send_package-Sent s out in (t.chunks, t.appended, t.are_chunks, t.complete success)
