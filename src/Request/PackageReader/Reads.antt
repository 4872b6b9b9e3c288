-- ===== src/Request/PackageReader/Reads.antt =====
-- `PackageReader` of request.rs: what one read does, and what any number of reads hand out.
use review_protocol.Prelude.{
  ℕ, ◌+◌, ◌≤◌, ◌<◌, ◌≡◌, refl, true, false, ok, err, none, some, List, [], ◌∷◌, length, arith,
}
use review_protocol.ProtocolError.{IoError}
use review_protocol.Wire.{Bytes, RecvStream}
use review_protocol.Request.PackageReader.{PackageReader, next_chunk, already_failed, new}

-- The bytes of a list of chunks.
abbrev pub total : List Bytes → ℕ
total [] = 0
total (c ∷ cs) = length c + total cs

-- The outcomes of receives that all succeed, before further ones.
abbrev pub received : List Bytes → RecvStream → RecvStream
received [] rest = rest
received (c ∷ cs) rest = ok c ∷ received cs rest

-- A read that hands out a chunk has received it as the next frame, and counts it once.
pub record Delivers (r : PackageReader) (c : Bytes) (r' : PackageReader) : Type 0 where
  pub frame : r.recv ≡ ok c ∷ r'.recv
  pub counted : length c + r'.remaining ≡ r.remaining
  pub same_size : r'.size ≡ r.size
  pub intact : r'.failed ≡ false
  pub pending : 0 < r.remaining

pub next_chunk-Delivers :
    (r : PackageReader) (c : Bytes) → (next_chunk r).0 ≡ ok (some c) → Delivers r c (next_chunk r).1
unfolding next_chunk
next_chunk-Delivers r c h = ground arith

-- The reads without a chunk: the payload is complete and nothing is touched, or the read fails,
-- which is remembered and counts no byte.
pub next_chunk-done :
    (r : PackageReader)
    → (next_chunk r).0 ≡ ok none
    → ((next_chunk r).1 ≡ r) × (r.remaining ≡ 0) × (r.failed ≡ false)
unfolding next_chunk
next_chunk-done r h = ground arith

pub next_chunk-fails :
    (r : PackageReader) (e : IoError)
    → (next_chunk r).0 ≡ err e
    → ((next_chunk r).1.failed ≡ true) × ((next_chunk r).1.remaining ≡ r.remaining)
unfolding next_chunk
next_chunk-fails r e h = ground arith

-- Any number of reads that hand out chunks, one after the other.
pub data Reads : PackageReader → List Bytes → PackageReader → Type 0 where
  stop : {r : PackageReader} → Reads r [] r
  chunk :
      {r r' : PackageReader} {c : Bytes} {cs : List Bytes}
      → (next_chunk r).0 ≡ ok (some c)
      → Reads (next_chunk r).1 cs r'
      → Reads r (c ∷ cs) r'

pub Reads-counted :
    {r r' : PackageReader} {cs : List Bytes} → Reads r cs r' → total cs + r'.remaining ≡ r.remaining
Reads-counted stop = omega arith
Reads-counted (chunk {r = r} {c = c} h t) =
    omega (arith, (next_chunk-Delivers r c h).counted, Reads-counted t)

pub Reads-frames :
    {r r' : PackageReader} {cs : List Bytes} → Reads r cs r' → r.recv ≡ received cs r'.recv
Reads-frames stop = refl
Reads-frames (chunk {r = r} {c = c} h t) = cc ((next_chunk-Delivers r c h).frame, Reads-frames t)

-- Whatever number of reads a handler makes of a new reader, the chunks that it gets are the next
-- frames of the stream, in order, and hold no more bytes than the declared size; the bytes
-- still expected are the rest of that size.
pub chunks_within_size :
    (recv : RecvStream) (size : ℕ) (cs : List Bytes) (r : PackageReader)
    → Reads (new recv size) cs r
    → (recv ≡ received cs r.recv) × (total cs ≤ size) × (total cs + r.remaining ≡ size)
unfolding new
chunks_within_size recv size cs r h =
    (Reads-frames h, omega (arith, Reads-counted h), Reads-counted h)

pub next_chunk-failed :
    (r : PackageReader) → r.failed ≡ true → next_chunk r ≡ (err already_failed, r)
unfolding next_chunk
next_chunk-failed r h = rw h

-- A read that fails makes the next one fail too, and the next one leaves the reader, and so the
-- stream and every read after it, as they are.
pub failure_is_sticky :
    (r : PackageReader) (e : IoError)
    → (next_chunk r).0 ≡ err e
    → next_chunk (next_chunk r).1 ≡ (err already_failed, (next_chunk r).1)
failure_is_sticky r e h = next_chunk-failed (next_chunk r).1 (next_chunk-fails r e h).0
