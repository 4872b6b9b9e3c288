-- ===== src/Request/PackageReader/Drain.antt =====
-- `PackageReader::drain` of request.rs: the loop ends, and what it says of the payload.
use mathlib.Core.Path.{subst}
use review_protocol.Prelude.{
  sym, ◌∙◌, ℕ, zero, suc, ◌<◌, ◌≡◌, refl, ap, false, Result, ok, err, Option, none, some, List, [],
  ◌∷◌, length, arith,
}
use review_protocol.ProtocolError.{IoError}
use review_protocol.Wire.{Bytes}
use review_protocol.Request.PackageReader.{
  PackageReader, next_chunk, drain_round, drain_loop, drain,
}
use review_protocol.Request.PackageReader.Reads.{
  Reads-frames, Reads-counted, total, received, Reads, stop, chunk, next_chunk-Delivers,
  next_chunk-done,
}

-- The outcome of one read, with the reader after it.
abbrev Outcome : Type 0
Outcome = Result (Option Bytes) IoError × PackageReader

shorter :
    (r : PackageReader) (c : Bytes)
    → (next_chunk r).0 ≡ ok (some c)
    → length (next_chunk r).1.recv < length r.recv
shorter r c h = omega (arith, ap length (next_chunk-Delivers r c h).frame)

drain_round-cong :
    (k l : PackageReader → Result (Unit {0}) IoError × PackageReader) (x : Outcome)
    → ((c : Bytes) → x.0 ≡ ok (some c) → k x.1 ≡ l x.1)
    → drain_round k x ≡ drain_round l x
unfolding drain_round
drain_round-cong k l (ok (some c), r) h = h c refl
drain_round-cong k l (ok none, r) h = refl
drain_round-cong k l (err e, r) h = refl

-- With more fuel than frames to come, the fuel does not matter.
drain_loop-fuel :
    (f g : ℕ) (r : PackageReader)
    → length r.recv < f
    → length r.recv < g
    → drain_loop f r ≡ drain_loop g r
unfolding drain_loop
drain_loop-fuel zero g r h k = absurd (omega arith)
drain_loop-fuel (suc f) zero r h k = absurd (omega arith)
drain_loop-fuel (suc f) (suc g) r h k =
    drain_round-cong (drain_loop f) (drain_loop g) (next_chunk r) λ c e.
      drain_loop-fuel f g (next_chunk r).1 (omega (arith, shorter r c e))
        (omega (arith, shorter r c e))

-- The fuel of `drain` is enough for every reader: `drain` satisfies the equation of the source's
-- `while` loop, which reads one chunk and then goes on, ends, or fails.
pub drain_equation : (r : PackageReader) → drain r ≡ drain_round drain (next_chunk r)
unfolding drain
drain_equation r = drain_round-cong (drain_loop (length r.recv)) drain (next_chunk r) λ c e.
    drain_loop-fuel (length r.recv) (suc (length (next_chunk r).1.recv)) (next_chunk r).1
      (shorter r c e) (omega arith)

pub drain-some :
    (r : PackageReader) (c : Bytes)
    → (next_chunk r).0 ≡ ok (some c)
    → drain r ≡ drain (next_chunk r).1
unfolding drain_round
drain-some r c h = drain_equation r ∙ on (next_chunk r) h
  where
    on : (x : Outcome) → x.0 ≡ ok (some c) → drain_round drain x ≡ drain x.1
    on (ok (some d), r') h = refl
    on (ok none, r') h = cc
    on (err e, r') h = cc

-- How a drain ends: after some reads the payload is complete, or a read fails.
abbrev pub Drained : PackageReader → Result (Unit {0}) IoError × PackageReader → Type 0
Drained r (ok u, r') = (cs : List Bytes) × Reads r cs r' × (r'.remaining ≡ 0) × (r'.failed ≡ false)
Drained r (err e, r') =
    (cs : List Bytes) × (last : PackageReader) × Reads r cs last
    × ((next_chunk last).0 ≡ err e)
    × (r' ≡ (next_chunk last).1)

Drained-chunk :
    (r : PackageReader) (c : Bytes) (x : Result (Unit {0}) IoError × PackageReader)
    → (next_chunk r).0 ≡ ok (some c)
    → Drained (next_chunk r).1 x
    → Drained r x
Drained-chunk r c (ok u, r') h (cs, reads, zero_left, intact) =
    (c ∷ cs, chunk h reads, zero_left, intact)
Drained-chunk r c (err e, r') h (cs, last, reads, fails, end) =
    (c ∷ cs, last, chunk h reads, fails, end)

drain_round-Drained :
    (k : PackageReader → Result (Unit {0}) IoError × PackageReader) (r : PackageReader)
    (x : Outcome)
    → next_chunk r ≡ x
    → ((c : Bytes) → x.0 ≡ ok (some c) → Drained x.1 (k x.1))
    → Drained r (drain_round k x)
unfolding drain_round
drain_round-Drained k r (ok (some c), r') e h =
    Drained-chunk r c (k r') (ap (λ p. p.0) e)
      (subst (λ y. Drained y (k r')) (sym (ap (λ p. p.1) e)) (h c refl))
drain_round-Drained k r (ok none, r') e h =
    let done = next_chunk-done r (ap (λ p. p.0) e) in
    let same : r ≡ r' = sym done.0 ∙ ap (λ p. p.1) e in
    ([], subst (λ y. Reads r [] y) same stop, rw (← same) done.1, rw (← same) done.2)
drain_round-Drained k r (err x, r') e h = ([], r, stop, ap (λ p. p.0) e, sym (ap (λ p. p.1) e))

drain_loop-Drained :
    (fuel : ℕ) (r : PackageReader) → length r.recv < fuel → Drained r (drain_loop fuel r)
unfolding drain_loop
drain_loop-Drained zero r h = absurd (omega arith)
drain_loop-Drained (suc fuel) r h =
    drain_round-Drained (drain_loop fuel) r (next_chunk r) refl
      λ c e. drain_loop-Drained fuel (next_chunk r).1 (omega (arith, shorter r c e))

pub drain-Drained : (r : PackageReader) → Drained r (drain r)
unfolding drain
drain-Drained r = drain_loop-Drained (suc (length r.recv)) r (omega arith)

Drained-frames :
    (r : PackageReader) (x : Result (Unit {0}) IoError × PackageReader)
    → Drained r x
    → x.0 ≡ ok tt
    → (cs : List Bytes) × (r.recv ≡ received cs x.1.recv) × (total cs ≡ r.remaining)
Drained-frames r (ok u, r') (cs, reads, none_left, intact) h =
    (cs, Reads-frames reads, omega (arith, Reads-counted reads))
Drained-frames r (err e, r') d h = cc

-- Draining succeeds only once the whole declared payload has been received: it has then taken
-- from the stream the frames whose bytes make up what was still expected, and nothing after them.
pub drain_takes_the_payload :
    (r : PackageReader)
    → (drain r).0 ≡ ok tt
    → (cs : List Bytes) × (r.recv ≡ received cs (drain r).1.recv) × (total cs ≡ r.remaining)
drain_takes_the_payload r = Drained-frames r (drain r) (drain-Drained r)
