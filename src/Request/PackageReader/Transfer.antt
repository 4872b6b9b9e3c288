-- ===== src/Request/PackageReader/Transfer.antt =====
-- `PackageReader` of request.rs on a payload that was sent whole: whatever the handler reads of it,
-- the stream ends up behind it.
use review_protocol.Prelude.{
  ◌<◌, ◌≡◌, refl, ap, ◌∙◌, false, ok, none, some, List, [], ◌∷◌, length, arith, All,
}
use review_protocol.Wire.{Bytes, RecvStream}
use review_protocol.Request.PackageReader.{
  PackageReader, new, next_chunk, u64_limit, drain_round, drain,
}
use review_protocol.Request.PackageReader.Reads.{total, received}
use review_protocol.Request.PackageReader.Drain.{drain_equation, drain-some}
use review_protocol.Request.Installer.{Installer, finish, inspect, read, run_installer}

abbrev pub NonEmpty : Bytes → Type 0
NonEmpty c = 0 < length c

-- The frames `cs` before `rest` are what is still to come of the payload.
pub record OnTrack (rest : RecvStream) (cs : List Bytes) (r : PackageReader) : Type 0 where
  pub ahead : r.recv ≡ received cs rest
  pub expected : r.remaining ≡ total cs
  pub intact : r.failed ≡ false
  pub nonempty : All NonEmpty cs
  pub fits : total cs < u64_limit

module _ (rest : RecvStream) where
  next_chunk-end : (r : PackageReader) → OnTrack rest [] r → next_chunk r ≡ (ok none, r)
  unfolding next_chunk
  next_chunk-end r t = ground arith

  next_chunk-on :
      (c : Bytes) (cs : List Bytes) (r : PackageReader)
      → OnTrack rest (c ∷ cs) r
      → ((next_chunk r).0 ≡ ok (some c)) × OnTrack rest cs (next_chunk r).1
  unfolding next_chunk
  next_chunk-on c cs r t = ground arith

  next_chunk-OnTrack :
      (cs : List Bytes) (r : PackageReader)
      → OnTrack rest cs r
      → (ds : List Bytes) × OnTrack rest ds (next_chunk r).1
  next_chunk-OnTrack [] r t = ([], rw (next_chunk-end r t) t)
  next_chunk-OnTrack (c ∷ cs) r t = (cs, (next_chunk-on c cs r t).1)

  run_installer-OnTrack :
      {H : Type 0} (p : Installer H) (cs : List Bytes) (r : PackageReader)
      → OnTrack rest cs r
      → (ds : List Bytes) × OnTrack rest ds (run_installer p r).2
  unfolding run_installer
  run_installer-OnTrack (finish result h) cs r t = (cs, t)
  run_installer-OnTrack (inspect k) cs r t = run_installer-OnTrack (k r.size r.remaining) cs r t
  run_installer-OnTrack (read k) cs r t =
      let (ds, u) = next_chunk-OnTrack cs r t in
      run_installer-OnTrack (k (next_chunk r).0) ds (next_chunk r).1 u

  drain-OnTrack :
      (cs : List Bytes) (r : PackageReader)
      → OnTrack rest cs r
      → ((drain r).0 ≡ ok tt) × ((drain r).1.recv ≡ rest)
  unfolding drain_round
  drain-OnTrack [] r t =
      let e = drain_equation r ∙ ap (drain_round drain) (next_chunk-end r t) in
      (ap (λ x. x.0) e, ap (λ x. x.1.recv) e ∙ t.ahead)
  drain-OnTrack (c ∷ cs) r t =
      let (some_c, u) = next_chunk-on c cs r t in
      rw (drain-some r c some_c) (drain-OnTrack cs (next_chunk r).1 u)

-- A payload whose frames are not empty, hold the declared size together, and stand at the front of
-- the stream: whatever the handler reads of it, and in whatever way it ends, the drain
-- after it succeeds and leaves the stream at the frame behind the payload.
pub transfer_ends_behind_payload :
    {H : Type 0} (p : Installer H) (cs : List Bytes) (rest : RecvStream)
    → All NonEmpty cs
    → total cs < u64_limit
    → let after = drain (run_installer p (new (received cs rest) (total cs))).2 in
      (after.0 ≡ ok tt) × (after.1.recv ≡ rest)
unfolding new
transfer_ends_behind_payload p cs rest nonempty fits =
    let start : OnTrack rest cs (new (received cs rest) (total cs)) = record {
      ahead = refl;
      expected = refl;
      intact = refl;
      nonempty = nonempty;
      fits = fits;
    } in
    let (ds, t) = run_installer-OnTrack rest p cs (new (received cs rest) (total cs)) start in
    drain-OnTrack rest ds (run_installer p (new (received cs rest) (total cs))).2 t
