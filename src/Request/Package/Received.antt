-- ===== src/Request/Package/Received.antt =====
-- The reads of a handler's install and of the drain after it, in `dispatch_node_package` of
-- request.rs: together they take the declared payload, or the drain fails.
use review_protocol.Prelude.{
  ◌≡◌, refl, ap, ◌∙◌, ◌⊎◌, inl, inr, true, Result, ok, err, Option, none, some, List, [], ◌∷◌, ◌++◌,
  arith,
}
use mathlib.Core.Path.{subst}
use review_protocol.ProtocolError.{IoError}
use review_protocol.Wire.{Bytes}
use review_protocol.Request.PackageReader.{
  PackageReader, next_chunk, already_failed, drain, drain_round,
}
use review_protocol.Request.PackageReader.Reads.{
  Reads, stop, chunk, Reads-frames, Reads-counted, next_chunk-done, next_chunk-fails,
  next_chunk-failed, total, received,
}
use review_protocol.Request.PackageReader.Drain.{Drained, drain-Drained, drain_equation}
use review_protocol.Request.Installer.{Installer, finish, inspect, read, run_installer}

drain-failed : (r : PackageReader) → r.failed ≡ true → (drain r).0 ≡ err already_failed
unfolding drain_round
drain-failed r f = ap (λ x. x.0) (drain_equation r ∙ ap (drain_round drain) (next_chunk-failed r f))

Reads-append :
    {r s t : PackageReader} {cs ds : List Bytes}
    → Reads r cs s
    → Reads s ds t
    → Reads r (cs ++ ds) t
Reads-append stop d = d
Reads-append (chunk h c) d = chunk h (Reads-append c d)

-- What is left of a reader: a remembered failure, or what some reads leave.
abbrev Left : PackageReader → PackageReader → Type 0
Left r r' = (r'.failed ≡ true) ⊎ ((cs : List Bytes) × Reads r cs r')

Left-chunk :
    (r : PackageReader) (c : Bytes) (r' : PackageReader)
    → (next_chunk r).0 ≡ ok (some c)
    → Left (next_chunk r).1 r'
    → Left r r'
Left-chunk r c r' h (inl f) = inl f
Left-chunk r c r' h (inr (cs, reads)) = inr (c ∷ cs, chunk h reads)

module _ {H : Type 0} where
  failed-sticks :
      (p : Installer H) (r : PackageReader) → r.failed ≡ true → (run_installer p r).2.failed ≡ true
  unfolding run_installer
  failed-sticks (finish result h) r f = f
  failed-sticks (inspect k) r f = failed-sticks (k r.size r.remaining) r f
  failed-sticks (read k) r f =
      failed-sticks (k (next_chunk r).0) (next_chunk r).1
        (ap (λ x. x.1.failed) (next_chunk-failed r f) ∙ f)

  run_installer-Left : (p : Installer H) (r : PackageReader) → Left r (run_installer p r).2
  unfolding run_installer
  run_installer-Left (finish result h) r = inr ([], stop)
  run_installer-Left (inspect k) r = run_installer-Left (k r.size r.remaining) r
  run_installer-Left (read k) r =
      on (next_chunk r).0 refl (run_installer-Left (k (next_chunk r).0) (next_chunk r).1)
    where
      end : PackageReader
      end = (run_installer (k (next_chunk r).0) (next_chunk r).1).2

      on :
          (x : Result (Option Bytes) IoError)
          → (next_chunk r).0 ≡ x
          → Left (next_chunk r).1 end
          → Left r end
      on (ok (some c)) e l = Left-chunk r c end e l
      on (ok none) e l = subst (λ y. Left y end) (next_chunk-done r e).0 l
      on (err x) e l =
          inl (failed-sticks (k (next_chunk r).0) (next_chunk r).1 (next_chunk-fails r x e).0)

Drained-Reads :
    (r : PackageReader) (x : Result (Unit {0}) IoError × PackageReader)
    → Drained r x
    → x.0 ≡ ok tt
    → (cs : List Bytes) × Reads r cs x.1 × (x.1.remaining ≡ 0)
Drained-Reads r (ok u, r') (cs, reads, none_left, intact) h = (cs, reads, none_left)
Drained-Reads r (err e, r') d h = cc

-- If the drain behind a handler succeeds, the two have read the frames of the whole payload.
pub drained_after_run :
    {H : Type 0} (p : Installer H) (r : PackageReader)
    → (drain (run_installer p r).2).0 ≡ ok tt
    → (cs : List Bytes) × (r.recv ≡ received cs (drain (run_installer p r).2).1.recv)
      × (total cs ≡ r.remaining)
drained_after_run p r h = elim (run_installer-Left p r) [
  | inl f ↦ absurd (ok_or_err h (drain-failed (run_installer p r).2 f))
  | inr (cs, reads) ↦
      let (ds, rest, none_left) =
        Drained-Reads (run_installer p r).2 (drain (run_installer p r).2)
          (drain-Drained (run_installer p r).2) h in
      let all_reads = Reads-append reads rest in
      (cs ++ ds, Reads-frames all_reads, omega (arith, Reads-counted all_reads))
]
  where
    ok_or_err : {x : Result (Unit {0}) IoError} → x ≡ ok tt → x ≡ err already_failed → ⊥
    ok_or_err a b = cc
