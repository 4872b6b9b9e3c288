-- ===== src/Request/Installer.antt =====
-- What a handler's `node_package_install` of request.rs can do with the `PackageReader` that it
-- borrows: look at its sizes, and read the next chunk. The handler itself is the application's.
use review_protocol.Prelude.{ℕ, String, Result, Option}
use review_protocol.ProtocolError.{IoError}
use review_protocol.Wire.{Bytes}
use review_protocol.Types.Node.Package.{NodePackageResponse}
use review_protocol.Request.PackageReader.{PackageReader, next_chunk}

-- The rest of a handler's run, over its state `H`: it returns, or it looks at `size()` and
-- `remaining()`, or it awaits `next_chunk`, and goes on with the answer.
pub data Installer (H : Type 0) : Type 0 where
  finish : Result NodePackageResponse String → H → Installer H
  inspect : (ℕ → ℕ → Installer H) → Installer H
  read : (Result (Option Bytes) IoError → Installer H) → Installer H

unfoldable pub run_installer :
    {H : Type 0}
    → Installer H
    → PackageReader
    → Result NodePackageResponse String × H × PackageReader
run_installer (finish result h) r = (result, h, r)
run_installer (inspect k) r = run_installer (k r.size r.remaining) r
run_installer (read k) r = run_installer (k (next_chunk r).0) (next_chunk r).1
