-- ===== src/Types/Node/Package/Laws.antt =====
-- types.rs, `node`: which outcomes of a package request confirm a trust epoch.
use review_protocol.Prelude.{ℕ, ◌≡◌, ◌↔◌, some, arith}
use review_protocol.Types.Shared.{ManifestFormatRange}
use review_protocol.Types.Node.Package.{
  NodePackageResponse, trust_active, failed, stale_trust_set, unsupported_manifest_format,
  active_trust_epoch,
}

-- The outcomes that the trust path reports, each with the agent's active epoch.
pub data ReportsEpoch (epoch : ℕ) (r : NodePackageResponse) : Type 0 where
  active : r ≡ trust_active epoch → ReportsEpoch epoch r
  stale : r ≡ failed (stale_trust_set epoch) → ReportsEpoch epoch r
  unsupported :
      (supported : ManifestFormatRange)
      → r ≡ failed (unsupported_manifest_format epoch supported)
      → ReportsEpoch epoch r

epoch-reports :
    (r : NodePackageResponse) (epoch : ℕ) → active_trust_epoch r ≡ some epoch → ReportsEpoch epoch r
unfolding active_trust_epoch
epoch-reports (trust_active e) epoch h = active (ground arith)
epoch-reports (failed (stale_trust_set e)) epoch h = stale (ground arith)
epoch-reports (failed (unsupported_manifest_format e s)) epoch h = unsupported s (ground arith)
epoch-reports (failed _) epoch h = ground arith
epoch-reports _ epoch h = ground arith

reports-epoch :
    (r : NodePackageResponse) (epoch : ℕ) → ReportsEpoch epoch r → active_trust_epoch r ≡ some epoch
unfolding active_trust_epoch
reports-epoch r epoch (active e) = ground arith
reports-epoch r epoch (stale e) = ground arith
reports-epoch r epoch (unsupported s e) = ground arith

-- A response yields a trust epoch exactly when it is one of the three outcomes of the trust path,
-- and the epoch is then the one that the outcome carries.
pub active_trust_epoch_iff :
    (r : NodePackageResponse) (epoch : ℕ)
    → (active_trust_epoch r ≡ some epoch) ↔ ReportsEpoch epoch r
active_trust_epoch_iff r epoch = (epoch-reports r epoch, reports-epoch r epoch)
