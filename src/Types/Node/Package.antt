-- ===== src/Types/Node/Package.antt =====
-- types.rs, `node`: package requests, the verdict on an install, responses and apply errors, with
-- the trust epoch that an outcome confirms.
pub mod Laws
use review_protocol.Prelude.{ℕ, String, List, Option, none, some}
use review_protocol.Types.Shared.{ManifestFormatRange, SocketAddr, Timestamp}

pub record BootstrapMaterial : Type 0 where
  pub role_id : String
  pub wrapped_secret_id : String
  pub ca_anchor : List ℕ
  pub expires_at : Timestamp
  pub bootstrap_artifact : List ℕ

pub data FailurePolicy : Type 0 where
  rollback hold : FailurePolicy

-- The fields of `NodePackageRequest::Install`; `bind_addrs` is a `BTreeMap`.
pub record InstallFields : Type 0 where
  pub target : String
  pub instance_number : Option ℕ
  pub version : String
  pub commit : String
  pub size : ℕ
  pub idempotency_key : String
  pub bootstrap_material : Option BootstrapMaterial
  pub on_failure : FailurePolicy
  pub bind_addrs : Option (List (String × SocketAddr))
  pub config_template : Option String
  pub privilege_profile : Option String

-- `remove` carries target, instance and idempotency key, `status` target and instance.
pub data NodePackageRequest : Type 0 where
  install : InstallFields → NodePackageRequest
  remove : String → Option ℕ → String → NodePackageRequest
  list_installed : NodePackageRequest
  status : String → Option ℕ → NodePackageRequest
  list_host_ports : NodePackageRequest

-- `insufficient_disk_space` carries the file system, and the bytes required and available.
pub data InstallPreflight : Type 0 where
  proceed already_applied : InstallPreflight
  insufficient_disk_space : String → ℕ → ℕ → InstallPreflight
  bind_addrs_on_update namespace_unconfigured enrollment_unsupported : InstallPreflight
  config_template_on_update : InstallPreflight
  unknown_config_template : String → InstallPreflight

pub data Transport : Type 0 where
  tcp udp : Transport

pub record HostPort : Type 0 where
  pub transport : Transport
  pub port : ℕ

pub data Lifecycle : Type 0 where
  not_installed installing running stopped failed removing unknown : Lifecycle

pub record BoundAddr : Type 0 where
  pub name : String
  pub addr : String

pub record PackageState : Type 0 where
  pub version : String
  pub commit : String
  pub lifecycle : Lifecycle
  pub bound_addrs : List BoundAddr
  pub privilege_profile : Option String

pub record InstalledPackage : Type 0 where
  pub target : String
  pub instance_number : Option ℕ
  pub state : PackageState

pub record PackageIdentity : Type 0 where
  pub target : String
  pub version : String
  pub commit : String

-- `stale_trust_set` and `unsupported_manifest_format` carry the active epoch first.
pub data NodePackageError : Type 0 where
  target_mismatch : PackageIdentity → PackageIdentity → NodePackageError
  missing_bootstrap_material bootstrap_material_expired : NodePackageError
  insufficient_disk_space : String → ℕ → ℕ → NodePackageError
  stale_trust_set : ℕ → NodePackageError
  unsupported_manifest_format : ℕ → ManifestFormatRange → NodePackageError
  observation_unavailable unmanaged_instance_present : NodePackageError
  undeclared_privilege_profile : String → List String → NodePackageError
  unexpected_privilege_profile : String → NodePackageError
  missing_privilege_profile : NodePackageError

pub data NodePackageResponse : Type 0 where
  done accepted : NodePackageResponse
  installed : List InstalledPackage → NodePackageResponse
  state : PackageState → NodePackageResponse
  failed : NodePackageError → NodePackageResponse
  trust_active : ℕ → NodePackageResponse
  host_ports : List HostPort → NodePackageResponse

-- `NodePackageError::active_trust_epoch`
unfoldable pub error_active_trust_epoch : NodePackageError → Option ℕ
error_active_trust_epoch (stale_trust_set active_epoch) = some active_epoch
error_active_trust_epoch (unsupported_manifest_format active_epoch supported) = some active_epoch
error_active_trust_epoch _ = none

-- `NodePackageResponse::active_trust_epoch`
unfoldable pub active_trust_epoch : NodePackageResponse → Option ℕ
unfolding error_active_trust_epoch
active_trust_epoch (trust_active active_epoch) = some active_epoch
active_trust_epoch (failed e) = error_active_trust_epoch e
active_trust_epoch _ = none
