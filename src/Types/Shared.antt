-- ===== src/Types/Shared.antt =====
-- types.rs: shared data, and what the crate uses of the standard library's and jiff's types.
-- Addresses, durations and timestamps are only carried. A float is its bit pattern.
use review_protocol.Prelude.{ℕ, String, Bool, List, ◌&&◌, leb}

-- `i64`; `negsuc n` is -(n + 1).
pub data ℤ : Type 0 where
  pos negsuc : ℕ → ℤ

pub data IpAddr : Type 0 where
  v4 v6 : ℕ → IpAddr

pub record SocketAddr : Type 0 where
  pub ip : IpAddr
  pub port : ℕ

-- `std::time::Duration`, in nanoseconds.
pub record Duration : Type 0 where
  pub nanos : ℕ

-- `jiff::Timestamp`, in nanoseconds from the earliest timestamp.
pub record Timestamp : Type 0 where
  pub nanos : ℕ

-- `jiff::civil::DateTime`, in nanoseconds from the earliest date and time.
pub record CivilDateTime : Type 0 where
  pub nanos : ℕ

pub record ResourceUsage : Type 0 where
  pub cpu_usage : ℕ
  pub total_memory : ℕ
  pub used_memory : ℕ
  pub disk_used_bytes : ℕ
  pub disk_available_bytes : ℕ

pub record Process : Type 0 where
  pub user : String
  pub cpu_usage : ℕ
  pub mem_usage : ℕ
  pub start_time : ℤ
  pub command : String

pub data Status : Type 0 where
  ready idle : Status

pub record ManifestFormatRange : Type 0 where
  pub min : ℕ
  pub max : ℕ

-- A `BTreeMap` in the order of its keys.
pub record ProvisioningFingerprint : Type 0 where
  pub components : List (String × String)
  pub domain : String

pub record AuditHealth : Type 0 where
  pub below_low_water : Bool
  pub intent_without_outcome : ℕ

-- `ManifestFormatRange::contains`
unfoldable pub contains : ManifestFormatRange → ℕ → Bool
contains r format_version = leb r.min format_version && leb format_version r.max
