-- ===== src/Client/Builder.antt =====
-- `ConnectionBuilder` of client.rs: what an agent connects with and advertises. Reading PEM and
-- holding certificates is the rustls crates'; a `BTreeSet` is collected by `to_set`.
pub mod Configured
use review_protocol.Prelude.{
  ℕ, String, Bool, true, false, Result, ok, err, Option, none, some, List, [], ◌∷◌, and_then,
  map_err, if◌then◌else◌,
}
use review_protocol.ProtocolError.{IoError, io_error, invalid_data, message}
use review_protocol.Wire.{Bytes}
use review_protocol.Types.Shared.{
  IpAddr, v4, v6, SocketAddr, Status, ManifestFormatRange, ProvisioningFingerprint, AuditHealth,
}

-- `rustls_pemfile::certs` gives an outcome per certificate, `private_key` the first key if there
-- is one, and `RootCertStore::add` the store with one more certificate. A failure other than of
-- reading is given by its text.
pub record Tls (Cert Key Roots : Type 0) : Type 0 where
  pub certs : Bytes → List (Result Cert IoError)
  pub private_key : Bytes → Result (Option Key) String
  pub empty : Roots
  pub add : Cert → Roots → Result Roots String

-- `is_ipv6`
abbrev pub is_ipv6 : IpAddr → Bool
is_ipv6 (v4 a) = false
is_ipv6 (v6 a) = true

-- `Ipv6Addr::UNSPECIFIED` and `Ipv4Addr::UNSPECIFIED`, of the family that the flag names.
abbrev pub unspecified : Bool → IpAddr
unspecified ipv6 = if ipv6 then v6 0 else v4 0

-- `iter.collect::<Result<Vec<_>, _>>()`
abbrev pub collect : {A E : Type 0} → List (Result A E) → Result (List A) E
collect [] = ok []
collect (ok x ∷ rest) = and_then (collect rest) (λ xs. ok (x ∷ xs))
collect (err e ∷ rest) = err e

pub record ConnectionBuilder (Cert Key Roots : Type 0) : Type 0 where
  pub remote_name : String
  pub remote_addr : SocketAddr
  pub local_addr : IpAddr
  pub agent_name : String
  pub agent_version : String
  pub protocol_version : String
  pub status : Status
  pub capabilities : List String
  pub active_trust_epoch : Option ℕ
  pub manifest_formats : Option ManifestFormatRange
  pub provisioning_fingerprint : Option ProvisioningFingerprint
  pub audit_health : Option AuditHealth
  pub roots : Roots
  pub certs : List Cert
  pub key : Key

module _ {Cert Key Roots : Type 0} (tls : Tls Cert Key Roots) where
  abbrev pub Builder : Type 0
  Builder = ConnectionBuilder Cert Key Roots

  -- `certs.is_empty()`
  abbrev pub reject_empty : List Cert → Result (List Cert) IoError
  reject_empty [] = err (io_error invalid_data (message "no certificate"))
  reject_empty (c ∷ cs) = ok (c ∷ cs)

  unfoldable pub parse_certs : Bytes → Result (List Cert) IoError
  parse_certs cert = and_then (collect (tls.certs cert)) reject_empty

  -- `.ok_or_else(…)`
  abbrev pub require_key : Option Key → Result Key IoError
  require_key none = err (io_error invalid_data (message "no private key"))
  require_key (some k) = ok k

  unfoldable pub parse_key : Bytes → Result Key IoError
  parse_key key =
      and_then (map_err (λ e. io_error invalid_data (message e)) (tls.private_key key)) require_key

  unfoldable pub new :
      String
      → SocketAddr
      → String
      → String
      → String
      → Status
      → Bytes
      → Bytes
      → Result Builder IoError
  unfolding parse_certs parse_key
  new remote_name remote_addr agent_name agent_version protocol_version status cert key =
      and_then (parse_certs cert) λ certs. and_then (parse_key key) λ k. ok (record {
        remote_name = remote_name;
        remote_addr = remote_addr;
        local_addr = unspecified (is_ipv6 remote_addr.ip);
        agent_name = agent_name;
        agent_version = agent_version;
        protocol_version = protocol_version;
        status = status;
        capabilities = [];
        active_trust_epoch = none;
        manifest_formats = none;
        provisioning_fingerprint = none;
        audit_health = none;
        roots = tls.empty;
        certs = certs;
        key = k;
      })

  unfoldable pub set_capabilities : (List String → List String) → List String → Builder → Builder
  set_capabilities to_set capabilities b = record b { capabilities = to_set capabilities }

  unfoldable pub set_active_trust_epoch : ℕ → Builder → Builder
  set_active_trust_epoch epoch b = record b { active_trust_epoch = some epoch }

  unfoldable pub set_manifest_formats : ManifestFormatRange → Builder → Builder
  set_manifest_formats formats b = record b { manifest_formats = some formats }

  unfoldable pub set_provisioning_fingerprint : ProvisioningFingerprint → Builder → Builder
  set_provisioning_fingerprint fingerprint b = record b {
    provisioning_fingerprint = some fingerprint;
  }

  unfoldable pub set_audit_health : AuditHealth → Builder → Builder
  set_audit_health health b = record b { audit_health = some health }

  unfoldable pub set_cert : Bytes → Builder → Result (Unit {0}) IoError × Builder
  unfolding parse_certs
  set_cert cert b = elim (parse_certs cert) [
    | ok certs ↦ (ok tt, record b { certs = certs })
    | err e ↦ (err e, b)
  ]

  unfoldable pub set_key : Bytes → Builder → Result (Unit {0}) IoError × Builder
  unfolding parse_key
  set_key key b = elim (parse_key key) [ ok k ↦ (ok tt, record b { key = k }) | err e ↦ (err e, b) ]

  unfoldable pub set_local_addr : IpAddr → Builder → Builder
  set_local_addr addr b = record b { local_addr = addr }

  -- The certificates of one file, added one after the other up to the first failure: the store
  -- keeps those before it.
  unfoldable pub add_certs : List (Result Cert IoError) → Roots → Result (Unit {0}) IoError × Roots
  add_certs [] roots = (ok tt, roots)
  add_certs (ok cert ∷ rest) roots = elim (tls.add cert roots) [
    | ok more ↦ add_certs rest more
    | err e ↦ (err (io_error invalid_data (message e)), roots)
  ]
  add_certs (err e ∷ rest) roots = (err e, roots)

  -- Behind a file: the next ones, unless it failed.
  unfoldable pub after_file :
      (Roots → Result (Unit {0}) IoError × Roots)
      → Result (Unit {0}) IoError × Roots
      → Result (Unit {0}) IoError × Roots
  after_file more (ok u, roots) = more roots
  after_file more (err e, roots) = (err e, roots)

  unfoldable pub add_files : List Bytes → Roots → Result (Unit {0}) IoError × Roots
  unfolding add_certs after_file
  add_files [] roots = (ok tt, roots)
  add_files (pem ∷ pems) roots = after_file (add_files pems) (add_certs (tls.certs pem) roots)

  -- The store is emptied first, and a failure leaves what was added before it.
  unfoldable pub root_certs : List Bytes → Builder → Result (Unit {0}) IoError × Builder
  unfolding add_files
  root_certs pems b = let (r, roots) = add_files pems tls.empty in (r, record b { roots = roots })

  unfoldable pub add_root_certs : Bytes → Builder → Result (Unit {0}) IoError × Builder
  unfolding add_certs
  add_root_certs pem b =
      let (r, roots) = add_certs (tls.certs pem) b.roots in (r, record b { roots = roots })
