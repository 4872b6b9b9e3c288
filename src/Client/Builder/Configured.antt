-- ===== src/Client/Builder/Configured.antt =====
-- `ConnectionBuilder` of client.rs under any sequence of its setters.
use review_protocol.Prelude.{
  inl, inr, sym, ◌∙◌, Result-cases, ℕ, String, ◌≡◌, ◌≢◌, ok, List, [], ◌∷◌, arith,
}
use review_protocol.Wire.{Bytes}
use review_protocol.Types.Shared.{
  IpAddr, SocketAddr, Status, ManifestFormatRange, ProvisioningFingerprint, AuditHealth,
}
use review_protocol.Client.Builder.{
  Tls, ConnectionBuilder, parse_certs, parse_key, new, set_capabilities, set_active_trust_epoch,
  set_manifest_formats, set_provisioning_fingerprint, set_audit_health, set_cert, set_key,
  set_local_addr, root_certs, add_root_certs,
}

-- A call of a setter.
pub data Setting : Type 0 where
  capabilities : List String → Setting
  active_trust_epoch : ℕ → Setting
  manifest_formats : ManifestFormatRange → Setting
  provisioning_fingerprint : ProvisioningFingerprint → Setting
  audit_health : AuditHealth → Setting
  certificate private_key : Bytes → Setting
  roots : List Bytes → Setting
  more_roots : Bytes → Setting
  local_addr : IpAddr → Setting

module _ {Cert Key Roots : Type 0} (tls : Tls Cert Key Roots)
    (to_set : List String → List String) where
  -- The builder behind a call, failed calls included.
  abbrev pub set : Setting → ConnectionBuilder Cert Key Roots → ConnectionBuilder Cert Key Roots
  set (capabilities c) b = set_capabilities tls to_set c b
  set (active_trust_epoch e) b = set_active_trust_epoch tls e b
  set (manifest_formats f) b = set_manifest_formats tls f b
  set (provisioning_fingerprint f) b = set_provisioning_fingerprint tls f b
  set (audit_health a) b = set_audit_health tls a b
  set (certificate pem) b = (set_cert tls pem b).1
  set (private_key pem) b = (set_key tls pem b).1
  set (roots pems) b = (root_certs tls pems b).1
  set (more_roots pem) b = (add_root_certs tls pem b).1
  set (local_addr a) b = set_local_addr tls a b

  abbrev pub configure :
      List Setting → ConnectionBuilder Cert Key Roots → ConnectionBuilder Cert Key Roots
  configure [] b = b
  configure (s ∷ ss) b = configure ss (set s b)

  -- The builder has a certificate, and names the agent and the manager that it was made for.
  pub record Usable (remote_name : String) (remote_addr : SocketAddr)
      (agent_name agent_version protocol_version : String) (status : Status)
      (b : ConnectionBuilder Cert Key Roots) : Type 0 where
    pub has_certificate : b.certs ≢ []
    pub same_remote : (b.remote_name ≡ remote_name) × (b.remote_addr ≡ remote_addr)
    pub same_agent :
        (b.agent_name ≡ agent_name)
        × (b.agent_version ≡ agent_version)
        × (b.protocol_version ≡ protocol_version)
        × (b.status ≡ status)

  parse_certs-filled :
      (pem : Bytes) (certs : List Cert) → parse_certs tls pem ≡ ok certs → certs ≢ []
  unfolding parse_certs
  parse_certs-filled pem certs h = ground arith

  module _ (remote_name : String) (remote_addr : SocketAddr)
      (agent_name agent_version protocol_version : String) (status : Status) where
    abbrev UsableHere : ConnectionBuilder Cert Key Roots → Type 0
    UsableHere = Usable remote_name remote_addr agent_name agent_version protocol_version status

    set-Usable :
        (s : Setting) (b : ConnectionBuilder Cert Key Roots) → UsableHere b → UsableHere (set s b)
    unfolding set_cert set_key root_certs add_root_certs set_capabilities set_active_trust_epoch
        set_manifest_formats set_provisioning_fingerprint set_audit_health set_local_addr
    set-Usable (certificate pem) b u = elim (Result-cases (parse_certs tls pem)) [
      | inl (cs, e) ↦
          rw (set, set_cert, e)
            (record {
              has_certificate = parse_certs-filled pem cs e;
              same_remote = u.same_remote;
              same_agent = u.same_agent;
            })
      | inr (x, e) ↦ rw (set, set_cert, e) u
    ]
    set-Usable (private_key pem) b u = elim (Result-cases (parse_key tls pem)) [
      | inl (k, e) ↦
          rw (set, set_key, e)
            (record {
              has_certificate = u.has_certificate;
              same_remote = u.same_remote;
              same_agent = u.same_agent;
            })
      | inr (x, e) ↦ rw (set, set_key, e) u
    ]
    set-Usable _ b u = record {
      has_certificate = u.has_certificate;
      same_remote = u.same_remote;
      same_agent = u.same_agent;
    }

    configure-Usable :
        (ss : List Setting) (b : ConnectionBuilder Cert Key Roots)
        → UsableHere b
        → UsableHere (configure ss b)
    configure-Usable [] b u = u
    configure-Usable (s ∷ ss) b u = configure-Usable ss (set s b) (set-Usable s b u)

    new-Usable :
        (cert key : Bytes) (b : ConnectionBuilder Cert Key Roots)
        → new tls remote_name remote_addr agent_name agent_version protocol_version status cert key
          ≡ ok b
        → UsableHere b
    unfolding new
    new-Usable cert key b h = elim (Result-cases (parse_certs tls cert)) [
      | inl (cs, e) ↦
          let filled : b.certs ≡ cs = ground arith in
          record {
            has_certificate = λ none. parse_certs-filled cert cs e (sym filled ∙ none);
            same_remote = (ground arith, ground arith);
            same_agent = (ground arith, ground arith, ground arith, ground arith);
          }
      | inr (x, e) ↦ absurd (ground arith)
    ]

    -- A builder that `new` gives keeps a certificate, and the names, the address, the versions and
    -- the status that it was made with, through any sequence of calls of its setters, the failing
    -- ones included.
    pub configured_builder-Usable :
        (cert key : Bytes) (b : ConnectionBuilder Cert Key Roots) (settings : List Setting)
        → new tls remote_name remote_addr agent_name agent_version protocol_version status cert key
          ≡ ok b
        → Usable remote_name remote_addr agent_name agent_version protocol_version status
            (configure settings b)
    configured_builder-Usable cert key b settings h =
        configure-Usable settings b (new-Usable cert key b h)
