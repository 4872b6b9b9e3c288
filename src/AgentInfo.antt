-- ===== src/AgentInfo.antt =====
-- `AgentInfo` of lib.rs and its conditional decode: a base, and a tail that a peer may cut at any
-- field boundary. bincode is not part of the repository: a type's encoding is a parameter.
pub mod Fields
pub mod Compat
use review_protocol.Prelude.{
  ℕ, ◌+◌, ◌<◌, ◌≡◌, String, Result, ok, err, Option, none, some, List, [], ◌∷◌, ◌++◌, length, drop,
  and_then, map_err,
}
use review_protocol.Wire.{Bytes}
use review_protocol.Types.Shared.{
  SocketAddr, Status, ManifestFormatRange, ProvisioningFingerprint, AuditHealth,
}

-- `capabilities` is a `BTreeSet`, given by its elements in order.
pub record AgentInfo : Type 0 where
  pub agent_name : String
  pub agent_version : String
  pub protocol_version : String
  pub addr : SocketAddr
  pub status : Status
  pub capabilities : List String
  pub active_trust_epoch : Option ℕ
  pub manifest_formats : Option ManifestFormatRange
  pub provisioning_fingerprint : Option ProvisioningFingerprint
  pub audit_health : Option AuditHealth

pub record AgentInfoBase : Type 0 where
  pub agent_name : String
  pub agent_version : String
  pub protocol_version : String
  pub addr : SocketAddr
  pub status : Status

-- `E` stands for `bincode::error::DecodeError`.
pub data AgentInfoDecodeError (E : Type 0) : Type 0 where
  base : E → AgentInfoDecodeError E
  tail : String → E → AgentInfoDecodeError E

-- The encoding of a type by bincode; a decode also gives the bytes that it took up.
pub record Bincode (E T : Type 0) : Type 0 where
  pub encode : T → Bytes
  pub decode : Bytes → Result (T × ℕ) E

module _ {E T : Type 0} (coding : Bincode E T) (field : String) where
  -- The field in the bytes that are left, if there are any.
  unfoldable pub tail_value : ℕ → Bytes → Result (Option T × ℕ) (AgentInfoDecodeError E)
  tail_value offset [] = ok (none, offset)
  tail_value offset (b ∷ bs) =
      and_then (map_err (tail field) (coding.decode (b ∷ bs))) (λ x. ok (some x.0, offset + x.1))

  unfoldable pub decode_tail_field : Bytes → ℕ → Result (Option T × ℕ) (AgentInfoDecodeError E)
  unfolding tail_value
  decode_tail_field buf offset = tail_value offset (drop offset buf)

-- `Option::flatten`
abbrev pub flatten : {T : Type 0} → Option (Option T) → Option T
flatten none = none
flatten (some x) = x

-- `Option::unwrap_or_default`
abbrev pub unwrap_or_default : Option (List String) → List String
unwrap_or_default none = []
unwrap_or_default (some xs) = xs

-- The encodings of the base and of the fields of the tail.
pub record InfoCoding (E : Type 0) : Type 1 where
  pub base_coding : Bincode E AgentInfoBase
  pub capabilities_coding : Bincode E (List String)
  pub epoch_coding : Bincode E (Option ℕ)
  pub formats_coding : Bincode E (Option ManifestFormatRange)
  pub fingerprint_coding : Bincode E (Option ProvisioningFingerprint)
  pub health_coding : Bincode E (Option AuditHealth)

module _ {E : Type 0} (c : InfoCoding E) where
  unfoldable pub decode_agent_info : Bytes → Result AgentInfo (AgentInfoDecodeError E)
  unfolding decode_tail_field
  decode_agent_info buf = and_then (map_err base (c.base_coding.decode buf)) λ b.
      and_then (decode_tail_field c.capabilities_coding "capabilities" buf b.1) λ capabilities.
        and_then (decode_tail_field c.epoch_coding "active_trust_epoch" buf capabilities.1) λ epoch.
          and_then (decode_tail_field c.formats_coding "manifest_formats" buf epoch.1) λ formats.
            and_then
              (decode_tail_field c.fingerprint_coding "provisioning_fingerprint" buf formats.1)
              λ fingerprint.
                and_then (decode_tail_field c.health_coding "audit_health" buf fingerprint.1)
                  λ health. ok (record {
                    agent_name = b.0.agent_name;
                    agent_version = b.0.agent_version;
                    protocol_version = b.0.protocol_version;
                    addr = b.0.addr;
                    status = b.0.status;
                    capabilities = unwrap_or_default capabilities.0;
                    active_trust_epoch = flatten epoch.0;
                    manifest_formats = flatten formats.0;
                    provisioning_fingerprint = flatten fingerprint.0;
                    audit_health = flatten health.0;
                  })
