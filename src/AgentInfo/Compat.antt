-- ===== src/AgentInfo/Compat.antt =====
-- The conditional tail of `AgentInfo`, lib.rs: a manager reads what an agent of any release sent.
use review_protocol.Prelude.{◌+◌, ◌≡◌, ok, none, [], ◌++◌, length, drop-append}
use review_protocol.Wire.{Bytes}
use review_protocol.AgentInfo.Fields.{
  Codes, At, At-next, decode_tail_field-some, decode_tail_field-none,
}
use review_protocol.AgentInfo.{AgentInfo, AgentInfoBase, InfoCoding, decode_agent_info}

-- The releases of a peer, by the last field of the tail that they know. The last one stands for
-- every later release, too.
pub data Release : Type 0 where
  base_only up_to_capabilities up_to_epoch up_to_formats up_to_fingerprint : Release
  up_to_health : Release

module _ {E : Type 0} (c : InfoCoding E) (info : AgentInfo) where
  abbrev pub base_of : AgentInfoBase
  base_of = record {
    agent_name = info.agent_name;
    agent_version = info.agent_version;
    protocol_version = info.protocol_version;
    addr = info.addr;
    status = info.status;
  }

  -- The encoded base, and the encoded fields of the tail.
  abbrev pub base_bytes : Bytes
  base_bytes = c.base_coding.encode base_of

  abbrev pub capabilities_bytes : Bytes
  capabilities_bytes = c.capabilities_coding.encode info.capabilities

  abbrev pub epoch_bytes : Bytes
  epoch_bytes = c.epoch_coding.encode info.active_trust_epoch

  abbrev pub formats_bytes : Bytes
  formats_bytes = c.formats_coding.encode info.manifest_formats

  abbrev pub fingerprint_bytes : Bytes
  fingerprint_bytes = c.fingerprint_coding.encode info.provisioning_fingerprint

  abbrev pub health_bytes : Bytes
  health_bytes = c.health_coding.encode info.audit_health

  -- The tail that a peer of a release sends, `later` being the fields after the fifth.
  abbrev pub tail_of : Release → Bytes → Bytes
  tail_of base_only later = []
  tail_of up_to_capabilities later = capabilities_bytes ++ []
  tail_of up_to_epoch later = capabilities_bytes ++ (epoch_bytes ++ [])
  tail_of up_to_formats later = capabilities_bytes ++ (epoch_bytes ++ (formats_bytes ++ []))
  tail_of up_to_fingerprint later =
      capabilities_bytes ++ (epoch_bytes ++ (formats_bytes ++ (fingerprint_bytes ++ [])))
  tail_of up_to_health later =
      capabilities_bytes
      ++ (epoch_bytes ++ (formats_bytes ++ (fingerprint_bytes ++ (health_bytes ++ later))))

  -- The frame of a peer.
  abbrev pub frame_of : Release → Bytes → Bytes
  frame_of release later = base_bytes ++ tail_of release later

  -- What a manager knows of a peer: the fields that its release has, and unknown readings.
  abbrev pub known : Release → AgentInfo
  known base_only = record info {
    capabilities = [];
    active_trust_epoch = none;
    manifest_formats = none;
    provisioning_fingerprint = none;
    audit_health = none;
  }
  known up_to_capabilities = record info {
    active_trust_epoch = none;
    manifest_formats = none;
    provisioning_fingerprint = none;
    audit_health = none;
  }
  known up_to_epoch = record info {
    manifest_formats = none;
    provisioning_fingerprint = none;
    audit_health = none;
  }
  known up_to_formats = record info { provisioning_fingerprint = none; audit_health = none }
  known up_to_fingerprint = record info { audit_health = none }
  known up_to_health = info

  -- bincode keeps its promise for the values that the peer sends.
  pub record CodesInfo : Type 0 where
    pub base_codes : Codes c.base_coding base_of
    pub capabilities_codes : Codes c.capabilities_coding info.capabilities
    pub epoch_codes : Codes c.epoch_coding info.active_trust_epoch
    pub formats_codes : Codes c.formats_coding info.manifest_formats
    pub fingerprint_codes : Codes c.fingerprint_coding info.provisioning_fingerprint
    pub health_codes : Codes c.health_coding info.audit_health

  -- The frame behind its base.
  behind_base :
      (release : Release) (later : Bytes)
      → At (frame_of release later) (length base_bytes) (tail_of release later)
  behind_base release later = drop-append base_bytes (tail_of release later)

  -- A manager reads the frame of a peer of any release, if bincode keeps its promise for the values
  -- that the peer sends: every field that the peer sent reads as sent, every field of the tail that
  -- it does not know reads as unknown, and fields of later releases are ignored.
  pub frame_of_any_release_decodes :
      (release : Release) (later : Bytes)
      → CodesInfo
      → decode_agent_info c (frame_of release later) ≡ ok (known release)
  unfolding decode_agent_info
  frame_of_any_release_decodes base_only later codes =
      let buf = frame_of base_only later in
      let n0 = length base_bytes in
      let a0 = behind_base base_only later in
      rw (
        codes.base_codes.decode_encode (tail_of base_only later),
        decode_tail_field-none c.capabilities_coding "capabilities" buf n0 a0,
        decode_tail_field-none c.epoch_coding "active_trust_epoch" buf n0 a0,
        decode_tail_field-none c.formats_coding "manifest_formats" buf n0 a0,
        decode_tail_field-none c.fingerprint_coding "provisioning_fingerprint" buf n0 a0,
        decode_tail_field-none c.health_coding "audit_health" buf n0 a0,
      )
  frame_of_any_release_decodes up_to_capabilities later codes =
      let buf = frame_of up_to_capabilities later in
      let n0 = length base_bytes in
      let a0 = behind_base up_to_capabilities later in
      let n1 = n0 + length capabilities_bytes in
      let a1 = At-next buf n0 capabilities_bytes [] a0 in
      rw (
        codes.base_codes.decode_encode (tail_of up_to_capabilities later),
        decode_tail_field-some c.capabilities_coding "capabilities" buf n0 info.capabilities []
            codes.capabilities_codes a0,
        decode_tail_field-none c.epoch_coding "active_trust_epoch" buf n1 a1,
        decode_tail_field-none c.formats_coding "manifest_formats" buf n1 a1,
        decode_tail_field-none c.fingerprint_coding "provisioning_fingerprint" buf n1 a1,
        decode_tail_field-none c.health_coding "audit_health" buf n1 a1,
      )
  frame_of_any_release_decodes up_to_epoch later codes =
      let buf = frame_of up_to_epoch later in
      let n0 = length base_bytes in
      let a0 = behind_base up_to_epoch later in
      let n1 = n0 + length capabilities_bytes in
      let a1 = At-next buf n0 capabilities_bytes (epoch_bytes ++ []) a0 in
      let n2 = n1 + length epoch_bytes in
      let a2 = At-next buf n1 epoch_bytes [] a1 in
      rw (
        codes.base_codes.decode_encode (tail_of up_to_epoch later),
        decode_tail_field-some c.capabilities_coding "capabilities" buf n0 info.capabilities
            (epoch_bytes ++ []) codes.capabilities_codes a0,
        decode_tail_field-some c.epoch_coding "active_trust_epoch" buf n1 info.active_trust_epoch []
            codes.epoch_codes a1,
        decode_tail_field-none c.formats_coding "manifest_formats" buf n2 a2,
        decode_tail_field-none c.fingerprint_coding "provisioning_fingerprint" buf n2 a2,
        decode_tail_field-none c.health_coding "audit_health" buf n2 a2,
      )
  frame_of_any_release_decodes up_to_formats later codes =
      let buf = frame_of up_to_formats later in
      let n0 = length base_bytes in
      let a0 = behind_base up_to_formats later in
      let n1 = n0 + length capabilities_bytes in
      let a1 = At-next buf n0 capabilities_bytes (epoch_bytes ++ (formats_bytes ++ [])) a0 in
      let n2 = n1 + length epoch_bytes in
      let a2 = At-next buf n1 epoch_bytes (formats_bytes ++ []) a1 in
      let n3 = n2 + length formats_bytes in
      let a3 = At-next buf n2 formats_bytes [] a2 in
      rw (
        codes.base_codes.decode_encode (tail_of up_to_formats later),
        decode_tail_field-some c.capabilities_coding "capabilities" buf n0 info.capabilities
            (epoch_bytes ++ (formats_bytes ++ [])) codes.capabilities_codes a0,
        decode_tail_field-some c.epoch_coding "active_trust_epoch" buf n1 info.active_trust_epoch
            (formats_bytes ++ []) codes.epoch_codes a1,
        decode_tail_field-some c.formats_coding "manifest_formats" buf n2 info.manifest_formats []
            codes.formats_codes a2,
        decode_tail_field-none c.fingerprint_coding "provisioning_fingerprint" buf n3 a3,
        decode_tail_field-none c.health_coding "audit_health" buf n3 a3,
      )
  frame_of_any_release_decodes up_to_fingerprint later codes =
      let buf = frame_of up_to_fingerprint later in
      let n0 = length base_bytes in
      let a0 = behind_base up_to_fingerprint later in
      let n1 = n0 + length capabilities_bytes in
      let a1 =
        At-next buf n0 capabilities_bytes
          (epoch_bytes ++ (formats_bytes ++ (fingerprint_bytes ++ []))) a0 in
      let n2 = n1 + length epoch_bytes in
      let a2 = At-next buf n1 epoch_bytes (formats_bytes ++ (fingerprint_bytes ++ [])) a1 in
      let n3 = n2 + length formats_bytes in
      let a3 = At-next buf n2 formats_bytes (fingerprint_bytes ++ []) a2 in
      let n4 = n3 + length fingerprint_bytes in
      let a4 = At-next buf n3 fingerprint_bytes [] a3 in
      rw (
        codes.base_codes.decode_encode (tail_of up_to_fingerprint later),
        decode_tail_field-some c.capabilities_coding "capabilities" buf n0 info.capabilities
            (epoch_bytes ++ (formats_bytes ++ (fingerprint_bytes ++ []))) codes.capabilities_codes
            a0,
        decode_tail_field-some c.epoch_coding "active_trust_epoch" buf n1 info.active_trust_epoch
            (formats_bytes ++ (fingerprint_bytes ++ [])) codes.epoch_codes a1,
        decode_tail_field-some c.formats_coding "manifest_formats" buf n2 info.manifest_formats
            (fingerprint_bytes ++ []) codes.formats_codes a2,
        decode_tail_field-some c.fingerprint_coding "provisioning_fingerprint" buf n3
            info.provisioning_fingerprint [] codes.fingerprint_codes a3,
        decode_tail_field-none c.health_coding "audit_health" buf n4 a4,
      )
  frame_of_any_release_decodes up_to_health later codes =
      let buf = frame_of up_to_health later in
      let n0 = length base_bytes in
      let a0 = behind_base up_to_health later in
      let n1 = n0 + length capabilities_bytes in
      let a1 =
        At-next buf n0 capabilities_bytes
          (epoch_bytes ++ (formats_bytes ++ (fingerprint_bytes ++ (health_bytes ++ later)))) a0 in
      let n2 = n1 + length epoch_bytes in
      let a2 =
        At-next buf n1 epoch_bytes (formats_bytes ++ (fingerprint_bytes ++ (health_bytes ++ later)))
          a1 in
      let n3 = n2 + length formats_bytes in
      let a3 = At-next buf n2 formats_bytes (fingerprint_bytes ++ (health_bytes ++ later)) a2 in
      let n4 = n3 + length fingerprint_bytes in
      let a4 = At-next buf n3 fingerprint_bytes (health_bytes ++ later) a3 in
      rw (
        codes.base_codes.decode_encode (tail_of up_to_health later),
        decode_tail_field-some c.capabilities_coding "capabilities" buf n0 info.capabilities
            (epoch_bytes ++ (formats_bytes ++ (fingerprint_bytes ++ (health_bytes ++ later))))
            codes.capabilities_codes a0,
        decode_tail_field-some c.epoch_coding "active_trust_epoch" buf n1 info.active_trust_epoch
            (formats_bytes ++ (fingerprint_bytes ++ (health_bytes ++ later))) codes.epoch_codes a1,
        decode_tail_field-some c.formats_coding "manifest_formats" buf n2 info.manifest_formats
            (fingerprint_bytes ++ (health_bytes ++ later)) codes.formats_codes a2,
        decode_tail_field-some c.fingerprint_coding "provisioning_fingerprint" buf n3
            info.provisioning_fingerprint (health_bytes ++ later) codes.fingerprint_codes a3,
        decode_tail_field-some c.health_coding "audit_health" buf n4 info.audit_health later
            codes.health_codes a4,
      )
