-- ===== src/Examples/Agents.antt =====
-- The frame of an agent that knows no field of the tail but its capabilities.
use review_protocol.Prelude.{ℕ, ◌≡◌, refl, ok, none, some, [], ◌∷◌, arith}
use review_protocol.Types.Shared.{SocketAddr, Status, IpAddr}
use review_protocol.Types.Shared
use review_protocol.AgentInfo.{AgentInfo, Bincode, InfoCoding, decode_agent_info}
use review_protocol.AgentInfo.Fields.{Codes}
use review_protocol.AgentInfo.Compat.{
  up_to_capabilities, base_of, CodesInfo, frame_of_any_release_decodes,
}

abbrev pub info : AgentInfo
info = record {
  agent_name = "piglet";
  agent_version = "1.0.0";
  protocol_version = "0.49.0";
  addr = record { ip = Shared.IpAddr.v4 0; port = 0 };
  status = Shared.Status.ready;
  capabilities = "registrar" ∷ [];
  active_trust_epoch = some 3;
  manifest_formats = none;
  provisioning_fingerprint = none;
  audit_health = none;
}

-- An encoding in which one byte stands for one value.
abbrev tagged : {T : Type 0} → ℕ → T → Bincode (Unit {0}) T
tagged tag x = record { encode = λ y. tag ∷ []; decode = λ bytes. ok (x, 1) }

tagged-Codes : {T : Type 0} (tag : ℕ) (x : T) → Codes (tagged tag x) x
tagged-Codes tag x = record { not_empty = omega arith; decode_encode = λ rest. refl }

abbrev pub coding : InfoCoding (Unit {0})
coding = record {
  base_coding = tagged 0 (record {
    agent_name = info.agent_name;
    agent_version = info.agent_version;
    protocol_version = info.protocol_version;
    addr = info.addr;
    status = info.status;
  });
  capabilities_coding = tagged 1 info.capabilities;
  epoch_coding = tagged 2 info.active_trust_epoch;
  formats_coding = tagged 3 info.manifest_formats;
  fingerprint_coding = tagged 4 info.provisioning_fingerprint;
  health_coding = tagged 5 info.audit_health;
}

pub info-CodesInfo : CodesInfo coding info
info-CodesInfo = record {
  base_codes = tagged-Codes 0 (base_of coding info);
  capabilities_codes = tagged-Codes 1 info.capabilities;
  epoch_codes = tagged-Codes 2 info.active_trust_epoch;
  formats_codes = tagged-Codes 3 info.manifest_formats;
  fingerprint_codes = tagged-Codes 4 info.provisioning_fingerprint;
  health_codes = tagged-Codes 5 info.audit_health;
}

frame_of_any_release_decodes_example :
    decode_agent_info coding (0 ∷ 1 ∷ []) ≡ ok (record info { active_trust_epoch = none })
frame_of_any_release_decodes_example =
    frame_of_any_release_decodes coding info up_to_capabilities [] info-CodesInfo
