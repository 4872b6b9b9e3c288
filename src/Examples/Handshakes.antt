-- ===== src/Examples/Handshakes.antt =====
-- Handshakes with a manager that reads every requirement as at least 3 and every version as 5.
use review_protocol.Prelude.{
  ℕ, String, true, ◌≡◌, refl, Result, ok, err, none, some, [], ◌∷◌, ◌++◌, leb, ◌<>◌, if◌then◌else◌,
}
use review_protocol.Prelude.{List}
use review_protocol.ProtocolError.{io_error, connection_refused, message}
use review_protocol.ProtocolError.{ProtocolErrorKind}
use review_protocol.Types.Shared as Shared
use review_protocol.Types.Shared.{SocketAddr}
use review_protocol.AgentInfo.{decode_agent_info}
use review_protocol.Wire.{send_frame}
use review_protocol.Handshake.{
  handshake_error_kind, invalid_version_argument, incompatible_protocol,
}
use review_protocol.Handshake.Manager.{Semver, Accepted, admits, combined_range, handshake}
use review_protocol.Handshake.Window.{
  InWindow, admitted_agent_is_in_the_window, invalid_arguments_accept_nothing, bad_requirement,
}
use review_protocol.Handshake.Refusal.{refused_agent_is_told_the_range}
use review_protocol.Handshake.Agreement.{manager_run, agent_run, advertised, both_sides_agree}
use review_protocol.Client.Builder.{ConnectionBuilder, Tls, new}
use review_protocol.Client.Builder.Configured.{
  Usable, configure, configured_builder-Usable, active_trust_epoch, certificate,
}
use review_protocol.Client.Connect.{Network, dial, agent_info}
use review_protocol.Examples.Agents.{info, coding, info-CodesInfo}
use review_protocol.Examples.Samples.{bad_data}
use review_protocol.Prelude.{Bool}

abbrev semver : Semver ℕ ℕ
semver = record {
  parse_req = λ s. ok 3;
  parse_version = λ s. ok 5;
  matches = λ req version. leb req version;
  at_most = λ version highest. leb version highest;
  req_to_string = λ req. ">=3";
  version_to_string = λ version. "5";
  debug = λ s. s;
}

-- It knows no version, and refuses every agent.
abbrev strict : Semver ℕ ℕ
strict = record semver { parse_req = λ s. ok 9 }

abbrev no_version : Semver ℕ ℕ
no_version = record semver { parse_req = λ s. err "empty" }

abbrev tls : Tls (Unit {0}) (Unit {0}) (Unit {0})
tls = record {
  certs = λ pem. ok tt ∷ [];
  private_key = λ pem. ok (some tt);
  empty = tt;
  add = λ cert roots. ok tt;
}

abbrev addr : SocketAddr
addr = record { ip = Shared.IpAddr.v4 7; port = 1 }

abbrev builder : ConnectionBuilder (Unit {0}) (Unit {0}) (Unit {0})
builder = record {
  remote_name = "manager";
  remote_addr = addr;
  local_addr = Shared.IpAddr.v4 0;
  agent_name = "piglet";
  agent_version = "1.0.0";
  protocol_version = "0.49.0";
  status = Shared.Status.ready;
  capabilities = "registrar" ∷ [];
  active_trust_epoch = some 3;
  manifest_formats = none;
  provisioning_fingerprint = none;
  audit_health = none;
  roots = tt;
  certs = tt ∷ [];
  key = tt;
}

abbrev net : Network
net = record {
  endpoint = ok tt;
  connecting = ok tt;
  connected = ok tt;
  remote_is_ipv6 = Bool.false;
  opening = err bad_data;
}

-- The frame of the information, behind its end.
abbrev accepted : Accepted
accepted = record {
  send = record { outcomes = []; sent = [] };
  recv = ok (0 ∷ []) ∷ [];
  finished = Bool.false;
}

both_sides_agree_example :
    let run = manager_run semver coding builder net addr ">=3" "5" in
    let range = combined_range semver coding 3 5 in
    let admitted_here = admits semver coding 3 5 (ok 5) in
    (run.0 ≡ (
      if admitted_here
      then ok (record (advertised semver coding builder net) { addr = addr })
      else err (incompatible_protocol "0.49.0" range)))
    × (agent_run semver coding builder net run.1 ≡ (
        if admitted_here
        then ok tt
        else err
            (io_error connection_refused (message ("server requires protocol version " <> range)))))
unfolding dial agent_info
both_sides_agree_example =
    both_sides_agree semver coding builder net addr ">=3" "5" 3 5 info-CodesInfo refl refl refl

admitted_agent_is_in_the_window_example :
    InWindow semver coding ">=3" "5"
      (record info { addr = addr; capabilities = []; active_trust_epoch = none })
    × (addr ≡ addr)
unfolding handshake decode_agent_info send_frame
admitted_agent_is_in_the_window_example =
    admitted_agent_is_in_the_window semver coding (ok accepted) addr ">=3" "5"
      (record info { addr = addr; capabilities = []; active_trust_epoch = none }) refl

invalid_arguments_accept_nothing_example :
    (handshake no_version coding (ok accepted) addr "x" "5"
      ≡ (err (invalid_version_argument ("version_req " <> ("x" <> (": " <> "empty")))), none))
    × (handshake_error_kind
          (invalid_version_argument ("version_req " <> ("x" <> (": " <> "empty"))))
        ≡ ProtocolErrorKind.other)
invalid_arguments_accept_nothing_example =
    invalid_arguments_accept_nothing no_version coding (ok accepted) addr "x" "5"
      ("version_req " <> ("x" <> (": " <> "empty"))) (bad_requirement "empty" refl)

refused_agent_is_told_the_range_example :
    (s : Accepted) × ((handshake strict coding (ok accepted) addr ">=9" "5").1 ≡ some s)
    × (version range : String) × (sent : List (Result String String)) × (incompatible_protocol
          "0.49.0" ">=3, <=5"
        ≡ incompatible_protocol version range)
    × (s.send.sent ≡ sent ++ err range ∷ [])
    × (s.finished ≡ true)
unfolding handshake decode_agent_info send_frame handshake_error_kind
refused_agent_is_told_the_range_example =
    refused_agent_is_told_the_range strict coding (ok accepted) addr ">=9" "5"
      (incompatible_protocol "0.49.0" ">=3, <=5") refl refl

configured_builder-Usable_example :
    Usable tls
      (λ xs. xs)
      "manager"
      addr
      "piglet"
      "1.0.0"
      "0.49.0"
      Shared.Status.ready
      (configure tls
        (λ xs. xs)
        (active_trust_epoch 3 ∷ certificate [] ∷ [])
        (record builder { capabilities = []; active_trust_epoch = none }))
unfolding new
configured_builder-Usable_example =
    configured_builder-Usable tls (λ xs. xs) "manager" addr "piglet" "1.0.0" "0.49.0"
      Shared.Status.ready [] [] (record builder { capabilities = []; active_trust_epoch = none })
      (active_trust_epoch 3 ∷ certificate [] ∷ []) refl
