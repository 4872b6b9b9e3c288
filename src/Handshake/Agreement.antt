-- ===== src/Handshake/Agreement.antt =====
-- The handshake from both sides: `connect` of client.rs sends its information to `handshake` of
-- server.rs, and reads the reply of that.
use review_protocol.Client.Connect.{after_open, exchange_info, admitted}
use review_protocol.Wire.{send_frame, send_outcome}
use review_protocol.Handshake.Manager.{
  serve_handshake, receive_info, decide, accept, refuse, after_refusal,
}
use review_protocol.Client.Connect.{after_open, admitted}
use review_protocol.Wire.{send_frame, send_outcome, recv_raw}
use review_protocol.Handshake.Window.{handshake-serves}
use review_protocol.Client.Connect.{after_dial, connect}
use review_protocol.Prelude.{
  ap, and_then, ◌<>◌, Bool-cases, inl, inr, map, String, false, ◌≡◌, refl, Result, ok, err, Option,
  none, some, [], ◌∷◌, List, if◌then◌else◌,
}
use review_protocol.ProtocolError.{
  IoError, io_error, unexpected_eof, simple, connection_refused, message,
}
use review_protocol.Types.Shared.{SocketAddr}
use review_protocol.Wire.{Bytes}
use review_protocol.AgentInfo.{AgentInfo, InfoCoding, decode_agent_info}
use review_protocol.AgentInfo.Compat.{CodesInfo, frame_of_any_release_decodes, up_to_health}
use review_protocol.Handshake.{incompatible_protocol}
use review_protocol.Handshake.Manager.{
  Semver, Accepted, admits, combined_range, Handshaken, handshake,
}
use review_protocol.Client.Builder.{ConnectionBuilder}
use review_protocol.Client.Connect.{
  Opened, Network, dial, agent_info, encode_agent_info, connect, exchange_info,
}
use review_protocol.Handshake.Manager.{
  serve_handshake, receive_info, decide, accept, refuse, after_refusal,
}
use review_protocol.Client.Connect.{after_open, admitted}
use review_protocol.Wire.{send_frame, send_outcome, recv_raw}
use review_protocol.Prelude.{◌<>◌, Bool-cases, inl, inr, map, map}

-- The manager's end of the stream that the agent opened, with the frames that the agent sends.
abbrev pub manager_end : List Bytes → Accepted
manager_end frames = record {
  send = record { outcomes = []; sent = [] };
  recv = map ok frames;
  finished = false;
}

-- What the agent receives: the first frame that the manager sent, or the end of the stream.
abbrev pub first_reply : List (Result String String) → Result (Result String String) IoError
first_reply [] = err (io_error unexpected_eof simple)
first_reply (reply ∷ rest) = ok reply

abbrev pub reply_of : Option Accepted → Result (Result String String) IoError
reply_of none = err (io_error unexpected_eof simple)
reply_of (some s) = first_reply s.send.sent

module _ {Req Ver E Cert Key Roots : Type 0} (semver : Semver Req Ver) (coding : InfoCoding E)
    (b : ConnectionBuilder Cert Key Roots) (net : Network) where
  -- The information that the agent sends.
  abbrev pub advertised : AgentInfo
  advertised = agent_info b net.remote_is_ipv6

  -- The manager's run on the agent's frame, and the agent's run on the manager's reply.
  abbrev pub manager_run : SocketAddr → String → String → Handshaken
  manager_run addr version_req highest =
      handshake semver coding (ok (manager_end (encode_agent_info coding advertised ∷ []))) addr
        version_req highest

  abbrev pub agent_run : Option Accepted → Result (Unit {0}) IoError
  agent_run manager =
      (connect coding
        (record net {
          opening =
              ok (record { send = record { outcomes = []; sent = [] }; reply = reply_of manager });
        })
        b).0

  received :
      (addr : SocketAddr)
      → decode_agent_info coding (encode_agent_info coding advertised) ≡ ok advertised
      → receive_info semver coding addr (ok (encode_agent_info coding advertised) ∷ [])
        ≡ ok (record advertised { addr = addr })
  unfolding receive_info recv_raw
  received addr decoded = rw (receive_info, decoded) refl

  agent-side :
      (manager : Option Accepted)
      → dial net ≡ ok tt
      → agent_run manager ≡ and_then (reply_of manager) admitted
  unfolding connect after_dial after_open exchange_info send_frame send_outcome dial
  agent-side manager dialled =
      let opened : Opened = record {
        send = record { outcomes = []; sent = [] };
        reply = reply_of manager;
      } in
      ap (λ r. (after_dial coding advertised (ok opened) r).0) dialled

  -- The two sides agree: an agent that reaches a manager with valid arguments is admitted by both
  -- or refused by both. Where its version lies in the manager's window, the manager has what the
  -- agent advertised, with the address that the manager sees, and the agent has a connection; where
  -- not, the two sides' errors name the same range.
  pub both_sides_agree :
      (addr : SocketAddr) (version_req highest : String) (req : Req) (ceiling : Ver)
      → CodesInfo coding advertised
      → dial net ≡ ok tt
      → semver.parse_req version_req ≡ ok req
      → semver.parse_version highest ≡ ok ceiling
      → let run = manager_run addr version_req highest in
        let range = combined_range semver coding req ceiling in
        let admitted_here =
          admits semver coding req ceiling (semver.parse_version b.protocol_version) in
        (run.0 ≡ (
          if admitted_here
          then ok (record advertised { addr = addr })
          else err (incompatible_protocol b.protocol_version range)))
        × (agent_run run.1 ≡ (
            if admitted_here
            then ok tt
            else err (
                io_error connection_refused
                  (message ("server requires protocol version " <> range)))))
  unfolding serve_handshake accept refuse after_refusal send_frame send_outcome admitted recv_raw
      agent_info encode_agent_info
  both_sides_agree addr version_req highest req ceiling codes dialled p q =
      let decoded = frame_of_any_release_decodes coding advertised up_to_health [] codes in
      let s = manager_end (encode_agent_info coding advertised ∷ []) in
      let served = handshake-serves semver coding (ok s) addr version_req highest req ceiling p q in
      elim (Bool-cases
        (admits semver coding req ceiling (semver.parse_version b.protocol_version))) [
          | inl inside ↦
              rw
                (
                  agent-side (manager_run addr version_req highest).1 dialled,
                  served,
                  received addr decoded,
                  decide,
                  inside,
                )
                (refl, refl)
          | inr outside ↦
              rw
                (
                  agent-side (manager_run addr version_req highest).1 dialled,
                  served,
                  received addr decoded,
                  decide,
                  outside,
                )
                (refl, refl)
        ]
