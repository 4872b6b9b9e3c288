-- ===== src/Handshake/Manager.antt =====
-- `handshake` of server.rs: the manager receives an agent's information and admits the agent, or
-- refuses it, by the version of the protocol that the agent speaks. Parsing, comparing and printing
-- versions is the semver crate's.
use review_protocol.Prelude.{
  String, Bool, true, false, ◌&&◌, Result, ok, err, Option, none, some, and_then, map_err,
  if◌then◌else◌, ◌<>◌,
}
use review_protocol.Wire.{RecvStream, SendStream, recv_raw, send_frame}
use review_protocol.Types.Shared.{SocketAddr}
use review_protocol.AgentInfo.{AgentInfo, InfoCoding, decode_agent_info}
use review_protocol.Handshake.{
  ConnectionError, HandshakeError, connection_lost, invalid_message, invalid_version_argument,
  incompatible_protocol, handle_handshake_send_io_error, handle_handshake_recv_io_error,
}

-- What the manager uses of semver: `Req` is `VersionReq` and `Ver` is `Version`. A failed parse gives
-- the text of its error. `debug` is the `{:?}` of a text.
pub record Semver (Req Ver : Type 0) : Type 0 where
  pub parse_req : String → Result Req String
  pub parse_version : String → Result Ver String
  pub matches : Req → Ver → Bool
  pub at_most : Ver → Ver → Bool
  pub req_to_string : Req → String
  pub version_to_string : Ver → String
  pub debug : String → String

-- The stream that the manager accepts: what it sends are the frames of `send_ok` and `send_err`.
pub record Accepted : Type 0 where
  pub send : SendStream (Result String String)
  pub recv : RecvStream
  pub finished : Bool

-- The outcome, with the stream behind it if one was accepted.
abbrev pub Handshaken : Type 0
Handshaken = Result AgentInfo HandshakeError × Option Accepted

module _ {Req Ver E : Type 0} (semver : Semver Req Ver) (coding : InfoCoding E) where
  unfoldable pub parse_version_req : String → Result Req HandshakeError
  parse_version_req version_req =
      map_err
        (λ e. invalid_version_argument ("version_req " <> semver.debug version_req <> ": " <> e))
        (semver.parse_req version_req)

  unfoldable pub parse_highest : String → Result Ver HandshakeError
  parse_highest highest =
      map_err
        (λ e.
          invalid_version_argument
            ("highest_protocol_version " <> semver.debug highest <> ": " <> e))
        (semver.parse_version highest)

  -- `version_req.matches(&version) && version <= highest_protocol_version`
  unfoldable pub in_window : Req → Ver → Ver → Bool
  in_window version_req highest version =
      semver.matches version_req version && semver.at_most version highest

  -- `protocol_version.is_ok_and(…)`
  unfoldable pub admits : Req → Ver → Result Ver String → Bool
  unfolding in_window
  admits version_req highest (ok version) = in_window version_req highest version
  admits version_req highest (err e) = false

  unfoldable pub combined_range : Req → Ver → String
  combined_range version_req highest =
      semver.req_to_string version_req <> ", <=" <> semver.version_to_string highest

  -- Behind the acceptance that was sent.
  unfoldable pub accept : Ver → AgentInfo → Accepted → Result AgentInfo HandshakeError × Accepted
  unfolding handle_handshake_send_io_error
  accept highest info s =
      let (r, out) = send_frame (ok (semver.version_to_string highest)) s.send in
      (and_then (map_err handle_handshake_send_io_error r) (λ u. ok info), record s { send = out })

  -- Behind the refusal that was sent, the send half is finished; not if it could not be sent.
  unfoldable pub after_refusal :
      Req
      → Ver
      → AgentInfo
      → Result (Unit {0}) HandshakeError × Accepted
      → Result AgentInfo HandshakeError × Accepted
  unfolding combined_range
  after_refusal version_req highest info (ok u, s) = (
    err (incompatible_protocol info.protocol_version (combined_range version_req highest)),
    record s { finished = true },
  )
  after_refusal version_req highest info (err e, s) = (err e, s)

  unfoldable pub refuse :
      Req → Ver → AgentInfo → Accepted → Result AgentInfo HandshakeError × Accepted
  unfolding after_refusal handle_handshake_send_io_error combined_range
  refuse version_req highest info s =
      let (r, out) = send_frame (err (combined_range version_req highest)) s.send in
      after_refusal version_req highest info
        (map_err handle_handshake_send_io_error r, record s { send = out })

  -- The agent's information, with the address that the manager sees in place of the agent's.
  unfoldable pub receive_info : SocketAddr → RecvStream → Result AgentInfo HandshakeError
  unfolding recv_raw decode_agent_info handle_handshake_recv_io_error
  receive_info addr recv =
      and_then (map_err handle_handshake_recv_io_error (recv_raw recv).0) λ buf.
        and_then (map_err (λ e. invalid_message) (decode_agent_info coding buf))
          λ info. ok (record info { addr = addr })

  -- The decision on the agent.
  unfoldable pub decide :
      Req
      → Ver
      → Accepted
      → Result AgentInfo HandshakeError
      → Result AgentInfo HandshakeError × Accepted
  unfolding admits accept refuse
  decide version_req highest s (ok info) =
      if admits version_req highest (semver.parse_version info.protocol_version)
      then accept highest info s
      else refuse version_req highest info s
  decide version_req highest s (err e) = (err e, s)

  -- Behind `accept_bi`.
  unfoldable pub serve_handshake :
      SocketAddr → Req → Ver → Result Accepted ConnectionError → Handshaken
  unfolding receive_info decide recv_raw
  serve_handshake addr version_req highest (ok s) =
      let (r, s') =
        decide version_req highest (record s { recv = (recv_raw s.recv).1 })
          (receive_info addr s.recv) in
      (r, some s')
  serve_handshake addr version_req highest (err e) = (err (connection_lost e), none)

  -- `accepting` is what `accept_bi` returns, when it is called.
  unfoldable pub handshake :
      Result Accepted ConnectionError → SocketAddr → String → String → Handshaken
  unfolding parse_version_req parse_highest serve_handshake
  handshake accepting addr version_req highest = elim (parse_version_req version_req) [
    | err e ↦ (err e, none)
    | ok req ↦ elim (parse_highest highest) [
      | err e ↦ (err e, none)
      | ok ceiling ↦ serve_handshake addr req ceiling accepting
    ]
  ]
