-- ===== src/Client/Connect.antt =====
-- `ConnectionBuilder::connect` of client.rs: the errors of a connection, and the agent's side of the
-- handshake. What quinn does is given by what its calls return.
use review_protocol.Prelude.{
  String, Bool, Result, ok, err, Option, none, some, [], ◌<>◌, map_err, and_then,
}
use review_protocol.ProtocolError.{
  IoError, io_error, simple, message, invalid_data, invalid_input, connection_refused,
  connection_aborted, connection_reset, not_connected, ErrorKind,
}
use review_protocol.ProtocolError
use review_protocol.Wire.{Bytes, SendStream, send_frame}
use review_protocol.AgentInfo.{AgentInfo, InfoCoding}
use review_protocol.AgentInfo.Compat.{frame_of, up_to_health}
use review_protocol.Handshake.{
  ConnectionError, version_mismatch, reset, timed_out, locally_closed, cids_exhausted,
  transport_error, connection_closed, application_closed,
}
use review_protocol.Client.Builder.{ConnectionBuilder, unspecified}

-- The `match` on the error of a connection that could not be set up.
unfoldable pub connect_error : ConnectionError → IoError
connect_error (application_closed e) = io_error connection_aborted (message e)
connect_error cids_exhausted =
    io_error ProtocolError.ErrorKind.other (message "connection IDs exhausted")
connect_error (connection_closed e) = io_error connection_aborted (message e)
connect_error locally_closed = io_error not_connected (message "locally closed")
connect_error reset = io_error connection_reset simple
connect_error timed_out = io_error ProtocolError.ErrorKind.timed_out simple
connect_error (transport_error e) = io_error invalid_data (message e)
connect_error version_mismatch = io_error connection_refused (message "version mismatch")

-- The stream that the agent opens for the handshake: the frames it sends, and what `frame::recv`
-- returns of the manager's reply.
pub record Opened : Type 0 where
  pub send : SendStream Bytes
  pub reply : Result (Result String String) IoError

-- What quinn returns, call by call: `build_endpoint`, `Endpoint::connect` with the text of its
-- error, the connection, whether its remote address is of IPv6, and `open_bi` with the `io::Error`
-- that quinn makes of its error.
pub record Network : Type 0 where
  pub endpoint : Result (Unit {0}) IoError
  pub connecting : Result (Unit {0}) String
  pub connected : Result (Unit {0}) ConnectionError
  pub remote_is_ipv6 : Bool
  pub opening : Result Opened IoError

-- The `match` on the manager's reply.
unfoldable pub admitted : Result String String → Result (Unit {0}) IoError
admitted (ok highest) = ok tt
admitted (err e) =
    err (io_error connection_refused (message ("server requires protocol version " <> e)))

-- The connection up to its set-up.
unfoldable pub dial : Network → Result (Unit {0}) IoError
unfolding connect_error
dial net = and_then net.endpoint λ e.
    and_then (map_err (λ e. io_error invalid_input (message e)) net.connecting)
      λ c. map_err connect_error net.connected

module _ {Cert Key Roots : Type 0} where
  -- The information with the placeholder of the agent's address.
  unfoldable pub agent_info : ConnectionBuilder Cert Key Roots → Bool → AgentInfo
  agent_info b ipv6 = record {
    agent_name = b.agent_name;
    agent_version = b.agent_version;
    protocol_version = b.protocol_version;
    addr = record { ip = unspecified ipv6; port = 0 };
    status = b.status;
    capabilities = b.capabilities;
    active_trust_epoch = b.active_trust_epoch;
    manifest_formats = b.manifest_formats;
    provisioning_fingerprint = b.provisioning_fingerprint;
    audit_health = b.audit_health;
  }

module _ {E : Type 0} (coding : InfoCoding E) where
  -- What the derived encoding makes of the information: the base and the whole tail.
  unfoldable pub encode_agent_info : AgentInfo → Bytes
  encode_agent_info info = frame_of coding info up_to_health []

  -- The handshake on the stream, with the stream behind it.
  unfoldable pub exchange_info : AgentInfo → Opened → Result (Unit {0}) IoError × Opened
  unfolding admitted encode_agent_info
  exchange_info info s =
      let (r, out) = send_frame (encode_agent_info info) s.send in
      (and_then r (λ u. and_then s.reply admitted), record s { send = out })

  -- Behind `open_bi`.
  unfoldable pub after_open :
      AgentInfo → Result Opened IoError → Result (Unit {0}) IoError × Option Opened
  unfolding exchange_info
  after_open info (ok s) = let (r, s') = exchange_info info s in (r, some s')
  after_open info (err e) = (err e, none)

  -- Behind the set-up of the connection.
  unfoldable pub after_dial :
      AgentInfo
      → Result Opened IoError
      → Result (Unit {0}) IoError
      → Result (Unit {0}) IoError × Option Opened
  unfolding after_open
  after_dial info opening (ok c) = after_open info opening
  after_dial info opening (err e) = (err e, none)

  unfoldable pub connect :
      {Cert Key Roots : Type 0}
      → Network
      → ConnectionBuilder Cert Key Roots
      → Result (Unit {0}) IoError × Option Opened
  unfolding dial agent_info after_dial
  connect net b = after_dial (agent_info b net.remote_is_ipv6) net.opening (dial net)
