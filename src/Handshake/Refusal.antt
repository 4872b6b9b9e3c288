-- ===== src/Handshake/Refusal.antt =====
-- `handshake` of server.rs: what a manager tells the agents that it refuses.
use review_protocol.ProtocolError.{ProtocolErrorKind}
use review_protocol.ProtocolError.{IoError, ErrorKind}
use review_protocol.Handshake.{
  send_error_of_kind, recv_error_of_kind, handshake_error_kind, incompatible_protocol,
  handle_handshake_send_io_error, handle_handshake_recv_io_error,
}
use review_protocol.Wire.Laws.{send_frame-cases}
use review_protocol.ProtocolError.{error_kind}
use review_protocol.Handshake.Manager.{combined_range}
use review_protocol.Prelude.{◌++◌, inl, inr, String, true, ◌≡◌, refl, Result, ok, err, arith}
use review_protocol.Wire.{RecvStream}
use review_protocol.Types.Shared.{SocketAddr}
use review_protocol.AgentInfo.{AgentInfo, InfoCoding}
use review_protocol.Handshake.{HandshakeError}
use review_protocol.Handshake.Manager.{
  Semver, Accepted, admits, accept, refuse, after_refusal, receive_info, decide,
}
use review_protocol.Handshake.Manager.{handshake}
use review_protocol.Handshake.{ConnectionError}
use review_protocol.Handshake.Manager.{serve_handshake}
use review_protocol.Handshake.{handshake_error_kind}
use review_protocol.Handshake.{ProtocolErrorKind}
use review_protocol.Prelude.{List}
use review_protocol.Wire.{recv_raw}
use review_protocol.Handshake.{incompatible_protocol}
use review_protocol.Prelude.{some}
use review_protocol.Prelude.{◌++◌}
use review_protocol.Prelude.{◌∷◌}
use review_protocol.Prelude.{[]}
use review_protocol.Prelude.{sym}
use review_protocol.Prelude.{◌∙◌}
use review_protocol.Prelude.{ap}
use review_protocol.Prelude.{Bool}
use review_protocol.Prelude.{if◌then◌else◌}
use review_protocol.Handshake.Window.{handshake-cases}
use review_protocol.Prelude.{false, true}

module _ {Req Ver E : Type 0} (semver : Semver Req Ver) (coding : InfoCoding E) where
  recv-kind :
      (kind : ErrorKind) (e : IoError)
      → handshake_error_kind (recv_error_of_kind kind e) ≡ ProtocolErrorKind.other
  unfolding recv_error_of_kind handshake_error_kind
  recv-kind kind e = ground arith

  send-kind :
      (kind : ErrorKind) (e : IoError)
      → handshake_error_kind (send_error_of_kind kind e) ≡ ProtocolErrorKind.other
  unfolding send_error_of_kind handshake_error_kind
  send-kind kind e = ground arith

  -- The stream tells the agent the range of the error.
  abbrev Told : HandshakeError → Accepted → Type 0
  Told e s =
      (version range : String) × (sent : List (Result String String)) × (e
        ≡ incompatible_protocol version range)
      × (s.send.sent ≡ sent ++ err range ∷ [])
      × (s.finished ≡ true)

  abbrev Mismatch : HandshakeError → Type 0
  Mismatch e = handshake_error_kind e ≡ ProtocolErrorKind.version_mismatch

  receive_info-kind :
      (addr : SocketAddr) (recv : RecvStream) (e : HandshakeError)
      → receive_info semver coding addr recv ≡ err e
      → handshake_error_kind e ≡ ProtocolErrorKind.other
  unfolding receive_info handle_handshake_recv_io_error handshake_error_kind
  receive_info-kind addr recv e h = grind (arith, recv-kind)

  accept-kind :
      (ceiling : Ver) (info : AgentInfo) (s : Accepted) (e : HandshakeError)
      → (accept semver coding ceiling info s).0 ≡ err e
      → handshake_error_kind e ≡ ProtocolErrorKind.other
  unfolding accept handle_handshake_send_io_error
  accept-kind ceiling info s e h = grind (arith, send-kind)

  refuse-Told :
      (req : Req) (ceiling : Ver) (info : AgentInfo) (s : Accepted) (e : HandshakeError)
      → (refuse semver coding req ceiling info s).0 ≡ err e
      → Mismatch e
      → Told e (refuse semver coding req ceiling info s).1
  unfolding refuse after_refusal handle_handshake_send_io_error
  refuse-Told req ceiling info s e h kind =
      let range = combined_range semver coding req ceiling in
      elim (send_frame-cases (err range) s.send) [
        | inl (sent, frames) ↦
            (info.protocol_version, range, s.send.sent, grind arith, grind arith, grind arith)
        | inr (x, failed, frames) ↦ absurd (grind (arith, send-kind (error_kind x) x))
      ]

  other-Mismatch :
      (e : HandshakeError) → handshake_error_kind e ≡ ProtocolErrorKind.other → Mismatch e → ⊥
  other-Mismatch e o m = cc

  judged-Told :
      (admitted : Bool) (req : Req) (ceiling : Ver) (info : AgentInfo) (s : Accepted)
      (e : HandshakeError)
      → (if admitted
          then accept semver coding ceiling info s
          else refuse semver coding req ceiling info s).0
        ≡ err e
      → Mismatch e
      → Told e
          (if admitted
            then accept semver coding ceiling info s
            else refuse semver coding req ceiling info s).1
  judged-Told true req ceiling info s e h kind =
      absurd (other-Mismatch e (accept-kind ceiling info s e h) kind)
  judged-Told false req ceiling info s e h kind = refuse-Told req ceiling info s e h kind

  decide-Told :
      (req : Req) (ceiling : Ver) (s : Accepted) (x : Result AgentInfo HandshakeError)
      (e : HandshakeError)
      → ((y : HandshakeError) → x ≡ err y → handshake_error_kind y ≡ ProtocolErrorKind.other)
      → (decide semver coding req ceiling s x).0 ≡ err e
      → Mismatch e
      → Told e (decide semver coding req ceiling s x).1
  unfolding decide
  decide-Told req ceiling s (err y) e k h kind = absurd (other-Mismatch e (k e h) kind)
  decide-Told req ceiling s (ok info) e k h kind =
      judged-Told (admits semver coding req ceiling (semver.parse_version info.protocol_version))
        req ceiling info s e h kind

  served-Told :
      (accepting : Result Accepted ConnectionError) (addr : SocketAddr) (req : Req) (ceiling : Ver)
      (e : HandshakeError)
      → (serve_handshake semver coding addr req ceiling accepting).0 ≡ err e
      → Mismatch e
      → (s : Accepted) × ((serve_handshake semver coding addr req ceiling accepting).1 ≡ some s)
        × Told e s
  unfolding serve_handshake handshake_error_kind
  served-Told (err c) addr req ceiling e h kind = absurd (grind arith)
  served-Told (ok s) addr req ceiling e h kind = (
    (decide semver coding req ceiling (record s { recv = (recv_raw s.recv).1 })
        (receive_info semver coding addr s.recv)).1,
    refl,
    decide-Told req ceiling (record s { recv = (recv_raw s.recv).1 })
        (receive_info semver coding addr s.recv) e (receive_info-kind addr s.recv) h kind,
  )

  -- A manager that ends with a version mismatch has told the agent: where the error of `handshake` is
  -- of that category, it carries a range of versions, the last frame that was sent refuses the agent
  -- with the same range, and the send half is finished.
  pub refused_agent_is_told_the_range :
      (accepting : Result Accepted ConnectionError) (addr : SocketAddr)
      (version_req highest : String) (e : HandshakeError)
      → (handshake semver coding accepting addr version_req highest).0 ≡ err e
      → handshake_error_kind e ≡ ProtocolErrorKind.version_mismatch
      → (s : Accepted) × ((handshake semver coding accepting addr version_req highest).1 ≡ some s)
        × (version range : String) × (sent : List (Result String String)) × (e
            ≡ incompatible_protocol version range)
        × (s.send.sent ≡ sent ++ err range ∷ [])
        × (s.finished ≡ true)
  unfolding handshake_error_kind
  refused_agent_is_told_the_range accepting addr version_req highest e h kind =
      elim (handshake-cases semver coding accepting addr version_req highest) [
        | inl (text, x) ↦ absurd (grind arith)
        | inr (req, ceiling, p, q, x) ↦
            let (s, stream, told) =
              served-Told accepting addr req ceiling e (sym (ap (λ y. y.0) x) ∙ h) kind in
            let (version, range, sent, same, last, finished) = told in
            (s, ap (λ y. y.1) x ∙ stream, version, range, sent, same, last, finished)
      ]
