-- ===== src/Handshake/Window.antt =====
-- `handshake` of server.rs: which agents a manager admits.
use review_protocol.Prelude.{◌<>◌, ◌⊎◌, inl, inr, String, true, ◌≡◌, refl, Result, ok, err, arith}
use review_protocol.Wire.{RecvStream}
use review_protocol.Types.Shared.{SocketAddr}
use review_protocol.AgentInfo.{AgentInfo, InfoCoding}
use review_protocol.ProtocolError.{ProtocolErrorKind}
use review_protocol.Handshake.{HandshakeError, handshake_error_kind}
use review_protocol.Handshake.Manager.{
  Semver, Accepted, in_window, admits, accept, refuse, after_refusal, receive_info, decide,
}
use review_protocol.Handshake.Manager.{handshake}
use review_protocol.Handshake.{ConnectionError}
use review_protocol.Handshake.Manager.{parse_version_req}
use review_protocol.Handshake.Manager.{serve_handshake}
use review_protocol.Handshake.Manager.{parse_highest}
use review_protocol.Prelude.{◌⊎◌}
use review_protocol.Handshake.{invalid_version_argument}
use review_protocol.Wire.{recv_raw}
use review_protocol.Prelude.{none}
use review_protocol.Prelude.{Result-cases}
use review_protocol.Prelude.{sym}
use review_protocol.Prelude.{◌∙◌}
use review_protocol.Prelude.{ap}

ok-err : {A E : Type 0} {a : A} {e : E} → ok a ≡ err e → ⊥
ok-err h = cc

module _ {Req Ver E : Type 0} (semver : Semver Req Ver) (coding : InfoCoding E) where
  admits-in_window :
      (req : Req) (ceiling : Ver) (parsed : Result Ver String)
      → admits semver coding req ceiling parsed ≡ true
      → (version : Ver) × (parsed ≡ ok version)
        × (semver.matches req version ≡ true)
        × (semver.at_most version ceiling ≡ true)
  unfolding admits in_window
  admits-in_window req ceiling (ok version) h = (version, refl, ground arith, ground arith)
  admits-in_window req ceiling (err e) h = cc

  receive_info-addr :
      (addr : SocketAddr) (recv : RecvStream) (info : AgentInfo)
      → receive_info semver coding addr recv ≡ ok info
      → info.addr ≡ addr
  unfolding receive_info
  receive_info-addr addr recv info h = ground arith

  -- The agent's version lies in the window that the manager's arguments name.
  pub record InWindow (version_req highest : String) (info : AgentInfo) : Type 0 where
    pub req : Req
    pub ceiling : Ver
    pub version : Ver
    pub req_parses : semver.parse_req version_req ≡ ok req
    pub ceiling_parses : semver.parse_version highest ≡ ok ceiling
    pub version_parses : semver.parse_version info.protocol_version ≡ ok version
    pub matches_req : semver.matches req version ≡ true
    pub below_ceiling : semver.at_most version ceiling ≡ true

  decide-ok :
      (req : Req) (ceiling : Ver) (s : Accepted) (x : Result AgentInfo HandshakeError)
      (info : AgentInfo)
      → (decide semver coding req ceiling s x).0 ≡ ok info
      → (x ≡ ok info)
        × (admits semver coding req ceiling (semver.parse_version info.protocol_version) ≡ true)
  unfolding decide accept refuse after_refusal
  decide-ok req ceiling s x info h = ground arith

  pub handshake-serves :
      (accepting : Result Accepted ConnectionError) (addr : SocketAddr)
      (version_req highest : String) (req : Req) (ceiling : Ver)
      → semver.parse_req version_req ≡ ok req
      → semver.parse_version highest ≡ ok ceiling
      → handshake semver coding accepting addr version_req highest
        ≡ serve_handshake semver coding addr req ceiling accepting
  unfolding handshake parse_version_req parse_highest
  handshake-serves accepting addr version_req highest req ceiling p q =
      rw (handshake, parse_version_req, parse_highest, p, q) refl

  -- An argument that does not parse, with what the error says of it. The requirement comes first.
  pub data BadArgument (version_req highest : String) : String → Type 0 where
    bad_requirement :
        (why : String)
        → semver.parse_req version_req ≡ err why
        → BadArgument version_req highest
            ("version_req " <> (semver.debug version_req <> (": " <> why)))
    bad_highest :
        (req : Req) (why : String)
        → semver.parse_req version_req ≡ ok req
        → semver.parse_version highest ≡ err why
        → BadArgument version_req highest
            ("highest_protocol_version " <> (semver.debug highest <> (": " <> why)))

  -- A version argument does not parse, or both do and the handshake is that of the stream.
  pub handshake-cases :
      (accepting : Result Accepted ConnectionError) (addr : SocketAddr)
      (version_req highest : String)
      → ((text : String) × (handshake semver coding accepting addr version_req highest
            ≡ (err (invalid_version_argument text), none)))
        ⊎ ((req : Req) × (ceiling : Ver) × (semver.parse_req version_req ≡ ok req)
            × (semver.parse_version highest ≡ ok ceiling)
            × (handshake semver coding accepting addr version_req highest
                ≡ serve_handshake semver coding addr req ceiling accepting))
  unfolding handshake parse_version_req parse_highest
  handshake-cases accepting addr version_req highest =
      elim (Result-cases (semver.parse_req version_req)) [
        | inl (req, e) ↦ elim (Result-cases (semver.parse_version highest)) [
          | inl (ceiling, q) ↦ inr (
            req,
            ceiling,
            e,
            q,
            handshake-serves accepting addr version_req highest req ceiling e q,
          )
          | inr (x, q) ↦ inl (
            "highest_protocol_version " <> (semver.debug highest <> (": " <> x)),
            rw (handshake, parse_version_req, parse_highest, e, q) refl,
          )
        ]
        | inr (x, e) ↦ inl (
          "version_req " <> (semver.debug version_req <> (": " <> x)),
          rw (handshake, parse_version_req, e) refl,
        )
      ]

  served-InWindow :
      (accepting : Result Accepted ConnectionError) (addr : SocketAddr)
      (version_req highest : String) (info : AgentInfo) (req : Req) (ceiling : Ver)
      → semver.parse_req version_req ≡ ok req
      → semver.parse_version highest ≡ ok ceiling
      → (serve_handshake semver coding addr req ceiling accepting).0 ≡ ok info
      → InWindow version_req highest info × (info.addr ≡ addr)
  unfolding serve_handshake
  served-InWindow (err e) addr version_req highest info req ceiling p q h = cc
  served-InWindow (ok s) addr version_req highest info req ceiling p q h =
      let (received, admitted) =
        decide-ok req ceiling (record s { recv = (recv_raw s.recv).1 })
          (receive_info semver coding addr s.recv) info h in
      let (version, parses, fits, below) =
        admits-in_window req ceiling (semver.parse_version info.protocol_version) admitted in
      (
        record {
          req = req;
          ceiling = ceiling;
          version = version;
          req_parses = p;
          ceiling_parses = q;
          version_parses = parses;
          matches_req = fits;
          below_ceiling = below;
        },
        receive_info-addr addr s.recv info received,
      )

  -- A manager admits only agents of its window: when `handshake` returns an agent's information, both
  -- version arguments are valid, the agent's version parses, satisfies the requirement and does not
  -- exceed the highest version, and the address is the one that the manager gave. This holds
  -- whatever the connection delivers.
  pub admitted_agent_is_in_the_window :
      (accepting : Result Accepted ConnectionError) (addr : SocketAddr)
      (version_req highest : String) (info : AgentInfo)
      → (handshake semver coding accepting addr version_req highest).0 ≡ ok info
      → InWindow version_req highest info × (info.addr ≡ addr)
  admitted_agent_is_in_the_window accepting addr version_req highest info h =
      elim (handshake-cases accepting addr version_req highest) [
        | inl (text, e) ↦ absurd (ok-err (sym h ∙ ap (λ x. x.0) e))
        | inr (req, ceiling, p, q, e) ↦
            served-InWindow accepting addr version_req highest info req ceiling p q
              (sym (ap (λ x. x.0) e) ∙ h)
      ]

  -- A version argument that does not parse ends `handshake` before the manager accepts a stream. The
  -- error names the argument, quotes it, and gives semver's reason; where both are bad it names the
  -- requirement. Its category is `other`, not a version mismatch.
  pub invalid_arguments_accept_nothing :
      (accepting : Result Accepted ConnectionError) (addr : SocketAddr)
      (version_req highest text : String)
      → BadArgument version_req highest text
      → (handshake semver coding accepting addr version_req highest
          ≡ (err (invalid_version_argument text), none))
        × (handshake_error_kind (invalid_version_argument text) ≡ ProtocolErrorKind.other)
  unfolding handshake parse_version_req parse_highest handshake_error_kind
  invalid_arguments_accept_nothing accepting addr version_req highest _ (bad_requirement why e) =
      (rw (handshake, parse_version_req, e) refl, refl)
  invalid_arguments_accept_nothing accepting addr version_req highest _ (bad_highest req why e q) =
      (rw (handshake, parse_version_req, parse_highest, e, q) refl, refl)
