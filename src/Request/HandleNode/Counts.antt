-- ===== src/Request/HandleNode/Counts.antt =====
-- `handle_node` of request.rs: how many replies a request gets.
use review_protocol.Prelude.{
  ℕ, ◌≡◌, refl, inl, inr, false, Result, ok, Option, none, some, Result-cases, Bool-cases,
}
use review_protocol.Request.HandleNode.Replies.{decode_args-fails}
use review_protocol.Request.Package.{conclude}
use review_protocol.Request.PackageReader.{drain}
use review_protocol.Request.Package.Exchange.{installed}
use review_protocol.ProtocolError.{IoError, ProtocolErrorKind, invalid_args}
use review_protocol.Wire.{Bytes}
use review_protocol.Wire.Laws.{Grew, Grew-none, Grew-one, Grew-two, Reliable}
use review_protocol.Codes.Client.{RequestCode}
use review_protocol.Types.Node.Observation.{NodePowerRequest}
use review_protocol.Types.Node.Package.{InstallFields, NodePackageRequest, install}
use review_protocol.Request.NodeHandler.{
  NodeHandler, NodeCodec, NodeReply, Answer, error, preflight, package_result,
  node_power_expects_response,
}
use review_protocol.Request.Serve.{Agent, respond, decode_args, undecodable_args_message}
use review_protocol.Request.Package.{proceeds, dispatch_node_package}
use review_protocol.Request.Package.Exchange.{
  respond-Reliable, install_refused, dispatch-proceeds, verdict,
}
use review_protocol.Request.HandleNode.{
  serve_family, serve_power, serve_package, dispatch, unknown_code_message,
}

module _ {H : Type 0} (handler : NodeHandler H) (codec : NodeCodec) where
  -- The replies that a request may get: one, or none to a power request that expects none, or two
  -- to an install.
  pub data ReplyCount (c : RequestCode) (body : Bytes) (n : ℕ) : Type 0 where
    one : n ≡ 1 → ReplyCount c body n
    silent :
        (req : NodePowerRequest)
        → n ≡ 0
        → c ≡ RequestCode.node_power
        → codec.parse_power body ≡ ok req
        → node_power_expects_response req ≡ false
        → ReplyCount c body n
    two :
        (f : InstallFields)
        → n ≡ 2
        → c ≡ RequestCode.node_package
        → codec.parse_package body ≡ ok (install f)
        → ReplyCount c body n

  abbrev Counted : RequestCode → Bytes → Agent H → Agent H → Type 0
  Counted c body w w' = (n : ℕ) × ReplyCount c body n × Grew w.send n w'.send

  pub decode_args-ok :
      {T : Type 0} (parse : Bytes → Result T IoError) (code : ℕ) (body : Bytes)
      (kind : Option ProtocolErrorKind) (w : Agent H) (req : T)
      → parse body ≡ ok req
      → decode_args parse code body kind w ≡ (ok req, w)
  unfolding decode_args
  decode_args-ok parse code body kind w req h = rw h

  respond-Counted :
      (c : RequestCode) (body : Bytes) (reply : NodeReply) (w : Agent H)
      → Reliable w.send
      → Counted c body w (respond reply w).1
  respond-Counted c body reply w r =
      rw (respond-Reliable reply w r) (1, one refl, Grew-one reply w.send)

  serve_family-Counted :
      {Req Resp : Type 0} (c : RequestCode) (parse : Bytes → Result Req IoError)
      (method : Req → H → Answer Resp × H) (reply : Answer Resp → NodeReply) (code : ℕ)
      (body : Bytes) (w : Agent H)
      → Reliable w.send
      → Counted c body w (serve_family handler codec parse method reply code body w).1
  unfolding serve_family
  serve_family-Counted c parse method reply code body w r = elim (Result-cases (parse body)) [
    | inl (req, e) ↦ rw (decode_args-ok parse code body none w req e) (
        respond-Counted c body (reply (method req w.handler).0)
          (record w { handler = (method req w.handler).1 }) r)
    | inr (x, e) ↦
        rw (decode_args-fails handler codec parse code body none w x r e)
          (1, one refl, Grew-one (error (undecodable_args_message code)) w.send)
  ]

  serve_power-Counted :
      (code : ℕ) (body : Bytes) (w : Agent H)
      → Reliable w.send
      → Counted RequestCode.node_power body w (serve_power handler codec code body w).1
  unfolding serve_power
  serve_power-Counted code body w r = elim (Result-cases (codec.parse_power body)) [
    | inl (req, e) ↦ elim (Bool-cases (node_power_expects_response req)) [
      | inl expected ↦
          rw (decode_args-ok codec.parse_power code body (some invalid_args) w req e, expected)
            (respond-Counted RequestCode.node_power body
              (NodeReply.power (handler.node_power req w.handler).0)
              (record w { handler = (handler.node_power req w.handler).1 }) r)
      | inr unexpected ↦
          rw (decode_args-ok codec.parse_power code body (some invalid_args) w req e, unexpected)
            (0, silent req refl refl e unexpected, Grew-none w.send r)
    ]
    | inr (x, e) ↦
        rw (decode_args-fails handler codec codec.parse_power code body (some invalid_args) w x r e)
          (1, one refl, Grew-one (error (undecodable_args_message code)) w.send)
  ]

  install-Counted :
      (f : InstallFields) (body : Bytes) (w : Agent H)
      → Reliable w.send
      → codec.parse_package body ≡ ok (install f)
      → Counted RequestCode.node_package body w (dispatch_node_package handler (install f) w).1
  install-Counted f body w r e = elim (Bool-cases (proceeds (verdict handler f w))) [
    | inl proceeding ↦ rw (dispatch-proceeds handler f w r proceeding) (
      2,
      two f refl refl e,
      Grew-two (preflight (verdict handler f w))
          (package_result (conclude (installed handler f w).0 (drain (installed handler f w).2).0))
          w.send,
    )
    | inr refused ↦
        rw (install_refused handler f w r refused)
          (1, one refl, Grew-one (preflight (verdict handler f w)) w.send)
  ]

  dispatch_node_package-Counted :
      (req : NodePackageRequest) (body : Bytes) (w : Agent H)
      → Reliable w.send
      → codec.parse_package body ≡ ok req
      → Counted RequestCode.node_package body w (dispatch_node_package handler req w).1
  unfolding dispatch_node_package
  dispatch_node_package-Counted (install f) body w r e = install-Counted f body w r e
  dispatch_node_package-Counted _ body w r e = respond-Counted RequestCode.node_package body _ _ r

  serve_package-Counted :
      (code : ℕ) (body : Bytes) (w : Agent H)
      → Reliable w.send
      → Counted RequestCode.node_package body w (serve_package handler codec code body w).1
  unfolding serve_package
  serve_package-Counted code body w r = elim (Result-cases (codec.parse_package body)) [
    | inl (req, e) ↦
        rw (decode_args-ok codec.parse_package code body none w req e)
          (dispatch_node_package-Counted req body w r e)
    | inr (x, e) ↦
        rw (decode_args-fails handler codec codec.parse_package code body none w x r e)
          (1, one refl, Grew-one (error (undecodable_args_message code)) w.send)
  ]

  -- On a stream whose sends do not fail, a request is answered by exactly one frame, but for two
  -- cases: a power request that expects no response may get none, and an install may get two, its
  -- verdict and its result. This holds for every request code and body, undecodable ones included,
  -- and the sends do not fail afterwards.
  pub replies_counted :
      (c : RequestCode) (code : ℕ) (body : Bytes) (w : Agent H)
      → Reliable w.send
      → (n : ℕ) × ReplyCount c body n × Grew w.send n (dispatch handler codec c code body w).1.send
  unfolding dispatch
  replies_counted RequestCode.node_service code body w r =
      serve_family-Counted RequestCode.node_service codec.parse_service handler.node_service
        NodeReply.service code body w r
  replies_counted RequestCode.node_network_interface code body w r =
      serve_family-Counted RequestCode.node_network_interface codec.parse_network_interface
        handler.node_network_interface NodeReply.network_interface code body w r
  replies_counted RequestCode.node_hostname code body w r =
      serve_family-Counted RequestCode.node_hostname codec.parse_hostname handler.node_hostname
        NodeReply.hostname code body w r
  replies_counted RequestCode.node_time_sync code body w r =
      serve_family-Counted RequestCode.node_time_sync codec.parse_time_sync handler.node_time_sync
        NodeReply.time_sync code body w r
  replies_counted RequestCode.node_logging code body w r =
      serve_family-Counted RequestCode.node_logging codec.parse_logging handler.node_logging
        NodeReply.logging code body w r
  replies_counted RequestCode.node_remote_access code body w r =
      serve_family-Counted RequestCode.node_remote_access codec.parse_remote_access
        handler.node_remote_access NodeReply.remote_access code body w r
  replies_counted RequestCode.node_power code body w r = serve_power-Counted code body w r
  replies_counted RequestCode.node_observation code body w r =
      serve_family-Counted RequestCode.node_observation codec.parse_observation
        handler.node_observation NodeReply.observation code body w r
  replies_counted RequestCode.node_version code body w r =
      serve_family-Counted RequestCode.node_version codec.parse_version handler.node_version
        NodeReply.version code body w r
  replies_counted RequestCode.node_package code body w r = serve_package-Counted code body w r
  replies_counted RequestCode.node_enroll code body w r =
      serve_family-Counted RequestCode.node_enroll codec.parse_enroll handler.node_enroll
        NodeReply.enroll code body w r
  replies_counted c code body w r = respond-Counted c body (error (unknown_code_message code)) w r
