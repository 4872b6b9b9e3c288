-- ===== src/Request/HandleNode/Replies.antt =====
-- `handle_node` of request.rs: what is answered to each request.
use review_protocol.Prelude.{ℕ, ◌<◌, ◌≡◌, ◌⊎◌, Result, ok, err, Option, none, some, arith}
use review_protocol.ProtocolError.{IoError, ProtocolErrorKind, invalid_args}
use review_protocol.Wire.{Bytes}
use review_protocol.Wire.Laws.{Reliable, send_frame-Reliable}
use review_protocol.Codes.Client.{RequestCode, from_primitive, to_u32}
use review_protocol.Codes.Client.Laws.{from_primitive-cases}
use review_protocol.Request.NodeHandler.{recv_error, NodeHandler, NodeCodec, error}
use review_protocol.Request.Serve.{Agent, decode_args, classified, undecodable_args_message}
use review_protocol.Request.Package.Exchange.{replied, respond-Reliable}
use review_protocol.Request.HandleNode.{
  serve_family, serve_power, serve_package, dispatch, unknown_code_message,
}

module _ {H : Type 0} (handler : NodeHandler H) (codec : NodeCodec) where
  -- The numbers outside the node families.
  foreign-code :
      (c : RequestCode) (code : ℕ) (body : Bytes) (w : Agent H)
      → Reliable w.send
      → (c ≡ RequestCode.unknown) ⊎ (to_u32 c ≡ code)
      → (code < 100) ⊎ (110 < code)
      → dispatch handler codec c code body w
        ≡ (ok tt, replied (error (unknown_code_message code)) w)
  unfolding dispatch to_u32
  foreign-code RequestCode.node_service code body w r e out = absurd (ground arith)
  foreign-code RequestCode.node_network_interface code body w r e out = absurd (ground arith)
  foreign-code RequestCode.node_hostname code body w r e out = absurd (ground arith)
  foreign-code RequestCode.node_time_sync code body w r e out = absurd (ground arith)
  foreign-code RequestCode.node_logging code body w r e out = absurd (ground arith)
  foreign-code RequestCode.node_remote_access code body w r e out = absurd (ground arith)
  foreign-code RequestCode.node_power code body w r e out = absurd (ground arith)
  foreign-code RequestCode.node_observation code body w r e out = absurd (ground arith)
  foreign-code RequestCode.node_version code body w r e out = absurd (ground arith)
  foreign-code RequestCode.node_package code body w r e out = absurd (ground arith)
  foreign-code RequestCode.node_enroll code body w r e out = absurd (ground arith)
  foreign-code _ code body w r e out = respond-Reliable (error (unknown_code_message code)) w r

  -- A request whose code lies outside the node families' numbers, 100 to 110, is answered with the
  -- error text that names the code, and with nothing else: its body is not decoded, the handler
  -- keeps its state, and the loop goes on.
  pub foreign_codes_are_refused :
      (code : ℕ) (body : Bytes) (w : Agent H)
      → Reliable w.send
      → (code < 100) ⊎ (110 < code)
      → dispatch handler codec (from_primitive code) code body w
        ≡ (ok tt, replied (error (unknown_code_message code)) w)
  foreign_codes_are_refused code body w r out =
      foreign-code (from_primitive code) code body w r (from_primitive-cases code) out

  -- The parse of a family's arguments failed with `e`.
  abbrev pub Undecodable : RequestCode → Bytes → IoError → Type 0
  Undecodable RequestCode.node_service body e = codec.parse_service body ≡ err e
  Undecodable RequestCode.node_network_interface body e = codec.parse_network_interface body ≡ err e
  Undecodable RequestCode.node_hostname body e = codec.parse_hostname body ≡ err e
  Undecodable RequestCode.node_time_sync body e = codec.parse_time_sync body ≡ err e
  Undecodable RequestCode.node_logging body e = codec.parse_logging body ≡ err e
  Undecodable RequestCode.node_remote_access body e = codec.parse_remote_access body ≡ err e
  Undecodable RequestCode.node_power body e = codec.parse_power body ≡ err e
  Undecodable RequestCode.node_observation body e = codec.parse_observation body ≡ err e
  Undecodable RequestCode.node_version body e = codec.parse_version body ≡ err e
  Undecodable RequestCode.node_package body e = codec.parse_package body ≡ err e
  Undecodable RequestCode.node_enroll body e = codec.parse_enroll body ≡ err e
  Undecodable _ body e = ⊥

  -- The category that the failure is classified with, where the family asks for one.
  abbrev pub category : RequestCode → Option ProtocolErrorKind
  category RequestCode.node_power = some invalid_args
  category _ = none

  pub decode_args-fails :
      {T : Type 0} (parse : Bytes → Result T IoError) (code : ℕ) (body : Bytes)
      (kind : Option ProtocolErrorKind) (w : Agent H) (e : IoError)
      → Reliable w.send
      → parse body ≡ err e
      → decode_args parse code body kind w
        ≡ (err (recv_error (classified kind e)), replied (error (undecodable_args_message code)) w)
  unfolding decode_args
  decode_args-fails parse code body kind w e r h =
      rw (h, send_frame-Reliable (error (undecodable_args_message code)) w.send r)

  -- A request of a node family whose arguments do not decode is answered with the one error text
  -- that names its code; the handler keeps its state, and the loop ends with the receive
  -- error, which a power request classifies as invalid arguments.
  pub bad_args_are_answered :
      (c : RequestCode) (code : ℕ) (body : Bytes) (w : Agent H) (e : IoError)
      → Reliable w.send
      → Undecodable c body e
      → dispatch handler codec c code body w ≡ (
        err (recv_error (classified (category c) e)),
        replied (error (undecodable_args_message code)) w,
      )
  unfolding dispatch serve_family serve_power serve_package
  bad_args_are_answered RequestCode.node_service code body w e r h =
      rw (decode_args-fails codec.parse_service code body none w e r h)
  bad_args_are_answered RequestCode.node_network_interface code body w e r h =
      rw (decode_args-fails codec.parse_network_interface code body none w e r h)
  bad_args_are_answered RequestCode.node_hostname code body w e r h =
      rw (decode_args-fails codec.parse_hostname code body none w e r h)
  bad_args_are_answered RequestCode.node_time_sync code body w e r h =
      rw (decode_args-fails codec.parse_time_sync code body none w e r h)
  bad_args_are_answered RequestCode.node_logging code body w e r h =
      rw (decode_args-fails codec.parse_logging code body none w e r h)
  bad_args_are_answered RequestCode.node_remote_access code body w e r h =
      rw (decode_args-fails codec.parse_remote_access code body none w e r h)
  bad_args_are_answered RequestCode.node_power code body w e r h =
      rw (decode_args-fails codec.parse_power code body (some invalid_args) w e r h)
  bad_args_are_answered RequestCode.node_observation code body w e r h =
      rw (decode_args-fails codec.parse_observation code body none w e r h)
  bad_args_are_answered RequestCode.node_version code body w e r h =
      rw (decode_args-fails codec.parse_version code body none w e r h)
  bad_args_are_answered RequestCode.node_package code body w e r h =
      rw (decode_args-fails codec.parse_package code body none w e r h)
  bad_args_are_answered RequestCode.node_enroll code body w e r h =
      rw (decode_args-fails codec.parse_enroll code body none w e r h)
  bad_args_are_answered _ code body w e r h = absurd h
