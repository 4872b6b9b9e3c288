-- ===== src/Request/Handle/Flat.antt =====
-- `handle` of request.rs: what is answered to a request that is not served.
use review_protocol.Prelude.{ℕ, ◌<◌, ◌≡◌, refl, ◌⊎◌, Result, ok, err, Option, none, some, arith}
use review_protocol.ProtocolError.{IoError, ProtocolErrorKind, invalid_args}
use review_protocol.Wire.{Bytes}
use review_protocol.Wire.Laws.{Reliable}
use review_protocol.Codes.Client.{RequestCode, from_primitive, to_u32}
use review_protocol.Codes.Client.Laws.{from_primitive-cases}
use review_protocol.Request.NodeHandler.{Answer, NodeReply, recv_error, error}
use review_protocol.Request.Handler.{Handler, node_handler}
use review_protocol.Request.Serve.{Agent, classified, undecodable_args_message}
use review_protocol.Request.Package.Exchange.{replied, respond-Reliable}
use review_protocol.Request.HandleNode.{unknown_code_message}
use review_protocol.Request.HandleNode.Replies.{
  Undecodable, decode_args-fails, bad_args_are_answered,
}
use review_protocol.Request.Handle.{AgentCodec, serve_args, dispatch_any}
use review_protocol.Request.Handle.Nodes.{dispatch_any-Grouped}

-- The numbers that no release has assigned.
abbrev pub Unassigned : ℕ → Type 0
Unassigned n = (n ≡ 3) ⊎ (n ≡ 11) ⊎ ((26 < n) × (n < 100)) ⊎ (110 < n)

from_primitive-Unassigned :
    (c : RequestCode) (n : ℕ)
    → Unassigned n
    → (c ≡ RequestCode.unknown) ⊎ (to_u32 c ≡ n)
    → c ≡ RequestCode.unknown
unfolding to_u32
from_primitive-Unassigned RequestCode.unknown n u h = refl
from_primitive-Unassigned _ n u h = absurd (ground arith)

module _ {Net H : Type 0} (handler : Handler Net H) (codec : AgentCodec Net) where
  -- A request whose code is none of the numbers 0 to 2, 4 to 10, 12 to 26 and 100 to 110 is answered
  -- with the error text that names the code, and with nothing else: its body is not decoded, the
  -- handler keeps its state, and the loop goes on.
  pub codes_without_an_arm_are_refused :
      (code : ℕ) (body : Bytes) (w : Agent H)
      → Reliable w.send
      → Unassigned code
      → dispatch_any handler codec (from_primitive code) code body w
        ≡ (ok tt, replied (error (unknown_code_message code)) w)
  unfolding dispatch_any
  codes_without_an_arm_are_refused code body w r u =
      rw (from_primitive-Unassigned (from_primitive code) code u (from_primitive-cases code))
        (respond-Reliable (error (unknown_code_message code)) w r)

  -- The parse of a request's arguments failed with `e`.
  abbrev pub UndecodableArgs : RequestCode → Bytes → IoError → Type 0
  UndecodableArgs RequestCode.reload_ti body e = codec.parse_text body ≡ err e
  UndecodableArgs RequestCode.tor_exit_node_list body e = codec.parse_texts body ≡ err e
  UndecodableArgs RequestCode.sampling_policy_list body e = codec.parse_policies body ≡ err e
  UndecodableArgs RequestCode.delete_sampling_policy body e = codec.parse_policy_ids body ≡ err e
  UndecodableArgs RequestCode.trusted_domain_list body e = codec.parse_texts body ≡ err e
  UndecodableArgs RequestCode.internal_network_list body e = codec.parse_networks body ≡ err e
  UndecodableArgs RequestCode.allowlist body e = codec.parse_networks body ≡ err e
  UndecodableArgs RequestCode.blocklist body e = codec.parse_networks body ≡ err e
  UndecodableArgs RequestCode.trusted_user_agent_list body e = codec.parse_texts body ≡ err e
  UndecodableArgs RequestCode.reload_filter_rule body e = codec.parse_rules body ≡ err e
  UndecodableArgs RequestCode.delete_customer_data body e = codec.parse_deletion body ≡ err e
  UndecodableArgs RequestCode.train_model body e = codec.parse_train_model body ≡ err e
  UndecodableArgs RequestCode.clone_model body e = codec.parse_clone_model body ≡ err e
  UndecodableArgs RequestCode.cancel_run body e = codec.parse_run_id body ≡ err e
  UndecodableArgs RequestCode.run_detector_once body e = codec.parse_detector_id body ≡ err e
  UndecodableArgs c body e = Undecodable (node_handler handler) codec.node c body e

  -- The category that the failure is classified with, where the arm asks for one.
  abbrev pub args_category : RequestCode → Option ProtocolErrorKind
  args_category RequestCode.reload_ti = some invalid_args
  args_category RequestCode.node_power = some invalid_args
  args_category _ = none

  serve_args-fails :
      {Req A : Type 0} (parse : Bytes → Result Req IoError) (kind : Option ProtocolErrorKind)
      (method : Req → H → Answer A × H) (reply : Answer A → NodeReply) (code : ℕ) (body : Bytes)
      (w : Agent H) (e : IoError)
      → Reliable w.send
      → parse body ≡ err e
      → serve_args parse kind method reply code body w
        ≡ (err (recv_error (classified kind e)), replied (error (undecodable_args_message code)) w)
  unfolding serve_args
  serve_args-fails parse kind method reply code body w e r h =
      rw (decode_args-fails (node_handler handler) codec.node parse code body kind w e r h)

  -- A request of any code whose arguments do not decode is answered with the one error text
  -- that names its code; the handler keeps its state, and the loop ends with the receive
  -- error, which a power request and a reload of threat intelligence classify as invalid arguments.
  pub bad_arguments_are_answered :
      (c : RequestCode) (code : ℕ) (body : Bytes) (w : Agent H) (e : IoError)
      → Reliable w.send
      → UndecodableArgs c body e
      → dispatch_any handler codec c code body w ≡ (
        err (recv_error (classified (args_category c) e)),
        replied (error (undecodable_args_message code)) w,
      )
  unfolding dispatch_any
  bad_arguments_are_answered RequestCode.node_power code body w e r h =
      rw (dispatch_any-Grouped handler codec RequestCode.node_power code body tt) (
        bad_args_are_answered (node_handler handler) codec.node RequestCode.node_power code body w e
          r h)
  bad_arguments_are_answered RequestCode.node_package code body w e r h =
      rw (dispatch_any-Grouped handler codec RequestCode.node_package code body tt) (
        bad_args_are_answered (node_handler handler) codec.node RequestCode.node_package code body w
          e r h)
  bad_arguments_are_answered _ code body w e r h = grind (arith, serve_args-fails)
