-- ===== src/Request/Handle/Compat.antt =====
-- `handle` of request.rs: the operations of host control that have both a flat code and a code of a
-- node family.
use review_protocol.Prelude.{arith, ℕ, ◌≡◌, refl, ok, err, map_ok, and_then}
use review_protocol.Wire.{Bytes}
use review_protocol.Codes.Client.{RequestCode}
use review_protocol.Types.Node.Observation.{
  NodePowerRequest, NodeObservationRequest, NodeObservationResponse, initiated,
}
use review_protocol.Request.NodeHandler.{acknowledged, Answer, NodeReply}
use review_protocol.Request.Handler.{
  Handler, default_node_power, default_node_observation, map_answer,
}
use review_protocol.Request.Serve.{Agent, respond, decode_args}
use review_protocol.Request.Handle.{
  AgentCodec, serve_method, serve_args, serve_flat_power, serve_flat_observation,
  serve_grouped_power, dispatch_any, usage_of, processes_of,
}

-- An answer that goes through the grouped type and is translated back.
through :
    {A B H : Type 0} (f : A → B) (g : Answer B → Answer A) (reply : Answer A → NodeReply)
    (x : Answer A × H) (w : Agent H)
    → ((r : Answer A) → g (map_ok f r) ≡ r)
    → respond (reply (g (map_answer f x).0)) (record w { handler = (map_answer f x).1 })
      ≡ respond (reply x.0) (record w { handler = x.1 })
through f g reply (ok a, h) w q = rw (q (ok a)) refl
through f g reply (err e, h) w q = rw (q (err e)) refl

module _ {Net H : Type 0} (handler : Handler Net H) (codec : AgentCodec Net) where
  -- A flat code, the code of the node family that asks for the same operation, and the body that
  -- asks for it there.
  pub data SameOperation : RequestCode → RequestCode → Bytes → Type 0 where
    reboot :
        {body : Bytes}
        → codec.node.parse_power body ≡ ok NodePowerRequest.reboot
        → SameOperation RequestCode.reboot RequestCode.node_power body
    shutdown :
        {body : Bytes}
        → codec.node.parse_power body ≡ ok NodePowerRequest.shutdown
        → SameOperation RequestCode.shutdown RequestCode.node_power body
    usage :
        {body : Bytes}
        → codec.node.parse_observation body ≡ ok NodeObservationRequest.resource_usage
        → SameOperation RequestCode.resource_usage RequestCode.node_observation body
    processes :
        {body : Bytes}
        → codec.node.parse_observation body ≡ ok NodeObservationRequest.process_list
        → SameOperation RequestCode.process_list RequestCode.node_observation body

  -- A reboot, a shutdown, the resource usage and the process list act on the handler in the same way
  -- in both wire formats: the state behind the flat request is that behind the request of the node
  -- family, for every handler, whatever the sends do.
  pub wire_formats_act_alike :
      (flat grouped : RequestCode) (code code' : ℕ) (args body : Bytes) (w : Agent H)
      → SameOperation flat grouped body
      → (dispatch_any handler codec flat code args w).1.handler
        ≡ (dispatch_any handler codec grouped code' body w).1.handler
  unfolding dispatch_any serve_flat_power serve_flat_observation serve_grouped_power serve_args
      decode_args respond
  wire_formats_act_alike _ _ code code' args body w (reboot h) = rw h refl
  wire_formats_act_alike _ _ code code' args body w (shutdown h) = rw h refl
  wire_formats_act_alike _ _ code code' args body w (usage h) = rw h refl
  wire_formats_act_alike _ _ code code' args body w (processes h) = rw h refl

  -- The handler keeps the trait's default methods for power and observation.
  pub record KeepsDefaults : Type 0 where
    pub power : handler.node_power ≡ default_node_power handler.reboot handler.shutdown
    pub observation :
        handler.node_observation
        ≡ default_node_observation handler.process_list handler.resource_usage

  -- A handler that keeps the default `node_power` and `node_observation` answers the four flat
  -- requests of host control with what its flat methods answer, errors included, and with the state
  -- that they leave: the way through the grouped methods changes nothing.
  pub flat_requests_reach_the_flat_methods :
      (code : ℕ) (body : Bytes) (w : Agent H)
      → KeepsDefaults
      → (dispatch_any handler codec RequestCode.reboot code body w
          ≡ serve_method handler.reboot acknowledged w)
        × (dispatch_any handler codec RequestCode.shutdown code body w
            ≡ serve_method handler.shutdown acknowledged w)
        × (dispatch_any handler codec RequestCode.resource_usage code body w
            ≡ serve_method handler.resource_usage NodeReply.usage w)
        × (dispatch_any handler codec RequestCode.process_list code body w
            ≡ serve_method handler.process_list NodeReply.processes w)
  unfolding dispatch_any serve_flat_power serve_flat_observation serve_method default_node_power
      default_node_observation usage_of processes_of
  flat_requests_reach_the_flat_methods code body w keeps =
      rw (keeps.power, keeps.observation)
        (
          through (λ _. initiated) (map_ok (λ _. tt)) acknowledged (handler.reboot w.handler) w
              (λ r. ground arith),
          through (λ _. initiated) (map_ok (λ _. tt)) acknowledged (handler.shutdown w.handler) w
              (λ r. ground arith),
          through (λ (hostname, u). NodeObservationResponse.resource_usage hostname u)
              (λ r. and_then r (usage_of handler codec)) NodeReply.usage
              (handler.resource_usage w.handler) w (λ r. ground arith),
          through NodeObservationResponse.process_list
              (λ r. and_then r (processes_of handler codec)) NodeReply.processes
              (handler.process_list w.handler) w (λ r. ground arith),
        )
