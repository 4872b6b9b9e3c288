-- ===== src/Auth/Laws.antt =====
-- auth.rs: the identity survives the way into a context and back.
use review_protocol.Prelude.{String, ◌≡◌, Option, List, arith}
use review_protocol.ServiceId.{ServiceId}
use review_protocol.Auth.{
  PeerContext, AgentKind, ProtocolMetadata, Authorizer, from_peer_context,
  from_authenticated_inputs, to_peer_context, adapter,
}

to_peer_context-inputs :
    (p : PeerContext) (kind : Option AgentKind) (roles : Option (List String))
    (meta : Option ProtocolMetadata) (attributes : Option (List (String × String)))
    → to_peer_context (from_authenticated_inputs p kind roles meta attributes) ≡ p
unfolding to_peer_context from_authenticated_inputs
to_peer_context-inputs p kind roles meta attributes = ground arith

pub to_peer_context-from_peer_context :
    (p : PeerContext) → to_peer_context (from_peer_context p) ≡ p
unfolding to_peer_context from_peer_context
to_peer_context-from_peer_context p = ground arith

-- However a context is built from a peer, with whatever further inputs, the adapter asks the inner
-- authorizer about exactly that peer, and gives its answer.
pub adapter_asks_about_the_peer :
    (a : Authorizer) (p : PeerContext) (service : ServiceId) (kind : Option AgentKind)
    (roles : Option (List String)) (meta : Option ProtocolMetadata)
    (attributes : Option (List (String × String)))
    → ((adapter a).authorize_with_context (from_peer_context p) service ≡ a.authorize p service)
      × ((adapter a).authorize_with_context
            (from_authenticated_inputs p kind roles meta attributes)
            service
          ≡ a.authorize p service)
unfolding adapter
adapter_asks_about_the_peer a p service kind roles meta attributes =
    (rw to_peer_context-from_peer_context, rw to_peer_context-inputs)
