-- ===== src/Server/Handler/Authorized/Adapter.antt =====
-- `handle_authorized_with_context` of server/handler.rs with an authorizer in the adapter of auth.rs.
use review_protocol.Prelude.{◌≡◌, ap}
use review_protocol.Auth.{Authorizer, PeerContext, adapter, from_peer_context}
use review_protocol.Auth.Laws.{to_peer_context-from_peer_context}
use review_protocol.Server.Handler.{Handler, ServerCodec, Manager}
use review_protocol.Server.Handler.Authorized.{
  handle_authorized, handle_authorized_with_context, serve_requests,
}

module _ {Net Stats H : Type 0} (handler : Handler Net Stats H) (codec : ServerCodec Stats) where
  -- An authorizer that moves to the newer interface by the adapter decides every stream of requests
  -- as before: with the context of the same peer, the two loops return the same result and leave
  -- the handler and the streams in the same state.
  pub adapted_authorizer_serves_the_same :
      (p : PeerContext) (authorizer : Authorizer) (w : Manager Net H)
      → handle_authorized_with_context handler codec (from_peer_context p) (adapter authorizer) w
        ≡ handle_authorized handler codec p authorizer w
  unfolding handle_authorized handle_authorized_with_context adapter from_peer_context
  adapted_authorizer_serves_the_same p authorizer w =
      ap (λ q. serve_requests handler codec (authorizer.authorize q) p.name w)
        (to_peer_context-from_peer_context p)
