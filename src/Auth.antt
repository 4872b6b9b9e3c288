-- ===== src/Auth.antt =====
-- auth.rs: the identity of a peer, the context of an authorization, and the two interfaces by
-- which an application decides, with the adapter from the first to the second.
pub mod Laws
use review_protocol.Prelude.{String, Option, none, some, List, Result, ok, err, ◌<>◌}
use review_protocol.ProtocolError.{ProtocolErrorKind, forbidden}
use review_protocol.ServiceId.{ServiceId}

pub record PeerContext : Type 0 where
  pub name : String
  pub subject : Option String
  pub fingerprint : Option String

-- `PeerContext::new`
unfoldable pub peer : String → PeerContext
peer name = record { name = name; subject = none; fingerprint = none }

unfoldable pub with_subject : PeerContext → String → PeerContext
with_subject p subject = record p { subject = some subject }

unfoldable pub with_fingerprint : PeerContext → String → PeerContext
with_fingerprint p fingerprint = record p { fingerprint = some fingerprint }

pub record PeerIdentity : Type 0 where
  pub name : String
  pub subject : Option String
  pub fingerprint : Option String

-- `impl From<&PeerContext> for PeerIdentity`
unfoldable pub identity_of : PeerContext → PeerIdentity
identity_of p = record { name = p.name; subject = p.subject; fingerprint = p.fingerprint }

pub data AgentKind : Type 0 where
  agent proxy : AgentKind
  other : String → AgentKind

-- `impl fmt::Display for AgentKind`
unfoldable pub agent_kind_to_string : AgentKind → String
agent_kind_to_string agent = "agent"
agent_kind_to_string proxy = "proxy"
agent_kind_to_string (other s) = s

pub record ProtocolMetadata : Type 0 where
  pub version : Option String
  pub capabilities : List String

-- `attributes` is a `HashMap`, which the crate only carries.
pub record AuthorizationContext : Type 0 where
  pub peer_identity : PeerIdentity
  pub agent_kind : Option AgentKind
  pub roles : Option (List String)
  pub protocol_metadata : Option ProtocolMetadata
  pub attributes : Option (List (String × String))

unfoldable pub from_peer_context : PeerContext → AuthorizationContext
unfolding identity_of
from_peer_context p = record {
  peer_identity = identity_of p;
  agent_kind = none;
  roles = none;
  protocol_metadata = none;
  attributes = none;
}

unfoldable pub from_authenticated_inputs :
    PeerContext
    → Option AgentKind
    → Option (List String)
    → Option ProtocolMetadata
    → Option (List (String × String))
    → AuthorizationContext
unfolding identity_of
from_authenticated_inputs p agent_kind roles protocol_metadata attributes = record {
  peer_identity = identity_of p;
  agent_kind = agent_kind;
  roles = roles;
  protocol_metadata = protocol_metadata;
  attributes = attributes;
}

-- `if let Some(x) = o { ctx = f(ctx, x) }`
abbrev pub apply_some :
    Option String → (PeerContext → String → PeerContext) → PeerContext → PeerContext
apply_some none f p = p
apply_some (some x) f p = f p x

unfoldable pub to_peer_context : AuthorizationContext → PeerContext
unfolding peer with_subject with_fingerprint
to_peer_context ctx =
    let id = ctx.peer_identity in
    apply_some id.fingerprint with_fingerprint (apply_some id.subject with_subject (peer id.name))

pub record AuthorizationError : Type 0 where
  pub reason : String

-- `impl fmt::Display for AuthorizationError`
unfoldable pub denial_to_string : AuthorizationError → String
denial_to_string e = "authorization denied: " <> e.reason

-- `AuthorizationError::kind`, by `impl From<&AuthorizationError> for ProtocolErrorKind`
unfoldable pub denial_kind : AuthorizationError → ProtocolErrorKind
denial_kind e = forbidden

-- What an application implements.
pub record Authorizer : Type 0 where
  pub authorize : PeerContext → ServiceId → Result (Unit {0}) AuthorizationError

unfoldable pub noop_authorizer : Authorizer
noop_authorizer = record { authorize = λ p service. ok tt }

pub record AuthorizerV2 : Type 0 where
  pub authorize_with_context :
      AuthorizationContext → ServiceId → Result (Unit {0}) AuthorizationError

-- `impl<T: Authorizer> AuthorizerV2 for AuthorizerV2Adapter<T>`
unfoldable pub adapter : Authorizer → AuthorizerV2
unfolding to_peer_context
adapter inner = record {
  authorize_with_context = λ ctx service. inner.authorize (to_peer_context ctx) service;
}
