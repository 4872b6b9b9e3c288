-- ===== src/Lib.antt =====
-- review-protocol: the protocol between a manager (REview) and its agents, over QUIC streams.
--
-- An agent connects, tells what it is, and is admitted or refused by the version of the protocol that
-- it speaks. Behind that, each side opens streams to the other: it sends a request as one frame, a
-- request code and its arguments, and reads the replies; the other side serves the requests of a
-- stream one after the other. An install of a package is the one exchange with more than a reply: the
-- agent answers a verdict, the manager sends the payload as frames of chunks, and the agent answers
-- the result. The same loop then reads the next request, so the two sides must agree where the payload
-- ends. Events go from an agent to the manager on streams of one direction.
--
-- The parts, and the files that model them, by the path of the code in the repository:
--   * src/protocol_error.rs, the error taxonomy: ProtocolError
--   * src/client.rs and src/server.rs, the request codes of the two sides: Codes.Client, Codes.Server
--   * src/types.rs, the messages of the node families, of the engines and of the agents' reports, and
--     what their outcomes tell: Types
--   * src/service_id.rs, the identifiers that policies name operations by: ServiceId
--   * src/auth.rs, peers and authorizers: Auth
--   * src/lib.rs, what an agent tells of itself at the handshake: AgentInfo; the handshake's errors:
--     Handshake; `unary_request`: Client.Api
--   * src/request.rs, the agent: Request.PackageReader is `PackageReader`, Request.Installer what a
--     handler may do with it, Request.NodeHandler the trait of the node families and the errors,
--     Request.Handler the trait of all requests, which is a NodeHandler as well, Request.Serve
--     `decode_args` and the replies, Request.Package `dispatch_node_package`, Request.ServeLoop the
--     loop that `handle_node` and `handle` share, Request.HandleNode the requests of `handle_node`,
--     Request.Handle those of `handle`
--   * src/client.rs, the agent's connection: Client.Builder is `ConnectionBuilder`, Client.Connect its
--     `connect`; src/client/api.rs, the agent's requests: Client.Api
--   * src/server.rs, the manager: Handshake.Manager is `handshake`, Server.Events the event streams,
--     with src/server/stream.rs, Server.Wrappers the deprecated functions
--   * src/server/handler.rs, the manager: Server.Handler is `Handler`, Server.Handler.Dispatch the match
--     on the request code, Server.Handler.Authorized `handle`, `handle_authorized` and
--     `handle_authorized_with_context`, which share the match and ask different authorizers
--   * src/server/api.rs, the manager's requests: Server.Api.SendPackage is
--     `send_package`, Server.Api.Install `install_exchange` and its callers, Server.Api.Requests the
--     exchanges of one request, Server.Api.Common the methods of the common families,
--     Server.Api.NodeFamilies those of the node families in their three forms
--   * src/server/node.rs, the node facade: Server.Node, where `package_request` is the method `package`
-- Wire holds the streams, Prelude the shared helpers, Examples concrete runs. Request.Handle.Service
-- describes the agent as a function from requests to replies, where the flat requests of host control
-- are served by the grouped methods, as the code does. Server.Api.Calls and Client.Api.Calls describe
-- the calls of the two sides, Request.ServeLoop.Runs and Server.Handler.Authorized.Runs the loops as
-- relations without fuel, and Handshake.Agreement puts the two ends of a handshake on one stream.
--
-- Correspondence. An `async fn` is a function from the state it may change to its result and the new
-- state; a `?` is the error case of a small state monad (Request.Serve). A QUIC stream is given
-- by what the calls on it return: a receive stream is the list of the outcomes of the receives to
-- come, a send stream the outcomes of the sends to come with the frames sent so far; a stream of the
-- manager or of an agent's request also has what its receives return. A handler is a record of
-- functions over a state of its own; its `node_package_install`, which borrows the reader, is a tree
-- of the reads that it makes (Request.Installer). A reply is a value of one type with a constructor
-- for each type of payload. A set of texts is a list. Integers are natural numbers: the code subtracts
-- only after a test that makes the difference non-negative, and its conversion of a length to `u64` is
-- written out.
--
-- Fuel. The loops of `drain`, `handle_node`, `handle`, the manager's handlers and `send_package` run on
-- fuel: one round more than the frames to come for all but the last, since a round that goes on has
-- received one, and one round for each byte to send for the last, since a round that goes on has
-- sent one.
--
-- Not modelled: quinn, oinq, bincode, rustls, semver and tokio, which are not in the repository and
-- are parameters (Wire, NodeCodec, AgentCodec, ServerCodec, InfoCoding, Encoder, AgentEncoder, Network,
-- Tls, Semver, AsyncRead), as are ipnet's networks and structured's statistics (`Net`, `Stats`); the
-- `Debug` redaction and the wire encoding of types; cancellation of a future between two awaits; the
-- accessors of the two connections, which call quinn alone; and the set-up of an endpoint, which calls
-- rustls and quinn.
pub mod Prelude
pub mod ProtocolError
pub mod Codes
pub mod Types
pub mod ServiceId
pub mod Auth
pub mod Wire
pub mod AgentInfo
pub mod Handshake
pub mod Client
pub mod Request
pub mod Server
pub mod Examples
