-- ===== src/Client/Api/Calls/Local.antt =====
-- A call of a method of client/api.rs against a manager that runs `handle` of server/handler.rs: what
-- the two sides do together is what a call of the manager's own method does.
use review_protocol.Prelude.{String, ◌≡◌, refl, ok, none, some, [], ◌∷◌}
use review_protocol.Wire.{Bytes}
use review_protocol.Server.Handler.{Handler, ServerCodec}
use review_protocol.Server.Handler.Authorized.{handle}
use review_protocol.Client.Api.{AgentEncoder, AgentStream}
use review_protocol.Client.Api.Calls.{AgentCall, frame_of, Reply, value_of}
use review_protocol.Client.Api.Calls.Sides.{reply_of, received_of, ask_of, served_by}
use review_protocol.Client.Api.Calls.Served.{manager_on, manager-serves}
use review_protocol.Client.Api.Calls.Answered.{Hears}
use review_protocol.Client.Api.Calls.Received.{received_of-reply_of, agent-receives}

module _ {Net Stats H : Type 0} (encoder : AgentEncoder Stats) (handler : Handler Net Stats H)
    (codec : ServerCodec Stats) (peer_name : String) where
  -- An agent's remote call is a local call on the manager. For each method of the agent's connection,
  -- and a manager on the same stream that runs `handle`: the agent sends one frame; the manager
  -- serves it and ends without an error, with the state that its method leaves; and the agent's
  -- method returns what the manager's method answers, where an error text is an I/O error and a
  -- data source that the manager lacks is one, too. The frame is encoded, each side understands the
  -- other, and the sends do not fail.
  pub agents_call_is_served :
      (c : AgentCall Stats) (frame : Bytes) (h : H)
      → Hears encoder codec
      → frame_of encoder c ≡ ok frame
      → let (outcome, served) =
          handle handler codec peer_name (manager_on encoder handler codec peer_name frame h) in
        let opened : AgentStream (Reply Net c) = record {
          send = record { outcomes = []; sent = [] };
          response = received_of Net c served.send.sent;
        } in
        let (x, h') = served_by Net handler peer_name c h in
        (outcome ≡ ok none)
        × (served.handler ≡ h')
        × ((ask_of Net encoder c (ok opened)).0 ≡ value_of Net c x)
        × ((ask_of Net encoder c (ok opened)).1
            ≡ some (record opened { send = record { outcomes = []; sent = frame ∷ [] } }))
  agents_call_is_served c frame h hears e =
      let x = (served_by Net handler peer_name c h).0 in
      let opened : AgentStream (Reply Net c) = record {
        send = record { outcomes = []; sent = [] };
        response = received_of Net c (reply_of Net c x ∷ []);
      } in
      let (result, stream) =
        agent-receives encoder handler codec peer_name c frame x opened e refl
          (received_of-reply_of encoder handler codec peer_name c x) in
      rw (manager-serves encoder handler codec peer_name c frame h hears e)
        (refl, refl, result, stream)
