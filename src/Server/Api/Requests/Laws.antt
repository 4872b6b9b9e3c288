-- ===== src/Server/Api/Requests/Laws.antt =====
-- server/api.rs: when a request waits for a response.
use review_protocol.Prelude.{
  ◌≡◌, refl, ◌++◌, [], ◌∷◌, true, Result, ok, err, Option, some, map_ok, if◌then◌else◌,
}
use review_protocol.Wire.{Bytes, SendStream}
use review_protocol.Wire.Laws.{Reliable, send_frame-Reliable}
use review_protocol.Types.Node.Observation.{
  NodePowerRequest, NodePowerResponse, reboot, shutdown, graceful_reboot, graceful_shutdown,
}
use review_protocol.Request.NodeHandler.{node_power_expects_response}
use review_protocol.Server.Api.Errors.{ApiError}
use review_protocol.Server.Api.Requests.{
  Stream, send_request, node_power, outcome, receive, send_request_no_response, sent, response,
}

module _ {T : Type 0} (buf : Bytes) (bi : Stream T) where
  -- The stream after the request frame.
  abbrev pub after_frame : SendStream Bytes
  after_frame = record { outcomes = []; sent = bi.send.sent ++ buf ∷ [] }

  pub send_request-Reliable :
      Reliable bi.send
      → send_request (ok buf) (ok bi)
        ≡ (receive bi.response, some (record bi { send = after_frame }))
  unfolding send_request
  send_request-Reliable r = rw (send_frame-Reliable buf bi.send r)

  send_request_no_response-Reliable :
      Reliable bi.send
      → send_request_no_response (ok buf) (ok bi)
        ≡ (ok tt, some (record bi { send = after_frame; finished = true }))
  unfolding send_request_no_response
  send_request_no_response-Reliable r = rw (send_frame-Reliable buf bi.send r)

outcome-receive :
    (x : Result NodePowerResponse ApiError) (stream : Option (Stream NodePowerResponse))
    → ((outcome response (x, stream)).0 ≡ map_ok response x)
      × ((outcome response (x, stream)).1 ≡ stream)
unfolding outcome
outcome-receive (ok a) stream = (refl, refl)
outcome-receive (err e) stream = (refl, refl)

-- The manager waits for a response to a power request exactly when the agent sends one. With a
-- stream whose sends do not fail: if the agent answers the operation, the outcome is the response
-- that arrives; if it does not, the request is reported as sent and the send half is finished,
-- whatever would arrive.
pub power_waits_for_what_is_answered :
    (encode : NodePowerRequest → Result Bytes ApiError) (req : NodePowerRequest) (buf : Bytes)
    (bi : Stream NodePowerResponse)
    → encode req ≡ ok buf
    → Reliable bi.send
    → let answered = node_power_expects_response req in
      let x = node_power encode req (ok bi) in
      (x.0 ≡ (if answered then map_ok response (receive bi.response) else ok sent))
      × (x.1
          ≡ some (record bi {
            send = after_frame buf bi;
            finished = if answered then bi.finished else true;
          }))
unfolding node_power node_power_expects_response
power_waits_for_what_is_answered encode reboot buf bi e r =
    rw (e, send_request_no_response-Reliable buf bi r, outcome) (refl, refl)
power_waits_for_what_is_answered encode shutdown buf bi e r =
    rw (e, send_request_no_response-Reliable buf bi r, outcome) (refl, refl)
power_waits_for_what_is_answered encode graceful_reboot buf bi e r =
    rw (e, send_request-Reliable buf bi r) (outcome-receive (receive bi.response) _)
power_waits_for_what_is_answered encode graceful_shutdown buf bi e r =
    rw (e, send_request-Reliable buf bi r) (outcome-receive (receive bi.response) _)
