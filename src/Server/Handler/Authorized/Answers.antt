-- ===== src/Server/Handler/Authorized/Answers.antt =====
-- server/handler.rs: what becomes of a request that the authorizer permits.
use review_protocol.Prelude.{ℕ, ◌≡◌, refl, String, Result, ok, err, none, some, inl, inr}
use review_protocol.ProtocolError.{IoError}
use review_protocol.Wire.{Bytes}
use review_protocol.Wire.Laws.{Reliable, send_frame-Reliable, Grew, Grew-one}
use review_protocol.Codes.Server.{RequestCode}
use review_protocol.Server.Handler.{Handler, ServerCodec, ServerReply, Manager, Answer}
use review_protocol.Server.Handler.Dispatch.{Outcome, serve, refuse, unknown_code, dispatch_request}
use review_protocol.Server.Handler.Authorized.Refusals.{HandedOver}

module _ {Net H : Type 0} where
  -- A step that ran the handler and sent one answer, or that failed on the arguments and did
  -- neither.
  pub data Ran (w : Manager Net H) (x : Outcome Net H) : Type 0 where
    answered : x.0 ≡ ok none → Grew w.send 1 x.1.send → Ran w x
    undecodable : (e : IoError) → x ≡ (err e, w) → Ran w x

  serve-Ran :
      {A T : Type 0} (r : Result A IoError) (method : A → H → Answer T × H)
      (reply : Answer T → ServerReply Net) (w : Manager Net H)
      → Reliable w.send
      → Ran w (serve r method reply w)
  unfolding serve
  serve-Ran (ok args) method reply w h =
      let result = (method args w.handler).0 in
      rw (send_frame-Reliable (reply result) w.send h)
        (answered refl (Grew-one (reply result) w.send))
  serve-Ran (err e) method reply w h = undecodable e refl

module _ {Net Stats H : Type 0} (handler : Handler Net Stats H) (codec : ServerCodec Stats) where
  -- The fate of a request: it is served, handed over to the caller with nothing changed, or refused
  -- with one answer since its code is unknown.
  pub data Fate (c : RequestCode) (code : ℕ) (body : Bytes) (w : Manager Net H) (x : Outcome Net H)
      : Type 0 where
    served : Ran w x → Fate c code body w x
    handed_over :
        HandedOver handler codec c → x ≡ (ok (some (code, body)), w) → Fate c code body w x
    refused :
        c ≡ RequestCode.unknown
        → x.0 ≡ err unknown_code
        → x.1.handler ≡ w.handler
        → Grew w.send 1 x.1.send
        → Fate c code body w x

  unknown-Fate :
      (code : ℕ) (body : Bytes) (reply : ServerReply Net) (w : Manager Net H)
      → Reliable w.send
      → Fate RequestCode.unknown code body w (refuse unknown_code reply w)
  unfolding refuse
  unknown-Fate code body reply w h =
      rw (send_frame-Reliable reply w.send h) (refused refl refl refl (Grew-one reply w.send))

  -- On a stream whose sends do not fail, a permitted request is answered by exactly one frame, or
  -- its arguments do not decode, which ends the loop with the handler and the streams as they were,
  -- or it is handed over to the caller, again with nothing changed. The answer to an unknown
  -- code does not reach the handler, and ends the loop.
  pub request_answered_once :
      (peer : String) (c : RequestCode) (code : ℕ) (body : Bytes) (w : Manager Net H)
      → Reliable w.send
      → Fate c code body w (dispatch_request handler codec peer c code body w)
  unfolding dispatch_request
  request_answered_once peer RequestCode.get_max_event_id_num code body w h =
      handed_over (inl refl) refl
  request_answered_once peer RequestCode.remove_outliers code body w h =
      handed_over (inr (inl refl)) refl
  request_answered_once peer RequestCode.get_data_source_list code body w h =
      handed_over (inr (inr refl)) refl
  request_answered_once peer RequestCode.unknown code body w h =
      unknown-Fate code body (ServerReply.done (err "unknown request code")) w h
  request_answered_once peer RequestCode.renew_certificate code body w h =
      served (serve-Ran (ok tt) (λ u. handler.renew_certificate peer) ServerReply.certificate w h)
  request_answered_once peer _ code body w h = served (serve-Ran _ _ _ w h)
