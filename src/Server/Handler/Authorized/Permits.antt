-- ===== src/Server/Handler/Authorized/Permits.antt =====
-- The authorizer and the handler in server/handler.rs: nothing is done that was not permitted.
use review_protocol.Prelude.{
  ℕ, zero, suc, ◌≡◌, refl, ap, ◌∙◌, String, Result, ok, err, Option, none, some, ◌++◌, [], ◌∷◌,
  Bool-cases, inl, inr, length,
}
use review_protocol.Request.PackageReader.{is_eof}
use review_protocol.ProtocolError.{
  IoError, error_kind, permission_denied, forbidden, of_io_error, display,
}
use review_protocol.Wire.{Bytes, recv_raw}
use review_protocol.Wire.Laws.{Reliable, send_frame-Reliable}
use review_protocol.Codes.Server.{RequestCode, from_primitive}
use review_protocol.ServiceId.{ServiceId}
use review_protocol.ServiceId.ServerCodes.{from_server_request_code}
use review_protocol.Auth.{AuthorizationError, Authorizer, PeerContext, denial_to_string}
use review_protocol.Server.Handler.{Handler, ServerCodec, ServerReply, Manager}
use review_protocol.Server.Handler.Dispatch.{Outcome, refuse, dispatch_request}
use review_protocol.Server.Handler.Authorized.{
  Verdict, denied, check, serve_request, after_serve, serve_round, receive_request, serve_loop,
  handle_authorized,
}
use review_protocol.Prelude.{length}

pub check-denied :
    (authorize : ServiceId → Verdict) (c : RequestCode) (id : ServiceId) (e : AuthorizationError)
    → from_server_request_code c ≡ some id
    → authorize id ≡ err e
    → check authorize c ≡ err e
unfolding check
check-denied authorize c id e named refused =
    ap
      (λ (o : Option ServiceId). elim o as (λ x. Verdict) [
        | some service_id ↦ authorize service_id
        | none ↦ ok tt
      ])
      named
    ∙ refused

module _ {Net Stats H : Type 0} (handler : Handler Net Stats H) (codec : ServerCodec Stats) where
  module _ (authorize : ServiceId → Verdict) (peer : String) (P : H → Type 0) where
    -- A property of the handler's state that every permitted request keeps.
    abbrev pub Kept : Type 0
    Kept =
        (code : ℕ) (body : Bytes) (v : Manager Net H)
        → check authorize (from_primitive code) ≡ ok tt
        → P v.handler
        → P (dispatch_request handler codec peer (from_primitive code) code body v).1.handler

    after_serve-keeps :
        (more : Manager Net H → Outcome Net H) (x : Outcome Net H)
        → P x.1.handler
        → ((v : Manager Net H) → P v.handler → P (more v).1.handler)
        → P (after_serve handler codec authorize peer more x).1.handler
    unfolding after_serve
    after_serve-keeps more (ok none, w) p h = h w p
    after_serve-keeps more (ok (some request), w) p h = p
    after_serve-keeps more (err e, w) p h = p

    serve_request-keeps :
        (verdict : Verdict) (code : ℕ) (body : Bytes) (w : Manager Net H)
        → check authorize (from_primitive code) ≡ verdict
        → Kept
        → P w.handler
        → P
            (serve_request handler codec authorize peer verdict
              (from_primitive code)
              code
              body
              w).1.handler
    unfolding serve_request refuse
    serve_request-keeps (ok u) code body w e kept p = kept code body w e p
    serve_request-keeps (err x) code body w e kept p = p

    serve_round-keeps :
        (more : Manager Net H → Outcome Net H) (x : Result (ℕ × Bytes) IoError) (w : Manager Net H)
        → Kept
        → P w.handler
        → ((v : Manager Net H) → P v.handler → P (more v).1.handler)
        → P (serve_round handler codec authorize peer more x w).1.handler
    unfolding serve_round
    serve_round-keeps more (ok (code, body)) w kept p h =
        after_serve-keeps more
          (serve_request handler codec authorize peer (check authorize (from_primitive code))
            (from_primitive code) code body w)
          (serve_request-keeps (check authorize (from_primitive code)) code body w refl kept p) h
    serve_round-keeps more (err e) w kept p h = elim (Bool-cases (is_eof (error_kind e))) [
      | inl ended ↦ rw ended p
      | inr failed ↦ rw failed p
    ]

    serve_loop-keeps :
        (fuel : ℕ) (w : Manager Net H)
        → Kept
        → P w.handler
        → P (serve_loop handler codec authorize peer fuel w).1.handler
    unfolding serve_loop
    serve_loop-keeps zero w kept p = p
    serve_loop-keeps (suc fuel) w kept p =
        serve_round-keeps (serve_loop handler codec authorize peer fuel)
          (receive_request handler codec authorize peer w.recv)
          (record w { recv = (recv_raw w.recv).1 }) kept p (λ v q. serve_loop-keeps fuel v kept q)

  -- Only permitted requests act on the handler: a property of its state that every request keeps
  -- whose service the authorizer permits to this peer holds after any stream of requests, whatever
  -- else they ask for and however the stream ends.
  pub only_permitted_requests_act :
      (authorizer : Authorizer) (p : PeerContext) (P : H → Type 0) (w : Manager Net H)
      → Kept (authorizer.authorize p) p.name P
      → P w.handler
      → P (handle_authorized handler codec p authorizer w).1.handler
  unfolding handle_authorized
  only_permitted_requests_act authorizer p P w kept q =
      serve_loop-keeps (authorizer.authorize p) p.name P (suc (length w.recv)) w kept q

  -- A request whose service is denied, on a stream whose sends do not fail: the handler is not
  -- called, the refusal is the only answer, and the loop ends with the error of kind
  -- `PermissionDenied` that is classified as forbidden and displays the denial.
  pub denied_request_is_refused :
      (authorize : ServiceId → Verdict) (peer : String) (c : RequestCode) (code : ℕ) (body : Bytes)
      (w : Manager Net H) (id : ServiceId) (e : AuthorizationError)
      → Reliable w.send
      → from_server_request_code c ≡ some id
      → authorize id ≡ err e
      → (serve_request handler codec authorize peer (check authorize c) c code body w ≡ (
        err (denied e),
        record w {
          send = record {
            outcomes = [];
            sent = w.send.sent ++ ServerReply.done (err "authorization denied") ∷ [];
          };
        },
      ))
        × (error_kind (denied e) ≡ permission_denied)
        × (of_io_error (denied e) ≡ forbidden)
        × (display (denied e) ≡ denial_to_string e)
  unfolding serve_request refuse denied of_io_error display
  denied_request_is_refused authorize peer c code body w id e reliable named refused = (
    rw (
      check-denied authorize c id e named refused,
      send_frame-Reliable (ServerReply.done (err "authorization denied")) w.send reliable,
    ),
    refl,
    refl,
    refl,
  )
