-- ===== src/Server/Handler/Authorized/Refusals.antt =====
-- The requests that server/handler.rs does not serve: those of a peer with no permission, those of an
-- unknown code, and those handed over to the caller.
use review_protocol.Prelude.{
  ℕ, ◌≡◌, refl, ◌∙◌, String, Result, ok, err, Option, none, some, ◌⊎◌, inl, inr,
}
use review_protocol.ProtocolError.{IoError}
use review_protocol.Wire.{Bytes}
use review_protocol.Codes.Server.{RequestCode, from_primitive}
use review_protocol.ServiceId.{ServiceId}
use review_protocol.ServiceId.ServerCodes.{from_server_request_code}
use review_protocol.ServiceId.ServerCodes.Laws.{from_server_request_code_inj}
use review_protocol.Auth.{AuthorizationError, Authorizer, PeerContext}
use review_protocol.Server.Handler.{Handler, ServerCodec, ServerReply, Manager, Answer}
use review_protocol.Server.Handler.Dispatch.{serve, refuse, unknown_code, dispatch_request}
use review_protocol.Server.Handler.Authorized.{
  Verdict, denied, check, serve_request, handle_authorized,
}
use review_protocol.Server.Handler.Authorized.Permits.{check-denied, only_permitted_requests_act}
use review_protocol.Prelude.{arith}

unknown-unnamed : none ≡ from_server_request_code RequestCode.unknown
unfolding from_server_request_code
unknown-unnamed = refl

module _ {Net H : Type 0} where
  serve-answers :
      {A T : Type 0} (r : Result A IoError) (method : A → H → Answer T × H)
      (reply : Answer T → ServerReply Net) (w : Manager Net H) (request : ℕ × Bytes)
      → (serve r method reply w).0 ≡ ok (some request)
      → ⊥
  unfolding serve
  serve-answers r method reply w request h = ground arith

  refuse-answers :
      (e : IoError) (reply : ServerReply Net) (w : Manager Net H) (request : ℕ × Bytes)
      → (refuse e reply w).0 ≡ ok (some request)
      → ⊥
  unfolding refuse
  refuse-answers e reply w request h = ground arith

module _ {Net Stats H : Type 0} (handler : Handler Net Stats H) (codec : ServerCodec Stats) where
  unknown-inert :
      (peer : String) (c : RequestCode) (code : ℕ) (body : Bytes) (v : Manager Net H)
      → c ≡ RequestCode.unknown
      → (dispatch_request handler codec peer c code body v).1.handler ≡ v.handler
  unfolding dispatch_request refuse
  unknown-inert peer c code body v h = rw h

  pub permitted-inert :
      (authorizer : Authorizer) (p : PeerContext) (o : Option ServiceId) (c : RequestCode)
      (code : ℕ) (body : Bytes) (v : Manager Net H)
      → from_server_request_code c ≡ o
      → ((id : ServiceId) → (e : AuthorizationError) × (authorizer.authorize p id ≡ err e))
      → check (authorizer.authorize p) c ≡ ok tt
      → (dispatch_request handler codec p.name c code body v).1.handler ≡ v.handler
  permitted-inert authorizer p none c code body v named deny permitted =
      unknown-inert p.name c code body v
        (from_server_request_code_inj c RequestCode.unknown (named ∙ unknown-unnamed))
  permitted-inert authorizer p (some id) c code body v named deny permitted =
      let (e, refused) = deny id in
      let denial = check-denied (authorizer.authorize p) c id e named refused in cc

  -- A peer that the authorizer permits nothing never reaches the handler: after any stream of
  -- requests the handler's state is what it was.
  pub peer_without_permission_is_inert :
      (authorizer : Authorizer) (p : PeerContext) (w : Manager Net H)
      → ((id : ServiceId) → (e : AuthorizationError) × (authorizer.authorize p id ≡ err e))
      → (handle_authorized handler codec p authorizer w).1.handler ≡ w.handler
  peer_without_permission_is_inert authorizer p w deny =
      only_permitted_requests_act handler codec authorizer p (λ h. h ≡ w.handler) w
        (λ code body v permitted same.
          permitted-inert authorizer p (from_server_request_code (from_primitive code))
            (from_primitive code) code body v refl deny permitted
          ∙ same)
        refl

  -- The codes that have an identifier and no method of the handler.
  abbrev pub HandedOver : RequestCode → Type 0
  HandedOver c =
      (c ≡ RequestCode.get_max_event_id_num)
      ⊎ (c ≡ RequestCode.remove_outliers)
      ⊎ (c ≡ RequestCode.get_data_source_list)

  dispatch_request-HandedOver :
      (peer : String) (c : RequestCode) (code : ℕ) (body : Bytes) (w : Manager Net H)
      (request : ℕ × Bytes)
      → (dispatch_request handler codec peer c code body w).0 ≡ ok (some request)
      → HandedOver c × (request ≡ (code, body))
  unfolding dispatch_request
  dispatch_request-HandedOver peer RequestCode.get_max_event_id_num code body w request h =
      (inl refl, ground arith)
  dispatch_request-HandedOver peer RequestCode.remove_outliers code body w request h =
      (inr (inl refl), ground arith)
  dispatch_request-HandedOver peer RequestCode.get_data_source_list code body w request h =
      (inr (inr refl), ground arith)
  dispatch_request-HandedOver peer RequestCode.unknown code body w request h =
      absurd
        (refuse-answers unknown_code (ServerReply.done (err "unknown request code")) w request h)
  dispatch_request-HandedOver peer _ code body w request h = absurd (grind (arith, serve-answers))

  serve_request-HandedOver :
      (authorize : ServiceId → Verdict) (peer : String) (v : Verdict) (c : RequestCode) (code : ℕ)
      (body : Bytes) (w : Manager Net H) (request : ℕ × Bytes)
      → (serve_request handler codec authorize peer v c code body w).0 ≡ ok (some request)
      → (v ≡ ok tt) × HandedOver c × (request ≡ (code, body))
  unfolding serve_request
  serve_request-HandedOver authorize peer (ok u) c code body w request h =
      let (code_of_three, same) = dispatch_request-HandedOver peer c code body w request h in
      (refl, code_of_three, same)
  serve_request-HandedOver authorize peer (err x) c code body w request h =
      absurd (refuse-answers (denied x) (ServerReply.done (err "authorization denied")) w request h)

  -- A request is handed over to the caller only if the authorizer permits its service, and only for
  -- the three codes without a method of the handler; it is handed over as it was received.
  pub hands_over_only_permitted :
      (authorize : ServiceId → Verdict) (peer : String) (c : RequestCode) (code : ℕ) (body : Bytes)
      (w : Manager Net H) (request : ℕ × Bytes)
      → (serve_request handler codec authorize peer (check authorize c) c code body w).0
        ≡ ok (some request)
      → (check authorize c ≡ ok tt) × HandedOver c × (request ≡ (code, body))
  hands_over_only_permitted authorize peer c code body w request h =
      serve_request-HandedOver authorize peer (check authorize c) c code body w request h
