-- ===== src/Server/Handler/Authorized/Runs.antt =====
-- The loops of server/handler.rs as a relation without fuel: a run is a finite sequence of rounds, by
-- what the receive, the authorizer and the `match` return.
use review_protocol.Prelude.{
  ℕ, zero, suc, ◌≤◌, ◌<◌, ◌≡◌, ◌≢◌, refl, ap, String, Result, ok, err, none, some, length, arith,
  Bool-cases, inl, inr, Option,
}
use review_protocol.ProtocolError.{IoError, error_kind, unexpected_eof}
use review_protocol.Wire.{Bytes, recv_raw}
use review_protocol.Codes.Server.{RequestCode, from_primitive}
use review_protocol.ServiceId.{ServiceId}
use review_protocol.ServiceId.ServerCodes.{from_server_request_code}
use review_protocol.Auth.{AuthorizationError}
use review_protocol.Request.PackageReader.{is_eof}
use review_protocol.Request.ServeLoop.Runs.{is_eof_iff}
use review_protocol.Server.Handler.{Handler, ServerCodec, ServerReply, Manager}
use review_protocol.Server.Handler.Dispatch.{Outcome, refuse, dispatch_request}
use review_protocol.Server.Handler.Authorized.{
  Verdict, denied, check, serve_request, after_serve, serve_round, receive_request, serve_loop,
  serve_requests,
}
use review_protocol.Server.Handler.Authorized.Loop.{serve_request-recv, receive_request-shortens}

-- The authorizer permits a code: it has no identifier, or the authorizer permits the identifier.
pub data Permits (authorize : ServiceId → Verdict) (c : RequestCode) : Type 0 where
  unnamed : from_server_request_code c ≡ none → Permits authorize c
  permitted :
      (id : ServiceId)
      → from_server_request_code c ≡ some id
      → authorize id ≡ ok tt
      → Permits authorize c

module _ {Net Stats H : Type 0} (handler : Handler Net Stats H) (codec : ServerCodec Stats)
    (authorize : ServiceId → Verdict) (peer_name : String) where
  abbrev rest_of : Manager Net H → Manager Net H
  rest_of w = record w { recv = (recv_raw w.recv).1 }

  abbrev received : Manager Net H → Result (ℕ × Bytes) IoError
  received w = receive_request handler codec authorize peer_name w.recv

  pub data Runs : Manager Net H → Outcome Net H → Type 0 where
    ends :
        (w : Manager Net H) (e : IoError)
        → received w ≡ err e
        → error_kind e ≡ unexpected_eof
        → Runs w (ok none, rest_of w)
    receive_fails :
        (w : Manager Net H) (e : IoError)
        → received w ≡ err e
        → error_kind e ≢ unexpected_eof
        → Runs w (err e, rest_of w)
    denies :
        (w : Manager Net H) (code : ℕ) (body : Bytes) (id : ServiceId) (e : AuthorizationError)
        → received w ≡ ok (code, body)
        → from_server_request_code (from_primitive code) ≡ some id
        → authorize id ≡ err e
        → Runs w (refuse (denied e) (ServerReply.done (err "authorization denied")) (rest_of w))
    request_fails :
        (w v : Manager Net H) (code : ℕ) (body : Bytes) (e : IoError)
        → received w ≡ ok (code, body)
        → Permits authorize (from_primitive code)
        → dispatch_request handler codec peer_name (from_primitive code) code body (rest_of w)
          ≡ (err e, v)
        → Runs w (err e, v)
    hands_over :
        (w v : Manager Net H) (code : ℕ) (body : Bytes) (request : ℕ × Bytes)
        → received w ≡ ok (code, body)
        → Permits authorize (from_primitive code)
        → dispatch_request handler codec peer_name (from_primitive code) code body (rest_of w)
          ≡ (ok (some request), v)
        → Runs w (ok (some request), v)
    serves :
        (w v : Manager Net H) (code : ℕ) (body : Bytes) (x : Outcome Net H)
        → received w ≡ ok (code, body)
        → Permits authorize (from_primitive code)
        → dispatch_request handler codec peer_name (from_primitive code) code body (rest_of w)
          ≡ (ok none, v)
        → Runs v x
        → Runs w x

  after_serve-Runs :
      (more : Manager Net H → Outcome Net H) (w : Manager Net H) (code : ℕ) (body : Bytes)
      (x : Outcome Net H)
      → received w ≡ ok (code, body)
      → Permits authorize (from_primitive code)
      → dispatch_request handler codec peer_name (from_primitive code) code body (rest_of w) ≡ x
      → ((v : Manager Net H) → length v.recv ≤ length x.1.recv → Runs v (more v))
      → Runs w (after_serve handler codec authorize peer_name more x)
  unfolding after_serve
  after_serve-Runs more w code body (ok none, v) came permit served h =
      serves w v code body (more v) came permit served (h v (omega arith))
  after_serve-Runs more w code body (ok (some request), v) came permit served h =
      hands_over w v code body request came permit served
  after_serve-Runs more w code body (err e, v) came permit served h =
      request_fails w v code body e came permit served

  check-Permits :
      (c : RequestCode) (id : Option ServiceId)
      → from_server_request_code c ≡ id
      → check authorize c ≡ ok tt
      → Permits authorize c
  unfolding check
  check-Permits c none named h = unnamed named
  check-Permits c (some id) named h = permitted id named (ground arith)

  check-denies :
      (c : RequestCode) (e : AuthorizationError) (id : Option ServiceId)
      → from_server_request_code c ≡ id
      → check authorize c ≡ err e
      → (id : ServiceId) × (from_server_request_code c ≡ some id) × (authorize id ≡ err e)
  unfolding check
  check-denies c e none named h = absurd (ground arith)
  check-denies c e (some id) named h = (id, named, ground arith)

  -- A refusal ends the loop.
  after_serve-refuse :
      (more : Manager Net H → Outcome Net H) (e : IoError) (reply : ServerReply Net)
      (w : Manager Net H)
      → after_serve handler codec authorize peer_name more (refuse e reply w) ≡ refuse e reply w
  unfolding after_serve refuse
  after_serve-refuse more e reply w = ground arith

  request-Runs :
      (more : Manager Net H → Outcome Net H) (w : Manager Net H) (code : ℕ) (body : Bytes)
      (v : Verdict)
      → received w ≡ ok (code, body)
      → check authorize (from_primitive code) ≡ v
      → ((u : Manager Net H) → length u.recv < length w.recv → Runs u (more u))
      → Runs w (
          after_serve handler codec authorize peer_name more (
            serve_request handler codec authorize peer_name v
              (from_primitive code)
              code
              body
              (rest_of w)))
  unfolding serve_request
  request-Runs more w code body (ok u) came asked h =
      let c = from_primitive code in
      after_serve-Runs more w code body
        (dispatch_request handler codec peer_name c code body (rest_of w)) came
        (check-Permits c (from_server_request_code c) refl asked) refl
        (λ v le. h v (
          omega (
            arith,
            le,
            ap length (
                serve_request-recv handler codec authorize peer_name (ok u) c code body
                  (rest_of w)),
            receive_request-shortens handler codec authorize peer_name w.recv (code, body) came,
          )))
  request-Runs more w code body (err e) came asked h =
      let c = from_primitive code in
      let (id, named, refused) = check-denies c e (from_server_request_code c) refl asked in
      rw
        (after_serve-refuse more (denied e) (ServerReply.done (err "authorization denied"))
          (rest_of w))
        (denies w code body id e came named refused)

  serve_round-Runs :
      (more : Manager Net H → Outcome Net H) (w : Manager Net H) (x : Result (ℕ × Bytes) IoError)
      → received w ≡ x
      → ((v : Manager Net H) → length v.recv < length w.recv → Runs v (more v))
      → Runs w (serve_round handler codec authorize peer_name more x (rest_of w))
  unfolding serve_round
  serve_round-Runs more w (ok (code, body)) came h =
      request-Runs more w code body (check authorize (from_primitive code)) came refl h
  serve_round-Runs more w (err e) came h = elim (Bool-cases (is_eof (error_kind e))) [
    | inl eof ↦ rw eof (ends w e came (is_eof_iff (error_kind e) eof))
    | inr other ↦ rw other (receive_fails w e came (λ eof. let same = ap is_eof eof in cc))
  ]

  serve_loop-Runs :
      (fuel : ℕ) (w : Manager Net H)
      → length w.recv < fuel
      → Runs w (serve_loop handler codec authorize peer_name fuel w)
  unfolding serve_loop
  serve_loop-Runs zero w lt = absurd (omega arith)
  serve_loop-Runs (suc fuel) w lt =
      serve_round-Runs (serve_loop handler codec authorize peer_name fuel) w (received w) refl
        (λ v shorter. serve_loop-Runs fuel v (omega arith))

  -- Every call of the manager's loop is a finite run of the source's loop, from any state: it receives
  -- requests; a request whose identifier the authorizer denies is answered with the denial and
  -- ends the run; one that it permits, or that has no identifier, is served by the `match` on its
  -- code, and the loop goes on behind it. A run ends without an error by a receive that reports the
  -- end of the stream or by a request that is handed over, and else with the error of a receive or a
  -- request. Nothing is received behind that.
  pub serve_requests-Runs :
      (w : Manager Net H) → Runs w (serve_requests handler codec authorize peer_name w)
  unfolding serve_requests
  serve_requests-Runs w = serve_loop-Runs (suc (length w.recv)) w (omega arith)
