-- ===== src/Types/Node/Enroll/Laws.antt =====
-- types.rs, `node`: what a registrar failure tells its caller.
use review_protocol.Prelude.{◌≡◌, ◌↔◌, true, some, arith}
use review_protocol.Types.Shared.{Duration}
use review_protocol.Types.Node.Enroll.{
  NodeEnrollResponse, failed, registrar_unavailable, registrar_busy, post_mint_unrecordable,
  retry_after, leaves_teardown_owed,
}

-- A teardown is owed exactly after the failure to record a mint, and a retry is timed exactly by
-- a busy registrar, with the delay that the registrar gave.
pub enroll_failure_lem :
    (r : NodeEnrollResponse) (d : Duration)
    → ((leaves_teardown_owed r ≡ true)
        ↔ (r ≡ failed (registrar_unavailable post_mint_unrecordable)))
      × ((retry_after r ≡ some d) ↔ (r ≡ failed (registrar_busy d)))
unfolding leaves_teardown_owed retry_after
enroll_failure_lem r d = (ground arith, ground arith)
