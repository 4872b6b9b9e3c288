-- ===== src/Types/Node/Enroll.antt =====
-- types.rs, `node`: enrollment requests, responses and registrar errors, and what a caller reads
-- off a failure: when to retry, and whether a teardown is owed.
pub mod Laws
use review_protocol.Prelude.{ℕ, String, Bool, true, false, Option, none, some}
use review_protocol.Types.Shared.{Duration}
use review_protocol.Types.Node.Package.{BootstrapMaterial}

pub record ReloadHook : Type 0 where
  pub hook : String

pub record CertGroup : Type 0 where
  pub group : String

pub data DeliveryMode : Type 0 where
  local_file remote_bootstrap : DeliveryMode

pub record ServiceSpec : Type 0 where
  pub component : String
  pub service_name : String
  pub reload : ReloadHook
  pub cert_group : Option CertGroup

-- `register` carries `service_name`, `delivery_mode`, `host`, `instance`, `spec`, `wrap_ttl` and
-- `idempotency_key`, `deregister` the name, the host, the instance and the key.
pub data NodeEnrollRequest : Type 0 where
  register :
      String
      → DeliveryMode
      → String
      → Option ℕ
      → ServiceSpec
      → Duration
      → String
      → NodeEnrollRequest
  deregister : String → String → Option ℕ → String → NodeEnrollRequest

pub data RegistrarUnavailableReason : Type 0 where
  credential_invalid not_provisioned audit_unwritable : RegistrarUnavailableReason
  endpoint_unreachable post_mint_unrecordable : RegistrarUnavailableReason
  registrar_unreachable : RegistrarUnavailableReason

pub data NodeEnrollError : Type 0 where
  service_spec_conflict service_name_collision service_instance_mismatch : NodeEnrollError
  service_host_mismatch : NodeEnrollError
  registrar_unavailable : RegistrarUnavailableReason → NodeEnrollError
  registrar_busy : Duration → NodeEnrollError
  service_label_invalid : NodeEnrollError

pub data NodeEnrollResponse : Type 0 where
  material : BootstrapMaterial → NodeEnrollResponse
  done : NodeEnrollResponse
  failed : NodeEnrollError → NodeEnrollResponse

-- `NodeEnrollError::retry_after`
unfoldable pub error_retry_after : NodeEnrollError → Option Duration
error_retry_after (registrar_busy retry_after) = some retry_after
error_retry_after _ = none

-- The inner match of `NodeEnrollError::leaves_teardown_owed`.
reason_leaves_teardown_owed : RegistrarUnavailableReason → Bool
reason_leaves_teardown_owed post_mint_unrecordable = true
reason_leaves_teardown_owed _ = false

-- `NodeEnrollError::leaves_teardown_owed`
unfoldable pub error_leaves_teardown_owed : NodeEnrollError → Bool
unfolding reason_leaves_teardown_owed
error_leaves_teardown_owed (registrar_unavailable reason) = reason_leaves_teardown_owed reason
error_leaves_teardown_owed _ = false

-- `NodeEnrollResponse::retry_after`
unfoldable pub retry_after : NodeEnrollResponse → Option Duration
unfolding error_retry_after
retry_after (failed e) = error_retry_after e
retry_after _ = none

-- `NodeEnrollResponse::leaves_teardown_owed`
unfoldable pub leaves_teardown_owed : NodeEnrollResponse → Bool
unfolding error_leaves_teardown_owed
leaves_teardown_owed (failed e) = error_leaves_teardown_owed e
leaves_teardown_owed _ = false
