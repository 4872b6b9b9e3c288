-- ===== src/Types/Node/Observation.antt =====
-- types.rs, `node`: power, observation and version.
use review_protocol.Prelude.{String, List}
use review_protocol.Types.Shared.{Duration, Process, ResourceUsage}

pub data NodePowerRequest : Type 0 where
  reboot shutdown graceful_reboot graceful_shutdown : NodePowerRequest

pub data NodePowerResponse : Type 0 where
  initiated : NodePowerResponse

pub data NodeObservationRequest : Type 0 where
  process_list resource_usage uptime : NodeObservationRequest

pub data NodeObservationResponse : Type 0 where
  process_list : List Process → NodeObservationResponse
  resource_usage : String → ResourceUsage → NodeObservationResponse
  uptime : Duration → NodeObservationResponse

pub data NodeVersionRequest : Type 0 where
  get : NodeVersionRequest
  set_os_version set_product_version : String → NodeVersionRequest

-- `get` carries `os_version` and `product_version`.
pub data NodeVersionResponse : Type 0 where
  get : String → String → NodeVersionResponse
  done : NodeVersionResponse
