-- ===== src/Types/Node/Config.antt =====
-- types.rs, `node`: the families that configure a node.
use review_protocol.Prelude.{ℕ, String, Bool, List, Option}
use review_protocol.Types.Shared.{ℤ}

pub data NodeServiceRequest : Type 0 where
  start stop status restart : String → NodeServiceRequest

pub data NodeServiceResponse : Type 0 where
  status : Bool → NodeServiceResponse
  done : NodeServiceResponse

pub record NodeNetworkInterfaceConfig : Type 0 where
  pub addresses : Option (List String)
  pub dhcp4 : Option Bool
  pub gateway4 : Option String
  pub nameservers : Option (List String)

pub record NodeNetworkInterface : Type 0 where
  pub device : String
  pub config : NodeNetworkInterfaceConfig

pub data NodeNetworkInterfaceRequest : Type 0 where
  list : Option String → NodeNetworkInterfaceRequest
  get reset_config : String → NodeNetworkInterfaceRequest
  set remove : String → NodeNetworkInterfaceConfig → NodeNetworkInterfaceRequest

pub data NodeNetworkInterfaceResponse : Type 0 where
  list : List String → NodeNetworkInterfaceResponse
  get : Option NodeNetworkInterface → NodeNetworkInterfaceResponse
  done : NodeNetworkInterfaceResponse

pub data NodeHostnameRequest : Type 0 where
  get : NodeHostnameRequest
  set : String → NodeHostnameRequest

pub data NodeHostnameResponse : Type 0 where
  get : String → NodeHostnameResponse
  done : NodeHostnameResponse

pub data NodeTimeSyncRequest : Type 0 where
  get : NodeTimeSyncRequest
  set : List String → NodeTimeSyncRequest
  enable disable status : NodeTimeSyncRequest

-- `status` carries `enabled`, `synchronized`, `server` and `offset_micros`.
pub data NodeTimeSyncResponse : Type 0 where
  get : Option (List String) → NodeTimeSyncResponse
  status : Bool → Bool → Option String → Option ℤ → NodeTimeSyncResponse
  done : NodeTimeSyncResponse

pub data NodeLoggingProtocol : Type 0 where
  tcp udp : NodeLoggingProtocol

pub record NodeLoggingEndpoint : Type 0 where
  pub protocol : NodeLoggingProtocol
  pub address : String
  pub port : ℕ

pub data NodeLoggingRequest : Type 0 where
  get : NodeLoggingRequest
  set : List NodeLoggingEndpoint → NodeLoggingRequest
  clear restart : NodeLoggingRequest

pub data NodeLoggingResponse : Type 0 where
  get : Option (List NodeLoggingEndpoint) → NodeLoggingResponse
  done : NodeLoggingResponse

pub record NodeRemoteAccessConfig : Type 0 where
  pub port : ℕ

pub data NodeRemoteAccessRequest : Type 0 where
  get : NodeRemoteAccessRequest
  set : NodeRemoteAccessConfig → NodeRemoteAccessRequest
  restart : NodeRemoteAccessRequest

pub data NodeRemoteAccessResponse : Type 0 where
  get : NodeRemoteAccessConfig → NodeRemoteAccessResponse
  done : NodeRemoteAccessResponse
