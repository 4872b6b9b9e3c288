-- ===== src/Examples/Values.antt =====
-- The identifiers of request codes.
use review_protocol.Prelude.{◌≡◌, refl}
use review_protocol.Codes.Server
use review_protocol.ServiceId.ServerCodes.Laws.{from_server_request_code_inj}

from_server_request_code_inj_example : Server.RequestCode.get_config ≡ Server.RequestCode.get_config
from_server_request_code_inj_example =
    from_server_request_code_inj Server.RequestCode.get_config Server.RequestCode.get_config refl
