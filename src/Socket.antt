-- ===== src/Socket.antt =====
-- host/internal/socket: the requests and responses between pispot-ui and pispot-authd, which
-- dashboard/internal/authz/protocol.go declares once more.
use pispot.Base.{Bool, true, false, List, []}
use pispot.Go.Bytes.{Bytes, lit}
use pispot.Wifi.Config.{Network}

pub record Request : Type 0 where
  pub op : Bytes
  pub username : Bytes
  pub password : Bytes
  pub ssid : Bytes
  pub psk : Bytes

pub record Response : Type 0 where
  pub success : Bool
  pub username : Bytes
  pub role : Bytes
  pub error : Bytes
  pub networks : List Network

-- Request{Op: op}
abbrev pub request : Bytes → Request
request op = record { op = op; username = []; password = []; ssid = []; psk = [] }

-- Response{}
abbrev pub no_response : Response
no_response = record { success = false; username = []; role = []; error = []; networks = [] }

-- Response{Error: text}
abbrev pub refused : Bytes → Response
refused text = record no_response { error = text }

-- Response{Ok: true}
abbrev pub succeeded : Response
succeeded = record no_response { success = true }

abbrev pub op_auth : Bytes
op_auth = lit "auth"

abbrev pub op_wan_up : Bytes
op_wan_up = lit "wan_up"

abbrev pub op_wan_down : Bytes
op_wan_down = lit "wan_down"

abbrev pub op_wifi_list : Bytes
op_wifi_list = lit "wifi_list"

abbrev pub op_wifi_add : Bytes
op_wifi_add = lit "wifi_add"

abbrev pub op_wifi_remove : Bytes
op_wifi_remove = lit "wifi_remove"

abbrev pub op_wifi_reload : Bytes
op_wifi_reload = lit "wifi_reload"
