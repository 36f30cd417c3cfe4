-- ===== src/Authz/Client.antt =====
-- dashboard/internal/authz/client.go: the calls of the daemon over its socket.
use pispot.Base.{Bool, List, ◌++◌, if◌then◌else◌}
use pispot.Go.Bytes.{Bytes, lit}
use pispot.Result.{Result, ok, err}
use pispot.Socket.{
  Request, Response, request, op_auth, op_wifi_list, op_wifi_add, op_wifi_remove, op_wifi_reload,
}
use pispot.Wifi.Config.{Network}

-- What a round trip over the socket comes to: a failure of dialling, of writing the request or of
-- reading the response, or a response.
pub data Carried : Type 0 where
  dial_failed : Bytes → Carried
  encode_failed : Bytes → Carried
  decode_failed : Bytes → Carried
  received : Response → Carried

-- The other end of the socket, with a state of its own.
abbrev pub Helper : Type 0 → Type 0
Helper S = Request → S → Carried × S

-- `callHelper` and `callSocket` differ in the word for the request.
outcome : Bytes → Bytes → Carried → Result Response
outcome sent got (dial_failed e) = err (lit "auth socket unavailable: " ++ e)
outcome sent got (encode_failed e) = err (sent ++ e)
outcome sent got (decode_failed e) = err (got ++ e)
outcome sent got (received resp) = ok resp

unfoldable pub auth_request : Bytes → Bytes → Request
auth_request username password = record (request op_auth) {
  username = username;
  password = password;
}

-- A response that says no is an error with its text.
checked : Result Response → Result (Unit {0})
checked (err e) = err e
checked (ok resp) = if resp.success then ok tt else err resp.error

flags : Result Response → Result (Bool × Bytes)
flags (err e) = err e
flags (ok resp) = ok (resp.success, resp.error)

listed : Result Response → Result (List Network)
listed (err e) = err e
listed (ok resp) = if resp.success then ok resp.networks else err resp.error

-- What `callHelper` makes of a round trip.
unfoldable pub auth_outcome : Carried → Result Response
unfolding outcome
auth_outcome = outcome (lit "encode auth request: ") (lit "decode auth response: ")

module _ {S : Type 0} (helper : Helper S) where
  unfoldable pub call_helper : Bytes → Bytes → S → Result Response × S
  call_helper username password s =
      let (c, s') = helper (auth_request username password) s in (auth_outcome c, s')

  call_socket : Request → S → Result Response × S
  call_socket req s =
      let (c, s') = helper req s in
      (outcome (lit "encode op request: ") (lit "decode op response: ") c, s')

  unfoldable pub call_op : Bytes → S → Result (Bool × Bytes) × S
  unfolding call_socket flags outcome
  call_op op s = let (r, s') = call_socket (request op) s in (flags r, s')

  unfoldable pub call_wifi_list : S → Result (List Network) × S
  unfolding call_socket listed outcome
  call_wifi_list s = let (r, s') = call_socket (request op_wifi_list) s in (listed r, s')

  unfoldable pub call_wifi_add : Bytes → Bytes → S → Result (Unit {0}) × S
  unfolding call_socket checked outcome
  call_wifi_add ssid psk s =
      let (r, s') = call_socket (record (request op_wifi_add) { ssid = ssid; psk = psk }) s in
      (checked r, s')

  unfoldable pub call_wifi_remove : Bytes → S → Result (Unit {0}) × S
  unfolding call_socket checked outcome
  call_wifi_remove ssid s =
      let (r, s') = call_socket (record (request op_wifi_remove) { ssid = ssid }) s in
      (checked r, s')

  unfoldable pub call_wifi_reload : S → Result (Unit {0}) × S
  unfolding call_socket checked outcome
  call_wifi_reload s = let (r, s') = call_socket (request op_wifi_reload) s in (checked r, s')
