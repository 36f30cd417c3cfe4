-- ===== src/Ctl/Networks.antt =====
-- host/cmd/pispotctl/main.go: `wifiList`.
pub mod Passwords
use pispot.Base.{ℕ, ◌+◌, Bool, List, [], ◌∷◌, ◌++◌, if◌then◌else◌}
use pispot.Authz.Client.{Carried, dial_failed, encode_failed, decode_failed, received}
use pispot.Ctl.{World, padded, repeat, nl}
use pispot.Ctl.Reports.{socket_path}
use pispot.Go.Bytes.{Bytes, lit, decimal}
use pispot.Result.{Result, ok, err}
use pispot.Socket.{Response, request, op_wifi_list}
use pispot.Wifi.Config.{Network}

-- Eight bullets of three bytes.
masked : Bytes
masked = repeat 8 (0xE2 ∷ 0x80 ∷ 0xA2 ∷ [])

-- A line of the table, of which the columns have 3 and 40 runes.
row : Bytes → Bytes → Bytes → Bytes
row number ssid psk = padded 3 number ++ lit "  " ++ padded 40 ssid ++ lit "  " ++ psk ++ nl

rows : ℕ → List Network → Bytes
rows i [] = []
rows i (n ∷ ns) = row (decimal (i + 1)) n.ssid masked ++ rows (i + 1) ns

heading : Bytes
heading =
    row (lit "#") (lit "SSID") (lit "Password")
    ++ row (lit "---") (repeat 40 (lit "-")) (lit "--------")

table : List Network → Bytes
table [] = lit "No WiFi networks configured.\n"
table (n ∷ ns) = heading ++ rows 0 (n ∷ ns)

-- Behind the exchange with the daemon.
listing_of : Carried → Result Bytes
listing_of (dial_failed e) = err (lit "connect to " ++ socket_path ++ lit ": " ++ e)
listing_of (encode_failed e) = err (lit "send request: " ++ e)
listing_of (decode_failed e) = err (lit "decode response: " ++ e)
listing_of (received r) =
    if r.success then ok (table r.networks) else err (lit "daemon error: " ++ r.error)

-- What it prints, or its error.
pub wifi_list : World → Result Bytes
wifi_list w = listing_of (w.daemon (request op_wifi_list))
