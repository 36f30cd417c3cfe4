-- ===== src/Wan.antt =====
-- Commands that bring the WAN link up and down: host/internal/wan/ops.go, `Reload` of
-- host/internal/wifi/config.go, and `wanUp` and `wanDown` of host/cmd/pispotctl/main.go.
pub mod Plan
use pispot.Base.{Bool, true, false, List, [], ◌∷◌, ◌++◌, if◌then◌else◌}
use pispot.Go.Bytes.{Bytes, lit}
use pispot.Go.Space.{trim_space}
use pispot.Host.{Argv, Host, Action, ◌>>◌, command, tried, is_missing}
use pispot.Result.{Result, ok, err}

abbrev pub wlan1_path : Bytes
wlan1_path = lit "/sys/class/net/wlan1"

abbrev pub wireless_path : Bytes
wireless_path = lit "/sys/class/net/wlan1/wireless"

abbrev pub start_supplicant : Argv
start_supplicant = lit "systemctl" ∷ lit "start" ∷ lit "wpa_supplicant@wlan1" ∷ []

abbrev pub stop_supplicant : Argv
stop_supplicant = lit "systemctl" ∷ lit "stop" ∷ lit "wpa_supplicant@wlan1" ∷ []

abbrev pub request_lease : Argv
request_lease = lit "dhcpcd" ∷ lit "wlan1" ∷ []

abbrev pub release_lease : Argv
release_lease = lit "dhcpcd" ∷ lit "--release" ∷ lit "wlan1" ∷ []

abbrev whole : Bytes → Bytes
whole out = out

abbrev fail : Bytes → Action
fail e ran = (err e, ran)

module _ (host : Host) where
  -- `Up` and `wanUp`, with what they tell of a command's output.
  pub up_with : (Bytes → Bytes) → Action
  up_with shown =
      if is_missing (host.stat wlan1_path)
      then fail (lit "wlan1 does not exist")
      else if is_missing (host.stat wireless_path)
      then fail (lit "wlan1 exists but is not a wireless interface")
      else (command host shown (lit "start wpa_supplicant@wlan1: ") start_supplicant
          >> command host shown (lit "dhcpcd wlan1: ") request_lease)

  -- `Down` and `wanDown`.
  pub down_with : (Bytes → Bytes) → Action
  down_with shown =
      command host shown (lit "stop wpa_supplicant@wlan1: ") stop_supplicant
      >> command host shown (lit "dhcpcd --release wlan1: ") release_lease

  pub up : Action
  up = up_with whole

  pub down : Action
  down = down_with whole

  -- wifi.Reload
  pub reload : Action
  reload =
      if is_missing (host.stat wlan1_path)
      then (λ ran. (ok tt, ran))
      else (command host trim_space (lit "stop wpa_supplicant@wlan1: ") stop_supplicant
          >> tried host release_lease
          >> command host trim_space (lit "start wpa_supplicant@wlan1: ") start_supplicant
          >> command host trim_space (lit "dhcpcd wlan1: ") request_lease)

  -- pispotctl
  pub wan_up : Action
  wan_up = up_with trim_space

  pub wan_down : Action
  wan_down = down_with trim_space
