-- ===== src/Ctl/Reports.antt =====
-- host/cmd/pispotctl/main.go: `status` and `logs`.
use pispot.Base.{
  ◌==◌, Bool, ◌&&◌, Option, none, some, List, [], ◌∷◌, ◌++◌, String, map, if◌then◌else◌, is_some,
}
use pispot.Ctl.{World, Report, ◌>>◌, print, padded, repeat, nl}
use pispot.Go.Bytes.{Bytes, lit, equal, is_empty}
use pispot.Go.Space.{trim_space}
use pispot.Host.{Argv, Presence, found, not_exist, unreadable, Outcome}

-- `prefix` in front of each line of a text: what fmt.Printf makes of each part of strings.Split.
indented : Bytes → Bytes → Bytes
indented prefix [] = nl
indented prefix (c ∷ s) =
    let rest = indented prefix s in if c == b'\n' then nl ++ prefix ++ rest else c ∷ rest

error_line : Bytes → Option Bytes → Bytes
error_line indent none = []
error_line indent (some e) = indent ++ lit "(error: " ++ e ++ lit ")" ++ nl

silent_failure : Outcome → Bool
silent_failure r = is_some r.failed && is_empty r.output

-- What `runSection` prints of a command.
section_text : Outcome → Bytes
section_text r =
    if silent_failure r
    then error_line (lit "  ") r.failed ++ nl
    else lit "  " ++ indented (lit "  ") (trim_space r.output) ++ nl

run_section : World → Bytes → Argv → Report
run_section w title argv ran =
    (lit "  [" ++ title ++ lit "]" ++ nl ++ section_text (w.host.exec ran argv), ran ++ argv ∷ [])

-- A tick or a cross, and a space.
marker : Bytes → Bytes
marker state =
    if equal state (lit "active")
    then 0xE2 ∷ 0x9C ∷ 0x93 ∷ lit " "
    else 0xE2 ∷ 0x9C ∷ 0x97 ∷ lit " "

service : World → Bytes → Report
service w name ran =
    let state = trim_space (w.is_active ran name) in
    (
      lit "  " ++ marker state ++ padded 35 name ++ lit " " ++ state ++ nl,
      ran ++ (lit "systemctl" ∷ lit "is-active" ∷ name ∷ []) ∷ [],
    )

-- A loop that prints.
each : {A : Type 0} → (A → Report) → List A → Report
each report [] = print []
each report (a ∷ rest) = report a >> each report rest

services : List Bytes
services =
    lit "pispot-authd"
    ∷ lit "docker"
    ∷ lit "wpa_supplicant@wlan1"
    ∷ lit "dhcpcd"
    ∷ lit "hostapd"
    ∷ lit "dnsmasq"
    ∷ []

abbrev pub socket_path : Bytes
socket_path = lit "/run/pispot/pispot-authd.sock"

socket_line : Presence → Bytes
socket_line found = lit "  /run/pispot/pispot-authd.sock  present" ++ nl
socket_line not_exist = lit "  /run/pispot/pispot-authd.sock  MISSING" ++ nl
socket_line unreadable = lit "  /run/pispot/pispot-authd.sock  MISSING" ++ nl

-- The dash of the first line is three bytes.
pub status : World → Report
status w =
    print (lit "pispotctl status " ++ (0xE2 ∷ 0x80 ∷ 0x94 ∷ lit " ") ++ w.now ++ nl)
    >> print (lit "\nServices:\n")
    >> each (service w) services
    >> print (lit "\nDocker:\n")
    >> run_section w (lit "docker ps -a") (lit "docker" ∷ lit "ps" ∷ lit "-a" ∷ [])
    >> print (lit "\nNetwork:\n")
    >> run_section w (lit "ip addr") (lit "ip" ∷ lit "addr" ∷ [])
    >> run_section w (lit "ip route") (lit "ip" ∷ lit "route" ∷ [])
    >> print (lit "\nSocket:\n")
    >> print (socket_line (w.host.stat socket_path))

pub record Section : Type 0 where
  pub title : Bytes
  pub cmd : Argv

section : String → List String → Section
section title cmd = record { title = lit title; cmd = map (λ s. lit s) cmd }

systemctl_status : String → Section
systemctl_status name = record {
  title = lit "systemctl status " ++ lit name;
  cmd = lit "systemctl" ∷ lit "status" ∷ lit name ∷ lit "--no-pager" ∷ lit "--full" ∷ [];
}

sections : List Section
sections =
    systemctl_status "pispot-authd"
    ∷ systemctl_status "docker"
    ∷ systemctl_status "wpa_supplicant@wlan1"
    ∷ systemctl_status "dhcpcd"
    ∷ systemctl_status "hostapd"
    ∷ systemctl_status "dnsmasq"
    ∷ section "journalctl -u pispot-authd (last 200 lines)"
        ("journalctl" ∷ "-u" ∷ "pispot-authd" ∷ "--no-pager" ∷ "-n" ∷ "200" ∷ [])
    ∷ section "journalctl -u wpa_supplicant@wlan1 (last 100 lines)"
        ("journalctl" ∷ "-u" ∷ "wpa_supplicant@wlan1" ∷ "--no-pager" ∷ "-n" ∷ "100" ∷ [])
    ∷ section "journalctl -u dhcpcd (last 100 lines)"
        ("journalctl" ∷ "-u" ∷ "dhcpcd" ∷ "--no-pager" ∷ "-n" ∷ "100" ∷ [])
    ∷ section "journalctl -u docker (last 50 lines)"
        ("journalctl" ∷ "-u" ∷ "docker" ∷ "--no-pager" ∷ "-n" ∷ "50" ∷ [])
    ∷ section "docker ps -a" ("docker" ∷ "ps" ∷ "-a" ∷ [])
    ∷ section "docker logs pispot-ui (last 200 lines)"
        ("docker" ∷ "logs" ∷ "pispot-ui" ∷ "--tail" ∷ "200" ∷ [])
    ∷ section "ip addr" ("ip" ∷ "addr" ∷ [])
    ∷ section "ip route" ("ip" ∷ "route" ∷ [])
    ∷ section "ss -lx (Unix sockets listening)" ("ss" ∷ "-lx" ∷ [])
    ∷ section "ls -la /run/pispot/" ("ls" ∷ "-la" ∷ "/run/pispot/" ∷ [])
    ∷ section "ls -la /usr/local/bin/pispot-authd /etc/pispot/"
        ("ls" ∷ "-la" ∷ "/usr/local/bin/pispot-authd" ∷ "/etc/pispot/" ∷ [])
    ∷ section "cat /etc/pispot/authd.conf" ("cat" ∷ "/etc/pispot/authd.conf" ∷ [])
    ∷ section "cat /etc/pam.d/pispot" ("cat" ∷ "/etc/pam.d/pispot" ∷ [])
    ∷ section "cat /etc/systemd/system/pispot-authd.service"
        ("cat" ∷ "/etc/systemd/system/pispot-authd.service" ∷ [])
    ∷ section "ls -la /etc/pispot/certs/" ("ls" ∷ "-la" ∷ "/etc/pispot/certs/" ∷ [])
    ∷ section "openssl x509 -in /etc/pispot/certs/fullchain.pem -noout -subject -issuer -dates" (
        "openssl" ∷ "x509" ∷ "-in" ∷ "/etc/pispot/certs/fullchain.pem" ∷ "-noout" ∷ "-subject"
        ∷ "-issuer" ∷ "-dates" ∷ [])
    ∷ []

separator : Bytes
separator = repeat 72 (lit "=")

shown_output : Bytes → Bytes
shown_output text = if is_empty text then lit "(no output)" ++ nl else text ++ nl

log_text : Outcome → Bytes
log_text r = if silent_failure r then error_line [] r.failed else shown_output (trim_space r.output)

log_section : World → Section → Report
log_section w s ran = (
  nl
      ++ separator
      ++ nl
      ++ lit "  "
      ++ s.title
      ++ nl
      ++ separator
      ++ nl
      ++ log_text (w.host.exec ran s.cmd),
  ran ++ s.cmd ∷ [],
)

-- The dash of the first line is three bytes.
pub logs : World → Report
logs w =
    print (lit "pispotctl logs " ++ (0xE2 ∷ 0x80 ∷ 0x94 ∷ lit " collected at ") ++ w.now ++ nl)
    >> each (log_section w) sections
    >> print (nl ++ separator ++ nl ++ lit "  End of pispotctl logs" ++ nl ++ separator ++ nl)
