-- ===== src/Ctl/Main.antt =====
-- host/cmd/pispotctl/main.go: `main`, `requireRoot` and `usage`.
pub mod Guards
use pispot.Base.{ℕ, ◌==◌, List, [], ◌∷◌, ◌++◌, if◌then◌else◌}
use pispot.Ctl.{World, Process, Report, nl}
use pispot.Ctl.Networks.{wifi_list}
use pispot.Ctl.Reports.{status, logs}
use pispot.Go.Bytes.{Bytes, lit, equal}
use pispot.Go.Quote.{quote}
use pispot.Host.{Argv}
use pispot.Result.{Result, ok, err}
use pispot.Wan.{wan_up, wan_down}

-- The dash of the first line is three bytes.
abbrev pub usage : Bytes
usage =
    lit "pispotctl "
    ++ (0xE2
        ∷ 0x80
        ∷ 0x94
        ∷ lit
            " pispot host management tool\n\nUsage: pispotctl <command> [args]\n\nCommands:\n  wan-up        Start wpa_supplicant@wlan1 and request wlan1 DHCP lease\n  wan-down      Stop wpa_supplicant@wlan1 and release wlan1 DHCP lease\n  status        Show current service and network status\n  wifi list     List configured WAN WiFi networks (passwords masked)\n  logs          Dump all pispot-related logs\n")

-- os.Exit(1) behind a text on the standard error.
exit_with : Bytes → List Argv → Process
exit_with errs ran = record { code = 1; out = []; errs = errs; ran = ran }

done : Bytes → List Argv → Process
done out ran = record { code = 0; out = out; errs = []; ran = ran }

-- `requireRoot`, and what stands behind it.
as_root : World → Bytes → (List Argv → Process) → List Argv → Process
as_root w name body ran =
    if w.uid == 0 then body ran else exit_with (name ++ lit " requires root" ++ nl) ran

-- The handling of a command's error.
finished : Bytes → Result Bytes → List Argv → Process
finished name (ok out) ran = done out ran
finished name (err e) ran = exit_with (name ++ lit ": " ++ e ++ nl) ran

-- What `wanUp` and `wanDown` print behind their commands.
announced : Bytes → Result (Unit {0}) → Result Bytes
announced text (ok _) = ok (text ++ nl)
announced text (err e) = err e

run_wan_up : World → List Argv → Process
run_wan_up w ran =
    let (r, behind) = wan_up w.host ran in
    finished (lit "wan-up")
      (announced (lit "started wpa_supplicant@wlan1 and requested wlan1 DHCP lease") r) behind

run_wan_down : World → List Argv → Process
run_wan_down w ran =
    let (r, behind) = wan_down w.host ran in
    finished (lit "wan-down")
      (announced (lit "stopped wpa_supplicant@wlan1 and released wlan1 DHCP lease") r) behind

-- `status` and `logs` return no error.
run_report : Report → List Argv → Process
run_report report ran = let (out, behind) = report ran in done out behind

run_wifi : World → List Bytes → List Argv → Process
run_wifi w [] ran = exit_with (lit "usage: pispotctl wifi <list>\n") ran
run_wifi w (sub ∷ args) ran =
    if equal sub (lit "list")
    then as_root w (lit "wifi list") (finished (lit "wifi list") (wifi_list w)) ran
    else exit_with (lit "unknown wifi subcommand: " ++ quote w.unicode sub ++ nl) ran

-- The arguments are those behind the name of the program.
pub main : World → List Bytes → List Argv → Process
main w [] ran = exit_with usage ran
main w (cmd ∷ args) ran =
    if equal cmd (lit "wan-up")
    then as_root w (lit "wan-up") (run_wan_up w) ran
    else if equal cmd (lit "wan-down")
    then as_root w (lit "wan-down") (run_wan_down w) ran
    else if equal cmd (lit "status")
    then as_root w (lit "status") (run_report (status w)) ran
    else if equal cmd (lit "wifi")
    then run_wifi w args ran
    else if equal cmd (lit "logs")
    then as_root w (lit "logs") (run_report (logs w)) ran
    else exit_with (lit "unknown command: " ++ quote w.unicode cmd ++ nl ++ usage) ran
