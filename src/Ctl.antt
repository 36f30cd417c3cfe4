-- ===== src/Ctl.antt =====
-- host/cmd/pispotctl/main.go: the management tool of the host. `wanUp` and `wanDown` are in Wan.
pub mod Reports
pub mod Networks
pub mod Main
use pispot.Base.{
  ℕ, zero, suc, ◌+◌, ◌-◌, ◌==◌, Bool, true, false, not, ◌&&◌, Option, none, some, List, [], ◌∷◌,
  ◌++◌, length, if◌then◌else◌,
}
use pispot.Authz.Client.{Carried, dial_failed, encode_failed, decode_failed, received}
use pispot.Go.Bytes.{Bytes, lit, decimal, equal, is_empty}
use pispot.Go.Quote.{decode_rune, quote}
use pispot.Go.Space.{trim_space}
use pispot.Go.Unicode.{Unicode}
use pispot.Host.{Argv, Host, Presence, found, not_exist, unreadable, Outcome, Action}
use pispot.Result.{Result, ok, err}
use pispot.Socket.{Request, Response, request, op_wifi_list}
use pispot.Wan.{wan_up, wan_down}
use pispot.Wifi.Config.{Network}

-- What the tool meets: the user that runs it, the time as it is printed, the host, the output of
-- `systemctl is-active`, and the daemon at the other end of the socket.
pub record World : Type 0 where
  pub unicode : Unicode
  pub uid : ℕ
  pub now : Bytes
  pub host : Host
  pub is_active : List Argv → Bytes → Bytes
  pub daemon : Request → Carried

-- A process that has ended: its status, what it printed, and the commands run until then.
pub record Process : Type 0 where
  pub code : ℕ
  pub out : Bytes
  pub errs : Bytes
  pub ran : List Argv

-- What is printed by a part that runs commands.
abbrev pub Report : Type 0
Report = List Argv → Bytes × List Argv

infixr 5 ◌>>◌
pub ◌>>◌ : Report → Report → Report
(first >> next) ran =
    let (out, behind) = first ran in let (more, last) = next behind in (out ++ more, last)

pub print : Bytes → Report
print text ran = (text, ran)

-- utf8.RuneCountInString; the number counts the bytes left of the last rune.
rune_count : ℕ → Bytes → ℕ
rune_count skip [] = 0
rune_count (suc skip) (c ∷ s) = rune_count skip s
rune_count zero (c ∷ s) = 1 + rune_count ((decode_rune c s).width - 1) s

spaces : ℕ → Bytes
spaces zero = []
spaces (suc n) = b' ' ∷ spaces n

-- `%-40s` and the like
pub padded : ℕ → Bytes → Bytes
padded width s = s ++ spaces (width - rune_count 0 s)

pub repeat : ℕ → Bytes → Bytes
repeat zero s = []
repeat (suc n) s = s ++ repeat n s

abbrev pub nl : Bytes
nl = lit "\n"
