-- ===== src/Wifi/Store/Race.antt =====
-- host/internal/socket/server.go, `go handle`: requests to add or remove a network that run at the same
-- time on the files of host/internal/wifi/config.go. A step is one call of the operating system.
pub mod Outcome
pub mod Alone
pub mod Reads
pub mod Lost
use pispot.Base.{
  ℕ, ◌+◌, Bool, true, false, ◌||◌, Option, none, some, List, [], ◌∷◌, ◌++◌, length, ltb, ◌==◌, not,
  if◌then◌else◌,
}
use pispot.Go.Bytes.{Bytes, lit, drop, is_empty}
use pispot.Go.Lines.{too_long_error}
use pispot.Go.Quote.{quote}
use pispot.Go.Space.{trim_space}
use pispot.Go.Unicode.{Unicode}
use pispot.Result.{Result, ok, err}
use pispot.Schedule
use pispot.Schedule.{update, pick, interleave}
use pispot.Wifi.Config.{parse, render}
use pispot.Wifi.Store.{has_ssid, without_ssid, length_error}

-- The files that the names stand for, and what each file holds. A file opened under a name stays the
-- one that is written to when the name is given to another.
pub record Disk : Type 0 where
  pub config : Option ℕ
  pub temp : Option ℕ
  pub bodies : ℕ → Bytes
  pub next : ℕ

pub data Change : Type 0 where
  adding : Bytes → Bytes → Change
  dropping : Bytes → Change

-- Where a request stands: in front of the open and the read of os.ReadFile, of the open and the write
-- of os.WriteFile, of os.Rename, of os.Remove, or answered.
pub data Pc : Type 0 where
  asked : Pc
  reading : ℕ → Pc
  opening : Bytes → Pc
  writing : ℕ → Bytes → Pc
  renaming : Pc
  cleaning : Pc
  answered : Result (Unit {0}) → Pc

-- The texts of the errors that a missing file gives.
pub record Texts : Type 0 where
  pub unicode : Unicode
  pub no_config : Bytes
  pub no_temp : Bytes

-- A write at the start of a file.
unfoldable pub overwrite : Bytes → Bytes → Bytes
overwrite text old = text ++ drop (length text) old

-- The error of `Add` in front of os.ReadFile.
pub refusal : Change → Option Bytes
refusal (adding ssid psk) =
    if is_empty (trim_space ssid)
    then some (lit "SSID cannot be empty")
    else if is_empty (trim_space psk)
    then some (lit "password cannot be empty")
    else if ltb (length psk) 8 || ltb 63 (length psk)
    then some (length_error psk)
    else none
refusal (dropping ssid) = none

-- The text that `write` builds of the text that was read.
pub new_text : Unicode → Change → Bytes → Result Bytes
new_text u (adding ssid psk) contents =
    let p = parse contents in
    if p.failed
    then err (lit "parse config: " ++ too_long_error)
    else if has_ssid ssid p.networks
    then err (lit "network " ++ quote u ssid ++ lit " already exists")
    else ok (render u p.header (p.networks ++ record { ssid = ssid; psk = psk } ∷ []))
new_text u (dropping ssid) contents =
    let p = parse contents in
    if p.failed
    then err (lit "parse config: " ++ too_long_error)
    else if not (has_ssid ssid p.networks)
    then err (lit "network " ++ quote u ssid ++ lit " not found")
    else ok (render u p.header (without_ssid ssid p.networks))

-- Behind a read.
pub to_write : Result Bytes → Pc
to_write (err e) = answered (err e)
to_write (ok text) = opening text

open_config : Texts → Option ℕ → Pc
open_config texts none = answered (err (lit "read config: " ++ texts.no_config))
open_config texts (some i) = reading i

begin : Texts → Option Bytes → Option ℕ → Pc
begin texts (some e) config = answered (err e)
begin texts none config = open_config texts config

-- os.OpenFile, which creates the file or truncates it.
open_temp : Bytes → Option ℕ → Disk → Disk × Pc
open_temp text none d = (
  record d { temp = some d.next; bodies = update d.bodies d.next []; next = d.next + 1 },
  writing d.next text,
)
open_temp text (some i) d = (record d { bodies = update d.bodies i [] }, writing i text)

rename_over : Option ℕ → Disk → Disk × Pc
rename_over none d = (d, cleaning)
rename_over (some i) d = (record d { config = some i; temp = none }, answered (ok tt))

-- One step of a request.
unfoldable pub advance : Texts → Change → Disk → Pc → Disk × Pc
unfolding begin open_config open_temp rename_over
advance texts change d asked = (d, begin texts (refusal change) d.config)
advance texts change d (reading i) = (d, to_write (new_text texts.unicode change (d.bodies i)))
advance texts change d (opening text) = open_temp text d.temp d
advance texts change d (writing i text) =
    (record d { bodies = update d.bodies i (overwrite text (d.bodies i)) }, renaming)
advance texts change d renaming = rename_over d.temp d
advance texts change d cleaning =
    (record d { temp = none }, answered (err (lit "rename config: " ++ texts.no_temp)))
advance texts change d (answered r) = (d, answered r)

-- The files, and where each of the requests stands.
abbrev pub System : Type 0
System = Schedule.System Disk Pc

-- The requests take their steps in the order of the schedule.
module _ (texts : Texts) (changes : ℕ → Change) where
  abbrev pub move : ℕ → System → System
  move = pick (λ i. advance texts (changes i))

  abbrev pub run : List ℕ → System → System
  run = interleave (λ i. advance texts (changes i))
