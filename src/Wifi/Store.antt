-- ===== src/Wifi/Store.antt =====
-- host/internal/wifi/config.go: `List`, `Add`, `Remove` and `write` on the configuration file.
pub mod Atomic
pub mod Refine
pub mod Faults
pub mod Quoting
pub mod Race
use pispot.Base.{
  Bool, true, false, ◌||◌, Option, none, some, List, [], ◌∷◌, ◌++◌, length, ltb, if◌then◌else◌,
  select, not,
}
use pispot.Go.Bytes.{Bytes, lit, equal, is_empty, decimal}
use pispot.Go.Space.{trim_space}
use pispot.Go.Lines.{too_long_error}
use pispot.Go.Quote.{quote}
use pispot.Go.Unicode.{Unicode}
use pispot.Result.{Result, ok, err}
use pispot.Wifi.Config.{Network, parse, render}

-- `configPath` and `configPath + ".tmp"`: the contents, if the file is there.
pub record Files : Type 0 where
  pub config : Option Bytes
  pub temp : Option Bytes

-- What the operating system does to the calls of one operation. An error is its text.
pub record Os : Type 0 where
  -- os.ReadFile fails although the file is there
  pub read_error : Option Bytes
  -- os.ReadFile of a file that is not there
  pub not_exist : Bytes
  -- os.WriteFile fails, and leaves this of the temporary file
  pub write_error : Option (Bytes × Option Bytes)
  -- os.Rename fails
  pub rename_error : Option Bytes
  -- os.Remove succeeds
  pub removes : Bool

pub read_file : Os → Files → Result Bytes
read_file os fs = elim os.read_error [
  | some e ↦ err e
  | none ↦ elim fs.config [ none ↦ err os.not_exist | some contents ↦ ok contents ]
]

-- os.Rename of the temporary file, then os.Remove if that failed.
pub rename_temp : Os → Files → Result (Unit {0}) × Files
rename_temp os fs = elim os.rename_error [
  | some e ↦
      (err (lit "rename config: " ++ e), if os.removes then record fs { temp = none } else fs)
  | none ↦ (ok tt, record { config = fs.temp; temp = none })
]

pub write_text : Os → Bytes → Files → Result (Unit {0}) × Files
write_text os contents fs = elim os.write_error [
  | some (e, left) ↦ (err (lit "write temp config: " ++ e), record fs { temp = left })
  | none ↦ rename_temp os (record fs { temp = some contents })
]

-- The loops of `Add` and `Remove` over the networks.
pub has_ssid : Bytes → List Network → Bool
has_ssid ssid [] = false
has_ssid ssid (n ∷ ns) = equal n.ssid ssid || has_ssid ssid ns

pub without_ssid : Bytes → List Network → List Network
without_ssid ssid = select (λ n. not (equal n.ssid ssid))

-- `%d–%d`: the dash is three bytes.
abbrev pub length_error : Bytes → Bytes
length_error psk =
    lit "password must be 8"
    ++ (0xE2 ∷ 0x80 ∷ 0x93 ∷ lit "63 characters (got ")
    ++ decimal (length psk)
    ++ lit ")"

-- The error of os.ReadFile, or what follows it.
pub after_read :
    Result Bytes → (Bytes → Result (Unit {0}) × Files) → Files → Result (Unit {0}) × Files
after_read (err e) rest fs = (err (lit "read config: " ++ e), fs)
after_read (ok contents) rest fs = rest contents

-- `List` behind os.ReadFile. It returns the networks beside the error of `parse`; its caller drops
-- them.
pub list_from : Result Bytes → Result (List Network)
list_from (err e) = err (lit "read config: " ++ e)
list_from (ok contents) =
    if (parse contents).failed then err too_long_error else ok (parse contents).networks

pub list : Os → Files → Result (List Network)
list os fs = list_from (read_file os fs)

module _ (u : Unicode) (os : Os) where
  pub write : Bytes → List Network → Files → Result (Unit {0}) × Files
  write header ns = write_text os (render u header ns)

  -- `Add` behind its checks of the arguments, with the contents of the file.
  pub add_to : Bytes → Bytes → Bytes → Files → Result (Unit {0}) × Files
  add_to ssid psk contents fs =
      let p = parse contents in
      if p.failed
      then (err (lit "parse config: " ++ too_long_error), fs)
      else if has_ssid ssid p.networks
      then (err (lit "network " ++ quote u ssid ++ lit " already exists"), fs)
      else write p.header (p.networks ++ record { ssid = ssid; psk = psk } ∷ []) fs

  pub add : Bytes → Bytes → Files → Result (Unit {0}) × Files
  add ssid psk fs =
      if is_empty (trim_space ssid)
      then (err (lit "SSID cannot be empty"), fs)
      else if is_empty (trim_space psk)
      then (err (lit "password cannot be empty"), fs)
      else if ltb (length psk) 8 || ltb 63 (length psk)
      then (err (length_error psk), fs)
      else after_read (read_file os fs) (λ contents. add_to ssid psk contents fs) fs

  -- `Remove` with the contents of the file.
  pub remove_from : Bytes → Bytes → Files → Result (Unit {0}) × Files
  remove_from ssid contents fs =
      let p = parse contents in
      if p.failed
      then (err (lit "parse config: " ++ too_long_error), fs)
      else if not (has_ssid ssid p.networks)
      then (err (lit "network " ++ quote u ssid ++ lit " not found"), fs)
      else write p.header (without_ssid ssid p.networks) fs

  pub remove : Bytes → Files → Result (Unit {0}) × Files
  remove ssid fs = after_read (read_file os fs) (λ contents. remove_from ssid contents fs) fs

-- All that the operations compute with, but for `parse` and `render`.
unfoldable pub storing : Unit {0}
unfolding has_ssid without_ssid select read_file rename_temp write_text write after_read list_from
    list add_to add remove_from remove
storing = tt
