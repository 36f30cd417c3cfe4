-- ===== src/Authd/Settings.antt =====
-- `loadConfig` of host/cmd/pispot-authd/main.go: the groups' names from the daemon's configuration.
pub mod Printed
use pispot.Base.{Bool, ◌||◌, Option, none, some, List, [], ◌∷◌, ◌++◌, if◌then◌else◌}
use pispot.Go.Bytes.{Bytes, lit, cut, equal, has_prefix, is_empty}
use pispot.Go.Lines.{Scan, scan, too_long_error}
use pispot.Go.Space.{trim_space}
use pispot.Groups.{Config}
use pispot.Result.{Result, ok, err}

abbrev pub default_config : Config
default_config = record { readonly_group = lit "pispot-ro"; admin_group = lit "pispot-admin" }

-- The switch on the key.
pub assign : Bytes → Bytes → Config → Config
assign key val cfg =
    if equal key (lit "readonly")
    then record cfg { readonly_group = val }
    else if equal key (lit "admin")
    then record cfg { admin_group = val }
    else cfg

pub read_parts : Option (Bytes × Bytes) → Config → Config
read_parts none cfg = cfg
read_parts (some (key, val)) cfg = assign (trim_space key) (trim_space val) cfg

pub read_line : Bytes → Config → Config
read_line text cfg =
    let line = trim_space text in
    if is_empty line || has_prefix line (lit "#") || has_prefix line (lit "[")
    then cfg
    else read_parts (cut b'=' line) cfg

pub read_lines : List Bytes → Config → Config
read_lines [] cfg = cfg
read_lines (line ∷ lines) cfg = read_lines lines (read_line line cfg)

-- The configuration stands beside the error, as it does in Go; main does not go on with an error.
pub scanned : Scan → Config × Option Bytes
scanned s = (read_lines s.lines default_config, if s.too_long then some too_long_error else none)

pub load_config : Result Bytes → Config × Option Bytes
load_config (err e) = (record { readonly_group = []; admin_group = [] }, some e)
load_config (ok contents) = scanned (scan contents)
