-- ===== src/Hotspot/Leases.antt =====
-- dashboard/internal/hotspot/leases.go: the lease file of dnsmasq.
pub mod Printed
use pispot.Base.{Option, none, some, ◌||◌, List, [], ◌∷◌, if◌then◌else◌}
use pispot.Go.Bytes.{Bytes, lit, equal, has_prefix, is_empty}
use pispot.Go.Lines.{scan, scan_from}
use pispot.Go.Lower.{to_lower}
use pispot.Go.Map.{Map, insert}
use pispot.Go.Space.{trim_space, fields}
use pispot.Go.Unicode.{Unicode}

pub record LeaseEntry : Type 0 where
  pub ip : Bytes
  pub hostname : Bytes

-- dnsmasq writes `*` for a host without a name.
pub lease_entry : Bytes → Bytes → LeaseEntry
lease_entry ip hostname = record {
  ip = ip;
  hostname = if equal hostname (lit "*") then [] else hostname;
}

-- The fields of a line; fewer than four are skipped.
pub read_fields : Unicode → List Bytes → Map LeaseEntry → Map LeaseEntry
read_fields u (expiry ∷ mac ∷ ip ∷ hostname ∷ rest) out =
    insert (to_lower u mac) (lease_entry ip hostname) out
read_fields u _ out = out

pub read_line : Unicode → Bytes → Map LeaseEntry → Map LeaseEntry
read_line u text out =
    let line = trim_space text in
    if is_empty line || has_prefix line (lit "#") then out else read_fields u (fields line) out

pub read_lines : Unicode → List Bytes → Map LeaseEntry → Map LeaseEntry
read_lines u [] out = out
read_lines u (line ∷ lines) out = read_lines u lines (read_line u line out)

-- The error of the scanner is not looked at.
pub parse_leases : Unicode → Bytes → Map LeaseEntry
parse_leases u raw = read_lines u (scan raw).lines []

-- All that `parse_leases` computes with.
unfoldable pub leasing : Unit {0}
unfolding parse_leases read_lines read_line read_fields lease_entry scan_from trim_space fields
    has_prefix to_lower insert equal
leasing = tt
