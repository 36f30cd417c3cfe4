-- ===== src/Ip.antt =====
-- What the collectors look for in the answers of the command `ip`, which dashboard/internal/wan/ssid.go
-- and dashboard/internal/admin/eth.go have once each.
use pispot.Base.{not, ◌&&◌, List, [], ◌∷◌, if◌then◌else◌}
use pispot.Go.Bytes.{Bytes, lit, equal, is_empty}

-- The values that `parseIPAddr` and `parseIPRoute` have json.Unmarshal fill in.
pub record Address : Type 0 where
  pub family : Bytes
  pub local : Bytes

pub record Route : Type 0 where
  pub dst : Bytes
  pub gateway : Bytes
  pub dev : Bytes

first_inet : List Address → Bytes → Bytes
first_inet [] rest = rest
first_inet (a ∷ more) rest =
    if equal a.family (lit "inet") && not (is_empty a.local) then a.local else first_inet more rest

pub first_address : List (List Address) → Bytes
first_address [] = []
first_address (one ∷ doc) = first_inet one (first_address doc)

pub first_gateway : Bytes → List Route → Bytes
first_gateway iface [] = []
first_gateway iface (r ∷ rs) =
    if equal r.dev iface && not (is_empty r.gateway) then r.gateway else first_gateway iface rs
