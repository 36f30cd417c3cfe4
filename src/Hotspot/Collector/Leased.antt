-- ===== src/Hotspot/Collector/Leased.antt =====
-- Which address and name a client is shown with.
use pispot.Base.{◌≡◌, refl, ap, ◌∙◌, subst, Option, none, some, List, [], ◌∷◌, map, All}
use mathlib.Core.List.{Perm}
use mathlib.Core.List.Perm
use pispot.Go.Bytes.{Bytes}
use pispot.Go.Lines.{scan_from, unlines}
use pispot.Go.Map.{lookup}
use pispot.Go.Unicode.{Unicode}
use pispot.Hotspot.Collector.{Setup, contents, with_entry, enrich, joined, listed}
use pispot.Hotspot.Leases.{LeaseEntry, parse_leases}
use pispot.Hotspot.Leases.Printed.{Lease, print_lease, IsPrintable, last_lease, lookup-parse_leases}
use pispot.Hotspot.Stations.{Client, buffer_size, parse_station_dump}
use pispot.Hotspot.Stations.Bare.{IsBare, parse_station_dump-IsBare}
use pispot.Hotspot.Stations.Order.{macs, stations, parse_station_dump-macs}

-- The address of a client, its address on the network and its name there.
abbrev pub Row : Type 0
Row = Bytes × (Bytes × Bytes)

abbrev pub row : Client → Row
row c = (c.mac, (c.ip, c.hostname))

row_of : Bytes → Option LeaseEntry → Row
row_of mac none = (mac, ([], []))
row_of mac (some entry) = (mac, (entry.ip, entry.hostname))

-- By the leases alone: those of the last lease of the address, or else nothing.
pub leased : Unicode → List Lease → Bytes → Row
leased u ls mac = row_of mac (last_lease u mac none ls)

with_entry-row :
    (entry : Option LeaseEntry) (c : Client)
    → IsBare c
    → row (with_entry entry c) ≡ row_of c.mac entry
unfolding with_entry row_of
with_entry-row none c (ip, hostname) = rw (ip, hostname) refl
with_entry-row (some entry) c bare = refl

module _ (u : Unicode) (ls : List Lease) (h : All IsPrintable ls) where
  abbrev file : Bytes
  file = unlines (map print_lease ls)

  enrich-row : (c : Client) → IsBare c → row (enrich (parse_leases u file) c) ≡ leased u ls c.mac
  unfolding enrich leased
  enrich-row c bare =
      with_entry-row (lookup c.mac (parse_leases u file)) c bare
      ∙ ap (row_of c.mac) (lookup-parse_leases u c.mac ls h)

  enriched-rows :
      (cs : List Client)
      → All IsBare cs
      → map row (map (enrich (parse_leases u file)) cs) ≡ map (leased u ls) (macs cs)
  enriched-rows [] bare = refl
  enriched-rows (c ∷ cs) (b, bare) = λ i. enrich-row c b i ∷ enriched-rows cs bare i

-- A station dump and a file of leases: the clients shown are, in some order, one for each station that
-- the dump announces, with the address and the name of the last lease of its address, or with neither
-- if it has no lease.
pub listed-leased :
    (setup : Setup) (raw : Bytes) (ls : List Lease)
    → All IsPrintable ls
    → Perm (map row (listed setup raw (contents (unlines (map print_lease ls))))) (
        map (leased setup.unicode ls) (stations setup.unicode (scan_from buffer_size [] raw).lines))
unfolding listed joined
listed-leased setup raw ls h =
    let u = setup.unicode in
    let cs = parse_station_dump u raw in
    let rows =
      enriched-rows u ls h cs (parse_station_dump-IsBare u raw)
      ∙ ap (map (leased u ls)) (parse_station_dump-macs u raw) in
    subst
      (λ rs.
        Perm
          (map row (setup.sort (map (enrich (parse_leases u (unlines (map print_lease ls)))) cs)))
          rs)
      rows (Perm.map row (setup.sort-perm _))
