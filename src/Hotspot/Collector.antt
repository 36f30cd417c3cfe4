-- ===== src/Hotspot/Collector.antt =====
-- dashboard/internal/hotspot/collector.go: the collector of the access point's clients.
pub mod Rate
pub mod History
pub mod Leased
use pispot.Base.{
  ℕ, ◌≡◌, Bool, false, true, not, Option, none, some, List, [], ◌∷◌, ◌++◌, map, if◌then◌else◌, ◌==◌,
  length,
}
use mathlib.Core.List.{Perm}
use pispot.Go.Bytes.{Bytes, lit}
use pispot.Go.Map.{Map, lookup}
use pispot.Go.Unicode.{Unicode}
use pispot.Hotspot.Leases.{LeaseEntry, parse_leases}
use pispot.Hotspot.Stations.{Client, parse_station_dump}
use pispot.Lazy.{Tick, due}
use pispot.Result.{Result, ok, err}

-- `failed` is the text of `Err`, if there is one.
pub record Snapshot : Type 0 where
  pub at : ℕ
  pub iface : Bytes
  pub clients : List Client
  pub failed : Option Bytes

-- The interface, the age at which a snapshot is stale, and sort.Slice on the order of the addresses,
-- of which Go says that it rearranges the clients; it may put equal ones in any order.
pub record Setup : Type 0 where
  pub unicode : Unicode
  pub iface : Bytes
  pub ttl : ℕ
  pub sort : List Client → List Client
  pub sort-perm : (cs : List Client) → Perm (sort cs) cs

-- os.ReadFile: os.ErrNotExist is told from other errors.
pub data Reading : Type 0 where
  contents : Bytes → Reading
  missing : Reading
  unreadable : Bytes → Reading

-- What the host says to a refresh: os.Stat, `iw dev … station dump`, and the lease file.
pub record Probe : Type 0 where
  pub exists : Bool
  pub stations : Result Bytes
  pub leases : Reading

-- A line of the log.
pub data Entry : Type 0 where
  absent : Entry
  present : Entry
  iw_failed : Bytes → Entry
  count_changed : ℕ → ℕ → Entry

-- The collector, and the lines that it logged, the last of them first.
pub record Collector : Type 0 where
  pub last_at : Option ℕ
  pub snap : Snapshot
  pub prev_client_count : ℕ
  pub prev_absent : Bool
  pub log : List Entry

pub start : Setup → ℕ → Collector
start setup now = record {
  last_at = none;
  snap = record { at = now; iface = setup.iface; clients = []; failed = none };
  prev_client_count = 0;
  prev_absent = false;
  log = [];
}

store : Snapshot → Collector → Collector
store snap c = record c { snap = snap; last_at = some snap.at }

note_absent : Collector → Collector
note_absent c = if c.prev_absent then c else record c { prev_absent = true; log = absent ∷ c.log }

pub note_present : Collector → Collector
note_present c =
    if c.prev_absent then record c { prev_absent = false; log = present ∷ c.log } else c

note_count : ℕ → Collector → Collector
note_count n c =
    if n == c.prev_client_count
    then c
    else record c { prev_client_count = n; log = count_changed c.prev_client_count n ∷ c.log }

with_entry : Option LeaseEntry → Client → Client
with_entry none c = c
with_entry (some entry) c = record c { ip = entry.ip; hostname = entry.hostname }

-- The body of the loop over the clients.
pub enrich : Map LeaseEntry → Client → Client
enrich leases c = with_entry (lookup c.mac leases) c

pub joined : Setup → Reading → List Client → List Client
joined setup (contents raw) cs = map (enrich (parse_leases setup.unicode raw)) cs
joined setup missing cs = cs
joined setup (unreadable e) cs = cs

lease_error : Reading → Option Bytes
lease_error (contents raw) = none
lease_error missing = none
lease_error (unreadable e) = some (lit "leases: " ++ e)

-- What the stations of `iw` make of the clients: with their leases, in order.
pub listed : Setup → Bytes → Reading → List Client
listed setup raw reading = setup.sort (joined setup reading (parse_station_dump setup.unicode raw))

-- Behind the command `iw`.
pub with_stations : Setup → Tick Probe → Result Bytes → Collector → Collector
with_stations setup t (err e) c =
    store
      (record {
        at = t.now;
        iface = setup.iface;
        clients = c.snap.clients;
        failed = some (lit "iw: " ++ e);
      })
      (record c { log = iw_failed e ∷ c.log })
with_stations setup t (ok raw) c =
    let clients = listed setup raw t.probe.leases in
    store
      (record {
        at = t.now;
        iface = setup.iface;
        clients = clients;
        failed = lease_error t.probe.leases;
      })
      (note_count (length clients) c)

pub without_interface : Setup → Tick Probe → Collector → Collector
without_interface setup t c =
    store
      (record {
        at = t.now;
        iface = setup.iface;
        clients = [];
        failed = some (lit "interface absent");
      })
      (note_absent c)

-- `refresh` behind its second look at the clock.
pub probed : Setup → Tick Probe → Collector → Collector
probed setup t c =
    if t.probe.exists
    then with_stations setup t t.probe.stations (note_present c)
    else without_interface setup t c

pub refresh : Setup → Tick Probe → Collector → Collector
refresh setup t c = if due setup.ttl c.last_at t.looked_at then probed setup t c else c

pub snapshot : Setup → ℕ → Tick Probe → Collector → Collector
snapshot setup asked t c = if due setup.ttl c.last_at asked then refresh setup t c else c
