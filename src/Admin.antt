-- ===== src/Admin.antt =====
-- dashboard/internal/admin/eth.go: the collector of the administration interface.
pub mod Rate
pub mod History
pub mod Log
use pispot.Base.{
  ℕ, ◌+◌, Bool, true, false, not, ◌||◌, ◌&&◌, Option, none, some, List, [], ◌∷◌, ◌++◌,
  if◌then◌else◌, leb,
}
use pispot.Go.Bytes.{Bytes, lit, equal, is_empty}
use pispot.Ip.{Address, Route, first_address, first_gateway}
use pispot.Lazy.{Tick, due}
use pispot.Result.{Result, ok, err}

pub record Info : Type 0 where
  pub interface : Bytes
  pub ip : Bytes
  pub gateway : Bytes
  pub link : Bool

-- `failed` is the text of `Err`, if there is one.
pub record Snapshot : Type 0 where
  pub at : ℕ
  pub info : Info
  pub failed : Option Bytes

-- The interface, the age at which a snapshot is stale, and json.Unmarshal.
pub record Setup : Type 0 where
  pub iface : Bytes
  pub ttl : ℕ
  pub decode_addresses : Bytes → Option (List (List Address))
  pub decode_routes : Bytes → Option (List Route)

-- What the host says to a refresh: os.Stat, the file operstate, and the commands
-- `ip -j addr show` and `ip -j route show default`.
pub record Probe : Type 0 where
  pub exists : Bool
  pub operstate : Result Bytes
  pub addresses : Result Bytes
  pub routes : Result Bytes

-- A line of the log.
pub data Entry : Type 0 where
  absent : Entry
  present : Entry
  changed : Bool → Bytes → Bytes → Entry

-- The collector, and the lines that it logged, the last of them first. `last_at` is none for the zero
-- time.
pub record Collector : Type 0 where
  pub last_at : Option ℕ
  pub snap : Snapshot
  pub prev_link : Bool
  pub prev_ip : Bytes
  pub prev_absent : Bool
  pub log : List Entry

pub address_of : Option (List (List Address)) → Bytes
address_of none = []
address_of (some doc) = first_address doc

gateway_of : Bytes → Option (List Route) → Bytes
gateway_of iface none = []
gateway_of iface (some doc) = first_gateway iface doc

-- `parseIPRoute`, if the command worked.
pub route_gateway : Setup → Result Bytes → Bytes
route_gateway setup (err e) = []
route_gateway setup (ok out) = gateway_of setup.iface (setup.decode_routes out)

-- `opErr == nil && state == "up"`
pub is_up : Result Bytes → Bool
is_up (err e) = false
is_up (ok state) = equal state (lit "up")

operstate_error : Result Bytes → Option Bytes
operstate_error (err e) = some (lit "operstate: " ++ e)
operstate_error (ok state) = none

address_error : Bytes → Result Bytes → Bytes
address_error e (ok state) = lit "ip addr: " ++ e
address_error e (err e') = (lit "ip addr: " ++ e) ++ (lit "; operstate: " ++ e')

pub blank : Bytes → Info
blank iface = record { interface = iface; ip = []; gateway = []; link = false }

-- The first state of a collector, at the time `now`.
pub start : Setup → ℕ → Collector
start setup now = record {
  last_at = none;
  snap = record { at = now; info = blank setup.iface; failed = none };
  prev_link = false;
  prev_ip = [];
  prev_absent = false;
  log = [];
}

store : Snapshot → Collector → Collector
store snap c = record c { snap = snap; last_at = some snap.at }

-- The interface is not there.
pub note_absent : Collector → Collector
note_absent c = if c.prev_absent then c else record c { prev_absent = true; log = absent ∷ c.log }

pub note_present : Collector → Collector
note_present c =
    if c.prev_absent then record c { prev_absent = false; log = present ∷ c.log } else c

-- `!=` on bool
abbrev differ : Bool → Bool → Bool
differ true b = not b
differ false b = b

note_change : Info → Collector → Collector
note_change info c =
    if differ info.link c.prev_link || not (equal info.ip c.prev_ip)
    then record c {
      prev_link = info.link;
      prev_ip = info.ip;
      log = changed info.link info.ip info.gateway ∷ c.log;
    }
    else c

-- Behind the command for the addresses.
pub with_addresses : Setup → Tick Probe → Result Bytes → Collector → Collector
with_addresses setup t (err e) c =
    store
      (record {
        at = t.now;
        info = record {
          interface = setup.iface;
          ip = c.snap.info.ip;
          gateway = c.snap.info.gateway;
          link = is_up t.probe.operstate;
        };
        failed = some (address_error e t.probe.operstate);
      })
      c
with_addresses setup t (ok out) c =
    let info : Info = record {
      interface = setup.iface;
      ip = address_of (setup.decode_addresses out);
      gateway = route_gateway setup t.probe.routes;
      link = is_up t.probe.operstate;
    } in
    store (record { at = t.now; info = info; failed = operstate_error t.probe.operstate })
      (note_change info c)

pub without_interface : Setup → Tick Probe → Collector → Collector
without_interface setup t c =
    store (record { at = t.now; info = blank setup.iface; failed = some (lit "interface absent") })
      (note_absent c)

-- `refresh` behind its second look at the clock.
pub probed : Setup → Tick Probe → Collector → Collector
probed setup t c =
    if t.probe.exists
    then with_addresses setup t t.probe.addresses (note_present c)
    else without_interface setup t c

pub refresh : Setup → Tick Probe → Collector → Collector
refresh setup t c = if due setup.ttl c.last_at t.looked_at then probed setup t c else c

-- `Snapshot`, asked at the time `asked`, by itself: no other call comes between its look at the clock
-- and that of `refresh`.
pub snapshot : Setup → ℕ → Tick Probe → Collector → Collector
snapshot setup asked t c = if due setup.ttl c.last_at asked then refresh setup t c else c
