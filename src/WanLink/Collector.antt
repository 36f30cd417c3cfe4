-- ===== src/WanLink/Collector.antt =====
-- dashboard/internal/wan/collector.go: the collector of the WAN interface.
pub mod Rate
pub mod History
use pispot.Base.{
  ℕ, Bool, true, false, not, ◌||◌, ◌&&◌, Option, none, some, List, [], ◌∷◌, ◌++◌, if◌then◌else◌,
}
use pispot.Go.Bytes.{Bytes, lit, contains, equal}
use pispot.Go.Floats.{Floats}
use pispot.Go.Numbers.{ℤ, pos}
use pispot.Go.Unicode.{Unicode}
use pispot.Ip.{Address, Route}
use pispot.Lazy.{Tick, due}
use pispot.Result.{Result, ok, err}
use pispot.WanLink.{Link, parse_iw_link, parse_ip_addr, parse_ip_route}

pub record Info (F : Type 0) : Type 0 where
  pub interface : Bytes
  pub interface_present : Bool
  pub supplicant_active : Bool
  pub connected : Bool
  pub ssid : Bytes
  pub bssid : Bytes
  pub signal_dbm : ℤ
  pub freq_mhz : ℤ
  pub tx_bitrate_mbps : F
  pub ip : Bytes
  pub gateway : Bytes

-- `failed` is the text of `Err`, if there is one.
pub record Snapshot (F : Type 0) : Type 0 where
  pub at : ℕ
  pub info : Info F
  pub failed : Option Bytes

-- The interface, the age at which a snapshot is stale, and json.Unmarshal.
pub record Setup (F : Type 0) : Type 0 where
  pub unicode : Unicode
  pub floats : Floats F
  pub iface : Bytes
  pub ttl : ℕ
  pub decode_addresses : Bytes → Option (List (List Address))
  pub decode_routes : Bytes → Option (List Route)

-- What the host says to a refresh: os.Stat, the files cmdline of the processes, and the commands
-- `iw dev … link`, `ip -j addr show` and `ip -j route show default`.
pub record Probe : Type 0 where
  pub exists : Bool
  pub cmdlines : List (Result Bytes)
  pub link : Result Bytes
  pub addresses : Result Bytes
  pub routes : Result Bytes

-- A line of the log.
pub data Entry : Type 0 where
  absent : Entry
  present : Entry
  iw_failed : Bytes → Entry
  disconnected : Bytes → Entry
  connected_with : Bytes → ℤ → ℤ → Entry

-- The collector, and the lines that it logged, the last of them first.
pub record Collector (F : Type 0) : Type 0 where
  pub last_at : Option ℕ
  pub snap : Snapshot F
  pub prev_connected : Bool
  pub prev_ssid : Bytes
  pub prev_absent : Bool
  pub log : List Entry

names_supplicant : Bytes → Result Bytes → Bool
names_supplicant iface (err e) = false
names_supplicant iface (ok cmdline) =
    contains cmdline (lit "wpa_supplicant") && contains cmdline iface

-- The function `supplicant` of `New`.
pub supplicant_runs : Bytes → List (Result Bytes) → Bool
supplicant_runs iface [] = false
supplicant_runs iface (m ∷ ms) = names_supplicant iface m || supplicant_runs iface ms

module _ {F : Type 0} (setup : Setup F) where
  pub blank : Info F
  blank = record {
    interface = setup.iface;
    interface_present = false;
    supplicant_active = false;
    connected = false;
    ssid = [];
    bssid = [];
    signal_dbm = pos 0;
    freq_mhz = pos 0;
    tx_bitrate_mbps = setup.floats.zero;
    ip = [];
    gateway = [];
  }

  pub start : ℕ → Collector F
  start now = record {
    last_at = none;
    snap = record { at = now; info = blank; failed = none };
    prev_connected = false;
    prev_ssid = [];
    prev_absent = false;
    log = [];
  }

  store : Snapshot F → Collector F → Collector F
  store snap c = record c { snap = snap; last_at = some snap.at }

  pub store_success : ℕ → Info F → Collector F → Collector F
  store_success now info c = store (record { at = now; info = info; failed = none }) c

  -- What was known before is kept.
  pub store_failure : ℕ → Bytes → Collector F → Collector F
  store_failure now e c = store (record { at = now; info = c.snap.info; failed = some e }) c

  note_absent : Collector F → Collector F
  note_absent c = if c.prev_absent then c else record c { prev_absent = true; log = absent ∷ c.log }

  pub note_present : Collector F → Collector F
  note_present c =
      if c.prev_absent then record c { prev_absent = false; log = present ∷ c.log } else c

  pub note_disconnected : Collector F → Collector F
  note_disconnected c =
      if c.prev_connected
      then record c {
        prev_connected = false;
        prev_ssid = [];
        log = disconnected c.prev_ssid ∷ c.log;
      }
      else c

  pub note_connected : Link F → Collector F → Collector F
  note_connected link c =
      if not c.prev_connected || not (equal link.ssid c.prev_ssid)
      then record c {
        prev_connected = true;
        prev_ssid = link.ssid;
        log = connected_with link.ssid link.signal_dbm link.freq_mhz ∷ c.log;
      }
      else c

  -- The interface without an association.
  pub idle : Probe → Info F
  idle p = record blank {
    interface_present = true;
    supplicant_active = supplicant_runs setup.iface p.cmdlines;
  }

  -- The interface with its association and its addresses.
  pub joined : Probe → Link F → Bytes → Bytes → Info F
  joined p link addresses routes = record {
    interface = setup.iface;
    interface_present = true;
    supplicant_active = supplicant_runs setup.iface p.cmdlines;
    connected = true;
    ssid = link.ssid;
    bssid = link.bssid;
    signal_dbm = link.signal_dbm;
    freq_mhz = link.freq_mhz;
    tx_bitrate_mbps = link.tx_bitrate_mbps;
    ip = parse_ip_addr (setup.decode_addresses addresses);
    gateway = parse_ip_route setup.iface (setup.decode_routes routes);
  }

  pub with_routes : Tick Probe → Link F → Bytes → Result Bytes → Collector F → Collector F
  with_routes t link addresses (err e) c = store_failure t.now (lit "ip route: " ++ e) c
  with_routes t link addresses (ok routes) c =
      store_success t.now (joined t.probe link addresses routes) c

  pub with_addresses : Tick Probe → Link F → Result Bytes → Collector F → Collector F
  with_addresses t link (err e) c = store_failure t.now (lit "ip addr: " ++ e) c
  with_addresses t link (ok addresses) c = with_routes t link addresses t.probe.routes c

  -- Behind `parseIwLink`.
  pub with_link : Tick Probe → Link F → Collector F → Collector F
  with_link t link c =
      if link.connected
      then with_addresses t link t.probe.addresses (note_connected link c)
      else store_success t.now (idle t.probe) (note_disconnected c)

  -- Behind the command `iw`.
  pub with_iw : Tick Probe → Result Bytes → Collector F → Collector F
  with_iw t (err e) c =
      store_failure t.now (lit "iw: " ++ e) (record c { log = iw_failed e ∷ c.log })
  with_iw t (ok raw) c = with_link t (parse_iw_link setup.floats setup.unicode raw) c

  pub without_interface : Tick Probe → Collector F → Collector F
  without_interface t c =
      store (record { at = t.now; info = blank; failed = some (lit "interface absent") })
        (note_absent c)

  -- `refresh` behind its second look at the clock.
  pub probed : Tick Probe → Collector F → Collector F
  probed t c =
      if t.probe.exists then with_iw t t.probe.link (note_present c) else without_interface t c

  pub refresh : Tick Probe → Collector F → Collector F
  refresh t c = if due setup.ttl c.last_at t.looked_at then probed t c else c

  pub snapshot : ℕ → Tick Probe → Collector F → Collector F
  snapshot asked t c = if due setup.ttl c.last_at asked then refresh t c else c
