-- ===== src/Stats.antt =====
-- dashboard/internal/api/handlers.go: the sections of the statistics, copied from the collectors.
pub mod Interfaces
pub mod Request
use pispot.Base.{ℕ, Bool, false, Option, none, some, List, [], ◌∷◌, map, length}
use pispot.Admin
use pispot.Dashboard.Config.{Config}
use pispot.Go.Bytes.{Bytes, lit, equal}
use pispot.Go.Floats.{Floats}
use pispot.Go.Map.{Map}
use pispot.Go.Numbers.{ℤ, pos}
use pispot.Hotspot.Collector as HotspotCollector
use pispot.Hotspot.Stations.{Client}
use pispot.Http.{HttpResponse, text}
use pispot.Lazy.{Tick}
use pispot.Netstats
use pispot.Netstats.{InterfaceStats}
use pispot.Sysinfo.Collector as SystemCollector
use pispot.WanLink.Collector as WanCollector

pub record Interface (F : Type 0) : Type 0 where
  pub rx_mbps : F
  pub tx_mbps : F
  pub rx_total_bytes : ℕ
  pub tx_total_bytes : ℕ
  pub up : Bool

pub record HotspotClient : Type 0 where
  pub mac : Bytes
  pub ip : Bytes
  pub hostname : Bytes
  pub signal_dbm : ℤ
  pub connected_seconds : ℕ
  pub rx_bytes : ℕ
  pub tx_bytes : ℕ

pub record HotspotSummary : Type 0 where
  pub interface : Bytes
  pub client_count : ℕ
  pub clients : List HotspotClient
  pub error : Bytes

pub record WanSummary (F : Type 0) : Type 0 where
  pub interface : Bytes
  pub interface_present : Bool
  pub supplicant_active : Bool
  pub connected : Bool
  pub ssid : Bytes
  pub bssid : Bytes
  pub signal_dbm : ℤ
  pub freq_mhz : ℤ
  pub tx_bitrate_mbps : F
  pub ip : Bytes
  pub gateway : Bytes
  pub error : Bytes

pub record AdminSummary : Type 0 where
  pub interface : Bytes
  pub ip : Bytes
  pub gateway : Bytes
  pub link : Bool
  pub error : Bytes

pub record SystemSummary (F : Type 0) : Type 0 where
  pub load_1m : F
  pub load_5m : F
  pub load_15m : F
  pub mem_total_bytes : ℕ
  pub mem_used_bytes : ℕ
  pub temp_celsius : F
  pub throttled : Bool
  pub uptime_seconds : F
  pub error : Bytes

pub record Meta : Type 0 where
  pub hostname : Bytes
  pub uptime_seconds : ℕ
  pub commit : Bytes
  pub dirty : Bool
  pub build_time : Bytes
  pub role : Bytes

pub record Statistics (F : Type 0) : Type 0 where
  pub timestamp : ℕ
  pub interfaces : Map (Interface F)
  pub hotspot : HotspotSummary
  pub wan : WanSummary F
  pub admin : AdminSummary
  pub system : SystemSummary F
  pub meta : Meta

-- `snap.Err.Error()`, and no text without an error.
pub error_text : Option Bytes → Bytes
error_text none = []
error_text (some e) = e

pub client_json : Client → HotspotClient
client_json c = record {
  mac = c.mac;
  ip = c.ip;
  hostname = c.hostname;
  signal_dbm = c.signal_dbm;
  connected_seconds = c.connected_seconds;
  rx_bytes = c.rx_bytes;
  tx_bytes = c.tx_bytes;
}

pub hotspot_from : Bytes → Option HotspotCollector.Snapshot → HotspotSummary
hotspot_from iface none = record { interface = iface; client_count = 0; clients = []; error = [] }
hotspot_from iface (some snap) =
    let clients = map client_json snap.clients in
    record {
      interface = iface;
      client_count = length clients;
      clients = clients;
      error = error_text snap.failed;
    }

pub admin_from : Bytes → Option Admin.Snapshot → AdminSummary
admin_from iface none = record {
  interface = iface;
  ip = [];
  gateway = [];
  link = false;
  error = [];
}
admin_from iface (some snap) = record {
  interface = snap.info.interface;
  ip = snap.info.ip;
  gateway = snap.info.gateway;
  link = snap.info.link;
  error = error_text snap.failed;
}

-- The variables of internal/buildinfo, which the linker sets.
pub record Build : Type 0 where
  pub commit : Bytes
  pub dirty : Bytes
  pub build_time : Bytes

pub is_dirty : Build → Bool
is_dirty b = equal b.dirty (lit "true")

module _ {F : Type 0} (floats : Floats F) where
  pub wan_from : Bytes → Option (WanCollector.Snapshot F) → WanSummary F
  wan_from iface none = record {
    interface = iface;
    interface_present = false;
    supplicant_active = false;
    connected = false;
    ssid = [];
    bssid = [];
    signal_dbm = pos 0;
    freq_mhz = pos 0;
    tx_bitrate_mbps = floats.zero;
    ip = [];
    gateway = [];
    error = [];
  }
  wan_from iface (some snap) = record {
    interface = snap.info.interface;
    interface_present = snap.info.interface_present;
    supplicant_active = snap.info.supplicant_active;
    connected = snap.info.connected;
    ssid = snap.info.ssid;
    bssid = snap.info.bssid;
    signal_dbm = snap.info.signal_dbm;
    freq_mhz = snap.info.freq_mhz;
    tx_bitrate_mbps = snap.info.tx_bitrate_mbps;
    ip = snap.info.ip;
    gateway = snap.info.gateway;
    error = error_text snap.failed;
  }

  pub system_from : Option (SystemCollector.Snapshot F) → SystemSummary F
  system_from none = record {
    load_1m = floats.zero;
    load_5m = floats.zero;
    load_15m = floats.zero;
    mem_total_bytes = 0;
    mem_used_bytes = 0;
    temp_celsius = floats.zero;
    throttled = false;
    uptime_seconds = floats.zero;
    error = [];
  }
  system_from (some snap) = record {
    load_1m = snap.info.load_1m;
    load_5m = snap.info.load_5m;
    load_15m = snap.info.load_15m;
    mem_total_bytes = snap.info.mem_total_bytes;
    mem_used_bytes = snap.info.mem_used_bytes;
    temp_celsius = snap.info.temp_celsius;
    throttled = snap.info.throttled;
    uptime_seconds = snap.info.uptime_seconds;
    error = error_text snap.failed;
  }

pub interface_json : {F : Type 0} → InterfaceStats F → Interface F
interface_json v = record {
  rx_mbps = v.rx_mbps;
  tx_mbps = v.tx_mbps;
  rx_total_bytes = v.rx_total_bytes;
  tx_total_bytes = v.tx_total_bytes;
  up = v.up;
}

pub interfaces_from : {F : Type 0} → Option (Map (InterfaceStats F)) → Map (Interface F)
interfaces_from none = []
interfaces_from (some items) = map (λ entry. (entry.0, interface_json entry.1)) items
