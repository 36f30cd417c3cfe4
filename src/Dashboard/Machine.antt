-- ===== src/Dashboard/Machine.antt =====
-- What the collectors of pispot-ui read of the machine that it runs on: `New` of dashboard/internal/admin,
-- hotspot, wan, netstats, system and api.
pub mod Interfaces
use pispot.Base.{ℕ, Bool, Option, none, some, List, [], ◌∷◌, map, if◌then◌else◌}
use pispot.Admin
use pispot.Dashboard.Config.{Config}
use pispot.Go.Bytes.{Bytes, lit}
use pispot.Go.Floats.{Floats}
use pispot.Go.Numbers.{ℤ}
use pispot.Go.Space.{trim_space}
use pispot.Host.{Argv}
use pispot.Hotspot.Collector as HotspotCollector
use pispot.Ip.{Address, Route}
use pispot.Netstats
use pispot.Netstats.{filter_empty}
use pispot.Result.{Result, ok, err}
use pispot.Stats.{Build}
use pispot.Stats.Request.{Server, Setups}
use pispot.Sysinfo.Collector as SystemCollector
use pispot.Sysinfo.Zones.{Zone}
use pispot.WanLink.Collector as WanCollector

-- The machine at one time: os.ReadFile, whether its error is os.ErrNotExist, the error of os.Stat if there
-- is one, the output of a command, and filepath.Glob.
pub record Machine : Type 0 where
  pub read : Bytes → Result Bytes
  pub is_missing : Bytes → Bool
  pub stat : Bytes → Option Bytes
  pub output : Argv → Result Bytes
  pub glob : Bytes → Result (List Bytes)

-- filepath.Join and filepath.Dir.
pub record Paths : Type 0 where
  pub join : List Bytes → Bytes
  pub dir : Bytes → Bytes

trimmed : Result Bytes → Result Bytes
trimmed (err e) = err e
trimmed (ok b) = ok (trim_space b)

no_error : Option Bytes → Bool
no_error none = Bool.true
no_error (some e) = Bool.false

module _ (paths : Paths) (cfg : Config) (m : Machine) where
  net_path : List Bytes → Bytes
  net_path rest = paths.join (cfg.sys_path ∷ lit "class" ∷ lit "net" ∷ rest)

  -- `exists`, and `operstate` in front of its trimming.
  exists : Bytes → Bool
  exists name = no_error (m.stat (net_path (name ∷ [])))

  operstate : Bytes → Result Bytes
  operstate name = m.read (net_path (name ∷ lit "operstate" ∷ []))

  addresses : Bytes → Result Bytes
  addresses iface = m.output (lit "ip" ∷ lit "-j" ∷ lit "addr" ∷ lit "show" ∷ iface ∷ [])

  routes : Result Bytes
  routes = m.output (lit "ip" ∷ lit "-j" ∷ lit "route" ∷ lit "show" ∷ lit "default" ∷ [])

  pub admin_probe : Admin.Probe
  admin_probe = record {
    exists = exists cfg.admin_if;
    operstate = trimmed (operstate cfg.admin_if);
    addresses = addresses cfg.admin_if;
    routes = routes;
  }

  leases_of : Bytes → Result Bytes → HotspotCollector.Reading
  leases_of path (ok b) = HotspotCollector.contents b
  leases_of path (err e) =
      if m.is_missing path then HotspotCollector.missing else HotspotCollector.unreadable e

  pub hotspot_probe : HotspotCollector.Probe
  hotspot_probe = record {
    exists = exists cfg.hotspot_if;
    stations = m.output (lit "iw" ∷ lit "dev" ∷ cfg.hotspot_if ∷ lit "station" ∷ lit "dump" ∷ []);
    leases = leases_of cfg.leases_path (m.read cfg.leases_path);
  }

  -- What the files of the matches hold; none is read where the pattern fails.
  contents_of : Result (List Bytes) → List (Result Bytes)
  contents_of (err e) = []
  contents_of (ok matches) = map m.read matches

  pub wan_probe : WanCollector.Probe
  wan_probe = record {
    exists = exists cfg.wan_if;
    cmdlines = contents_of (m.glob (paths.join (cfg.proc_path ∷ lit "*/cmdline" ∷ [])));
    link = m.output (lit "iw" ∷ lit "dev" ∷ cfg.wan_if ∷ lit "link" ∷ []);
    addresses = addresses cfg.wan_if;
    routes = routes;
  }

  pub netstats_reading : ℕ → Netstats.Reading
  netstats_reading now = record {
    now = now;
    source = m.read (paths.join (cfg.proc_path ∷ lit "net" ∷ lit "dev" ∷ []));
    operstate = operstate;
  }

  thermal_root : Bytes
  thermal_root = paths.join (cfg.sys_path ∷ lit "class" ∷ lit "thermal" ∷ [])

  zones_of : Result (List Bytes) → Result (List Zone)
  zones_of (err e) = err e
  zones_of (ok matches) = ok (map (λ p. record { dir = paths.dir p; type = m.read p }) matches)

  pub system_reading : ℕ → SystemCollector.Reading
  system_reading now = record {
    now = now;
    load = m.read (paths.join (cfg.proc_path ∷ lit "loadavg" ∷ []));
    mem = m.read (paths.join (cfg.proc_path ∷ lit "meminfo" ∷ []));
    zones = zones_of (m.glob (paths.join (thermal_root ∷ lit "thermal_zone*" ∷ lit "type" ∷ [])));
    fallback_missing = m.stat (paths.join (thermal_root ∷ lit "thermal_zone0" ∷ lit "temp" ∷ []));
    read_temp = m.read;
    uptime = m.read (paths.join (cfg.proc_path ∷ lit "uptime" ∷ []));
  }

-- The interfaces that netstats samples.
pub sampled : Config → List Bytes
sampled cfg = filter_empty (cfg.hotspot_if ∷ cfg.wan_if ∷ cfg.admin_if ∷ [])

module _ {F : Type 0} (setups : Setups F) where
  -- `New` of the lazy collectors and of api at the time `now`, over what netstats and system show.
  pub new_server : Config → Build → ℕ → Netstats.Collector F → SystemCollector.Loop F → Server F
  new_server cfg build now ns sys = record {
    cfg = cfg;
    build = build;
    netstats = some ns.interfaces;
    hotspot = some (HotspotCollector.start setups.hotspot now);
    wan = some (WanCollector.start setups.wan now);
    admin = some (Admin.start setups.admin now);
    system = some sys.snap;
  }
