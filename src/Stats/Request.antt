-- ===== src/Stats/Request.antt =====
-- dashboard/internal/api/handlers.go: `Stats`, with the calls of the collectors, and `Healthz`.
pub mod History
use pispot.Base.{ℕ, ◌≡◌, refl, Bool, false, Option, none, some, List, [], ◌∷◌, map, length}
use pispot.Admin
use pispot.Dashboard.Config.{Config}
use pispot.Go.Bytes.{Bytes, lit, equal}
use pispot.Go.Floats.{Floats}
use pispot.Go.Map.{Map}
use pispot.Go.Numbers.{ℤ, pos}
use pispot.Hotspot.Collector as HotspotCollector
use pispot.Hotspot.Stations.{Client}
use pispot.Http.{HttpResponse, text}
use pispot.Lazy.{Tick}
use pispot.Netstats
use pispot.Netstats.{InterfaceStats}
use pispot.Sysinfo.Collector as SystemCollector
use pispot.WanLink.Collector as WanCollector
use pispot.Stats.{
  Interface, HotspotSummary, WanSummary, AdminSummary, SystemSummary, Meta, Statistics, Build,
  is_dirty, hotspot_from, admin_from, wan_from, system_from, interfaces_from,
}

-- `Server`: its collectors, some of which may be nil; of those that run by themselves, what they show.
pub record Server (F : Type 0) : Type 0 where
  pub cfg : Config
  pub build : Build
  pub netstats : Option (Map (InterfaceStats F))
  pub hotspot : Option HotspotCollector.Collector
  pub wan : Option (WanCollector.Collector F)
  pub admin : Option Admin.Collector
  pub system : Option (SystemCollector.Snapshot F)

-- With what the lazy collectors were set up.
pub record Setups (F : Type 0) : Type 0 where
  pub floats : Floats F
  pub hotspot : HotspotCollector.Setup
  pub wan : WanCollector.Setup F
  pub admin : Admin.Setup

-- One call of a lazy collector: when it was asked, and what its refresh would meet.
pub record Asked (P : Type 0) : Type 0 where
  pub at : ℕ
  pub tick : Tick P

-- A request: the calls of the collectors, and what else the handler asks for.
pub record Visit : Type 0 where
  pub hotspot : Asked HotspotCollector.Probe
  pub wan : Asked WanCollector.Probe
  pub admin : Asked Admin.Probe
  pub unix_time : ℕ
  pub seconds_up : ℕ
  pub hostname : Bytes
  pub role : Bytes

-- `Snapshot` of a collector that is not nil.
consulted : {C P : Type 0} → (ℕ → Tick P → C → C) → Asked P → Option C → Option C
consulted snapshot asked none = none
consulted snapshot asked (some c) = some (snapshot asked.at asked.tick c)

shown : {C S : Type 0} → (C → S) → Option C → Option S
shown snap none = none
shown snap (some c) = some (snap c)

module _ {F : Type 0} (setups : Setups F) where
  -- The server with its lazy collectors behind the request.
  consult : Visit → Server F → Server F
  consult v s = record s {
    hotspot = consulted (HotspotCollector.snapshot setups.hotspot) v.hotspot s.hotspot;
    wan = consulted (WanCollector.snapshot setups.wan) v.wan s.wan;
    admin = consulted (Admin.snapshot setups.admin) v.admin s.admin;
  }

  -- What the collectors show now.
  collected : Visit → Server F → Statistics F
  collected v s = record {
    timestamp = v.unix_time;
    interfaces = interfaces_from s.netstats;
    hotspot = hotspot_from s.cfg.hotspot_if (shown (λ c. c.snap) s.hotspot);
    wan = wan_from setups.floats s.cfg.wan_if (shown (λ c. c.snap) s.wan);
    admin = admin_from s.cfg.admin_if (shown (λ c. c.snap) s.admin);
    system = system_from setups.floats s.system;
    meta = record {
      hostname = v.hostname;
      uptime_seconds = v.seconds_up;
      commit = s.build.commit;
      dirty = is_dirty s.build;
      build_time = s.build.build_time;
      role = v.role;
    };
  }

  -- The value that is encoded, and the server behind the request.
  pub stats : Visit → Server F → Statistics F × Server F
  stats v s = let s' = consult v s in (collected v s', s')

pub stats_interfaces :
    {F : Type 0} (setups : Setups F) (v : Visit) (s : Server F)
    → (stats setups v s).0.interfaces ≡ interfaces_from s.netstats
unfolding stats collected consult
stats_interfaces setups v s = refl

pub healthz : HttpResponse
healthz = record {
  status = 200;
  headers = (lit "Content-Type", lit "text/plain; charset=utf-8") ∷ [];
  body = text (lit "ok\n");
}
