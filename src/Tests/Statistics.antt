-- ===== src/Tests/Statistics.antt =====
-- A request for the statistics of three collectors that have refreshed before.
use pispot.Base.{ℕ, ◌≡◌, true, none, some, List, [], ◌∷◌, ◌++◌, if◌then◌else◌}
use pispot.Dashboard.Config.{Config, load}
use pispot.Dashboard.Machine.{Machine, Paths, sampled, new_server}
use pispot.Dashboard.Machine.Interfaces.{configured, readings, stats-configured}
use pispot.Go.Bytes.{Bytes, lit, equal}
use pispot.Go.Map.{lookup}
use pispot.Netstats
use pispot.Netstats.History.{shown}
use pispot.Result.{ok, err}
use pispot.Stats.{interface_json}
use pispot.Stats.Request.{Setups, Server, Visit, stats}
use pispot.Stats.Request.History.{Histories, with_histories, later, Tells, stats-Tells}
use pispot.Sysinfo.Collector as SystemCollector
use pispot.Tests.Admin as AdminTests
use pispot.Tests.Daemon.{tables}
use pispot.Tests.Hotspot as HotspotTests
use pispot.Tests.Metrics.{host}
use pispot.Tests.Settings.{secured}
use pispot.Tests.WanLink as WanTests

abbrev setups : Setups ℕ
setups = record {
  floats = WanTests.floats;
  hotspot = HotspotTests.point;
  wan = WanTests.upstream;
  admin = AdminTests.setup;
}

abbrev histories : Histories
histories = record {
  began = 0;
  hotspot = HotspotTests.past;
  wan = WanTests.past;
  admin = AdminTests.past;
}

abbrev server : Server ℕ
server = record {
  cfg = load tables secured;
  build = record { commit = lit "abc1234"; dirty = lit "false"; build_time = lit "unknown" };
  netstats = some [];
  hotspot = none;
  wan = none;
  admin = none;
  system = none;
}

abbrev visit : Visit
visit = record {
  hotspot = record {
    at = 6_000_000_000;
    tick = record {
      looked_at = 6_000_000_000;
      now = 6_000_000_000;
      probe = HotspotTests.answering;
    };
  };
  wan = record {
    at = 6_000_000_000;
    tick = record { looked_at = 6_000_000_000; now = 6_000_000_000; probe = WanTests.linked };
  };
  admin = record { at = 6_000_000_000; tick = AdminTests.tick 6_000_000_000 AdminTests.plugged };
  unix_time = 1_767_225_600;
  seconds_up = 6;
  hostname = lit "pispot";
  role = lit "readonly";
}

stats-Tells_example :
    let (a, s') = stats setups visit (with_histories setups histories server) in
    (s' ≡ with_histories setups (later setups visit histories) server)
    × Tells setups (later setups visit histories) a
stats-Tells_example = stats-Tells setups visit histories server

-- Paths without anything to clean, and a machine whose wired interface has passed some bytes.
abbrev joined : List Bytes → Bytes
joined [] = []
joined (p ∷ []) = p
joined (p ∷ q ∷ ps) = p ++ (lit "/" ++ joined (q ∷ ps))

abbrev paths : Paths
paths = record { join = joined; dir = λ p. p }

abbrev passing : Bytes → Machine
passing counters = record {
  read = λ path.
      if equal path (lit "/host/proc/net/dev")
      then ok (lit "eth0: " ++ counters)
      else err (lit "no such file or directory");
  is_missing = λ path. true;
  stat = λ path. none;
  output = λ argv. err (lit "exit status 1");
  glob = λ pattern. ok [];
}

abbrev wired : Config
wired = record (load tables secured) {
  proc_path = lit "/host/proc";
  wan_if = [];
  admin_if = lit "eth0";
}

abbrev ticks : List (ℕ × Machine)
ticks =
    (2_000_000_000, passing (lit "500 0 0 0 0 0 0 0 900 0 0 0 0 0 0 0\n"))
    ∷ (1_000_000_000, passing (lit "100 0 0 0 0 0 0 0 300 0 0 0 0 0 0 0\n"))
    ∷ []

abbrev sampled_stats : Netstats.Collector ℕ
sampled_stats = Netstats.run setups.floats (sampled wired) 0 (readings paths wired ticks)

abbrev quiet : SystemCollector.Loop ℕ
quiet = SystemCollector.run host 0 []

stats-configured_example :
    lookup
      (lit "eth0")
      (stats setups visit (new_server setups wired server.build 0 sampled_stats quiet)).0.interfaces
    ≡ (if configured wired (lit "eth0")
        then some (interface_json (shown setups.floats (readings paths wired ticks) (lit "eth0")))
        else none)
stats-configured_example =
    stats-configured setups paths wired server.build 0 0 ticks quiet visit (lit "eth0")
