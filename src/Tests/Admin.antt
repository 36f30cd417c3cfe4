-- ===== src/Tests/Admin.antt =====
-- A collector on an interface that goes away and comes back, and whose addresses cannot be asked for.
use pispot.Base.{ℕ, ◌<◌, ◌+◌, true, false, some, List, [], ◌∷◌, arith}
use pispot.Admin.{Setup, Probe, snapshot}
use pispot.Lazy.{Tick, collect}
use pispot.Admin.Rate.{lazy, snapshot_is_fresh}
use pispot.Go.Bytes.{lit}
use pispot.Result.{ok, err}

abbrev pub setup : Setup
setup = record {
  iface = lit "eth0";
  ttl = 1_000_000_000;
  decode_addresses = λ raw. some (
      (record { family = lit "inet6"; local = lit "fe80::1" }
        ∷ record { family = lit "inet"; local = raw }
        ∷ [])
      ∷ []);
  decode_routes =
      λ raw. some (record { dst = lit "default"; gateway = raw; dev = lit "eth0" } ∷ []);
}

abbrev pub plugged : Probe
plugged = record {
  exists = true;
  operstate = ok (lit "up");
  addresses = ok (lit "192.168.1.7");
  routes = ok (lit "192.168.1.1");
}

abbrev pub unknown : Probe
unknown = record plugged { addresses = err (lit "exit status 1") }

abbrev gone : Probe
gone = record plugged { exists = false }

abbrev pub tick : ℕ → Probe → Tick Probe
tick now probe = record { looked_at = now; now = now; probe = probe }

-- The last of them first. The one at 1_500 million finds the snapshot young.
abbrev pub past : List (Tick Probe)
past =
    tick 5_000_000_000 unknown
    ∷ tick 4_000_000_000 plugged
    ∷ tick 2_500_000_000 gone
    ∷ tick 1_500_000_000 gone
    ∷ tick 1_000_000_000 plugged
    ∷ []

snapshot_is_fresh_example :
    5_500_000_000
    < (snapshot setup 5_500_000_000 (tick 5_500_000_000 gone) (collect (lazy setup 0) past)).snap.at
      + setup.ttl
snapshot_is_fresh_example =
    snapshot_is_fresh setup 0 past 5_500_000_000 (tick 5_500_000_000 gone) (omega arith)
      (omega arith) (omega arith)
