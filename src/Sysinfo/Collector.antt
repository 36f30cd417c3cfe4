-- ===== src/Sysinfo/Collector.antt =====
-- dashboard/internal/system/info.go: the collector, which samples once a second.
pub mod Health
pub mod Throttle
use pispot.Base.{
  ℕ, Bool, true, false, not, ◌&&◌, ◌||◌, Option, none, some, List, [], ◌∷◌, ◌++◌, if◌then◌else◌,
}
use pispot.Go.Bytes.{Bytes, lit}
use pispot.Go.Floats.{Floats}
use pispot.Go.Unicode.{Unicode}
use pispot.Result.{Result, ok, err, wrap}
use pispot.Sysinfo.{parse_loadavg, parse_meminfo, parse_temp_millideg, parse_uptime}
use pispot.Sysinfo.Zones.{Zone, select_thermal_zone}

pub record Info (F : Type 0) : Type 0 where
  pub load_1m : F
  pub load_5m : F
  pub load_15m : F
  pub mem_total_bytes : ℕ
  pub mem_used_bytes : ℕ
  pub temp_celsius : F
  pub throttled : Bool
  pub uptime_seconds : F

-- `failed` is the text of `Err`, if there is one.
pub record Snapshot (F : Type 0) : Type 0 where
  pub at : ℕ
  pub info : Info F
  pub failed : Option Bytes

-- `int_error` gives the text of an error of strconv.ParseInt.
pub record Setup (F : Type 0) : Type 0 where
  pub unicode : Unicode
  pub floats : Floats F
  pub int_error : Bytes → Bytes
  pub thermal_root : Bytes

-- What the clock and the host say to a tick. `read_temp` gives what a file holds.
pub record Reading : Type 0 where
  pub now : ℕ
  pub load : Result Bytes
  pub mem : Result Bytes
  pub zones : Result (List Zone)
  pub fallback_missing : Option Bytes
  pub read_temp : Bytes → Result Bytes
  pub uptime : Result Bytes

and_then : {A : Type 0} → (Bytes → Result A) → Result Bytes → Result A
and_then parse (err e) = err e
and_then parse (ok raw) = parse raw

pub error_of : {A : Type 0} → Result A → List Bytes
error_of (err e) = e ∷ []
error_of (ok a) = []

-- strings.Join(errs, "; ")
join : Bytes → List Bytes → Bytes
join first [] = first
join first (e ∷ es) = first ++ lit "; " ++ join e es

pub failure : List Bytes → Option Bytes
failure [] = none
failure (e ∷ es) = some (join e es)

module _ {F : Type 0} (setup : Setup F) where
  pub load_of : Reading → Result (F × F × F)
  load_of r = wrap (lit "loadavg: ") (and_then (parse_loadavg setup.floats) r.load)

  pub mem_of : Reading → Result (ℕ × ℕ)
  mem_of r = wrap (lit "meminfo: ") (and_then parse_meminfo r.mem)

  -- `readTemp` of `New`, and what is made of it.
  pub temp_of : Reading → Result F
  temp_of r = wrap (lit "temp: ") (
      and_then (parse_temp_millideg setup.floats setup.int_error) (
        and_then r.read_temp
          (select_thermal_zone setup.unicode setup.thermal_root r.zones r.fallback_missing)))

  pub uptime_of : Reading → Result F
  uptime_of r = wrap (lit "uptime: ") (and_then (parse_uptime setup.floats) r.uptime)

  pub no_info : Info F
  no_info = record {
    load_1m = setup.floats.zero;
    load_5m = setup.floats.zero;
    load_15m = setup.floats.zero;
    mem_total_bytes = 0;
    mem_used_bytes = 0;
    temp_celsius = setup.floats.zero;
    throttled = false;
    uptime_seconds = setup.floats.zero;
  }

  with_load : Result (F × F × F) → Info F → Info F
  with_load (err e) info = info
  with_load (ok (l1, l5, l15)) info = record info { load_1m = l1; load_5m = l5; load_15m = l15 }

  with_mem : Result (ℕ × ℕ) → Info F → Info F
  with_mem (err e) info = info
  with_mem (ok (total, used)) info = record info { mem_total_bytes = total; mem_used_bytes = used }

  with_temp : Result F → Info F → Info F
  with_temp (err e) info = info
  with_temp (ok temp) info = record info {
    temp_celsius = temp;
    throttled = setup.floats.is_hot temp;
  }

  with_uptime : Result F → Info F → Info F
  with_uptime (err e) info = info
  with_uptime (ok u) info = record info { uptime_seconds = u }

  -- `tick`, with what the four sources gave.
  gathered : ℕ → Result (F × F × F) → Result (ℕ × ℕ) → Result F → Result F → Snapshot F
  gathered now load mem temp uptime = record {
    at = now;
    info = with_uptime uptime (with_temp temp (with_mem mem (with_load load no_info)));
    failed = failure (error_of load ++ error_of mem ++ error_of temp ++ error_of uptime);
  }

  pub tick : Reading → Snapshot F
  tick r = gathered r.now (load_of r) (mem_of r) (temp_of r) (uptime_of r)

-- A line of the log.
pub data Entry (F : Type 0) : Type 0 where
  hot : F → Entry F
  cool : F → Entry F

-- The snapshot, the variable of `Run`, and the lines that it logged, the last of them first.
pub record Loop (F : Type 0) : Type 0 where
  pub snap : Snapshot F
  pub prev_throttled : Bool
  pub log : List (Entry F)

entry : {F : Type 0} → Info F → Entry F
entry info = if info.throttled then hot info.temp_celsius else cool info.temp_celsius

differ : Bool → Bool → Bool
differ a b = a && not b || not a && b

-- What follows a tick in the loop.
note : {F : Type 0} → Loop F → Loop F
note l =
    if differ l.snap.info.throttled l.prev_throttled
    then record l { prev_throttled = l.snap.info.throttled; log = entry l.snap.info ∷ l.log }
    else l

-- `newWithDeps` and `Run`, behind a row of ticks, the last of them first. Nothing is logged behind the
-- first.
pub run : {F : Type 0} → Setup F → ℕ → List Reading → Loop F
run setup began [] = record {
  snap = record { at = began; info = no_info setup; failed = none };
  prev_throttled = false;
  log = [];
}
run setup began (r ∷ []) = record (run setup began []) { snap = tick setup r }
run setup began (r ∷ q ∷ past) = note (record (run setup began (q ∷ past)) { snap = tick setup r })
