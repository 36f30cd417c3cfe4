-- ===== src/Tests/Metrics.antt =====
-- What a host tells of itself and of its interfaces. A number stands for a fraction.
use pispot.Base.{ℕ, ◌≡◌, none, List, [], ◌∷◌}
use pispot.Go.Bytes.{Bytes, lit}
use pispot.Go.Lines.{scan}
use pispot.Result.{ok, err}
use pispot.Sysinfo.{parse_meminfo}
use pispot.Sysinfo.Collector.{Setup}
use pispot.Sysinfo.Memory.{Measured, parse_meminfo-Measured}
use pispot.Sysinfo.Zones.{Zone, select_thermal_zone, preferred, select_thermal_zone-preferred}
use pispot.Tests.Daemon.{tables}
use pispot.Tests.WanLink.{floats}

abbrev meminfo : Bytes
meminfo = lit "MemTotal:        8000 kB\nMemFree:         1000 kB\nMemAvailable:    6000 kB\n"

parse_meminfo-Measured_example : Measured (scan meminfo).lines (parse_meminfo meminfo)
parse_meminfo-Measured_example = parse_meminfo-Measured meminfo

abbrev zones : List Zone
zones =
    record { dir = lit "/t/thermal_zone0"; type = err (lit "permission denied") }
    ∷ record { dir = lit "/t/thermal_zone1"; type = ok (lit "CPU-x\n") }
    ∷ record { dir = lit "/t/thermal_zone2"; type = ok (lit "cpu-thermal\n") }
    ∷ []

select_thermal_zone-preferred_example :
    select_thermal_zone tables (lit "/t") (ok zones) none ≡ preferred tables (lit "/t") zones none
select_thermal_zone-preferred_example = select_thermal_zone-preferred tables (lit "/t") zones none

abbrev pub host : Setup ℕ
host = record {
  unicode = tables;
  floats = floats;
  int_error = λ s. lit "invalid syntax";
  thermal_root = lit "/t";
}
