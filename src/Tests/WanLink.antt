-- ===== src/Tests/WanLink.antt =====
-- dashboard/internal/wan/collector.go at a concrete input: an association that is lost. A number stands
-- for a fraction: the sum of the bytes of its text.
use pispot.Base.{ℕ, ◌≡◌, true, false, not, ◌&&◌, some, List, [], ◌∷◌, ◌+◌}
use pispot.Go.Bytes.{Bytes, lit}
use pispot.Go.Floats.{Floats}
use pispot.Go.Lines.{scan_from}
use pispot.Go.Numbers.{pos}
use pispot.Lazy.{Tick, collect, effective}
use pispot.Result.{ok, err}
use pispot.Tests.Daemon.{tables}
use pispot.WanLink.{parse_iw_link, not_connected, connected_to, buffer_size}
use pispot.WanLink.Association.{some_line, parse_iw_link-connected}
use pispot.WanLink.Collector.{Setup, Probe}
use pispot.WanLink.Collector.History.{Shows, collect-view}
use pispot.WanLink.Collector.Rate.{lazy}

pub total : Bytes → ℕ
total [] = 0
total (c ∷ cs) = c + total cs

abbrev pub floats : Floats ℕ
floats = record {
  zero = 0;
  parse_float = λ s. ok (total s);
  to_int = λ n. pos n;
  thousandth = λ n. 0;
  is_hot = λ n. false;
  megabits_per_second = λ bytes nanoseconds. bytes;
}

abbrev association : Bytes
association =
    lit
      "Connected to AA:BB:CC:00:00:09 (on wlan1)\n\tSSID: Cafe\n\tfreq: 5180.0\n\tsignal: -52 dBm\n"

parse_iw_link-connected_example :
    (parse_iw_link floats tables association).connected
    ≡ not (some_line not_connected (scan_from buffer_size [] association).lines)
      && some_line connected_to (scan_from buffer_size [] association).lines
parse_iw_link-connected_example = parse_iw_link-connected floats tables association

abbrev pub upstream : Setup ℕ
upstream = record {
  unicode = tables;
  floats = floats;
  iface = lit "wlan1";
  ttl = 1_000_000_000;
  decode_addresses = λ raw. some ((record { family = lit "inet"; local = raw } ∷ []) ∷ []);
  decode_routes =
      λ raw. some (record { dst = lit "default"; gateway = raw; dev = lit "wlan1" } ∷ []);
}

abbrev pub linked : Probe
linked = record {
  exists = true;
  cmdlines = err (lit "gone") ∷ ok (lit "wpa_supplicant -i wlan1") ∷ [];
  link = ok association;
  addresses = ok (lit "10.1.2.3");
  routes = ok (lit "10.1.2.1");
}

-- The last of them first.
abbrev pub past : List (Tick Probe)
past =
    record {
      looked_at = 4_000_000_000;
      now = 4_000_000_000;
      probe = record linked { routes = err (lit "exit status 1") };
    }
    ∷ record {
      looked_at = 2_500_000_000;
      now = 2_500_000_000;
      probe = record linked { link = ok (lit "Not connected.\n") };
    }
    ∷ record { looked_at = 1_000_000_000; now = 1_000_000_000; probe = linked }
    ∷ []

collect-view_example :
    Shows upstream (effective (lazy upstream 0) past) (collect (lazy upstream 0) past)
collect-view_example = collect-view upstream 0 past
