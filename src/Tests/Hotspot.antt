-- ===== src/Tests/Hotspot.antt =====
-- A lease file with a host that has no name and one that was given a second address.
use mathlib.Core.List.{Perm}
use mathlib.Core.List.Perm
use pispot.Hotspot.Collector.{Setup, contents, unreadable, Probe, listed}
use pispot.Hotspot.Collector.History.{Shows, collect-clients}
use pispot.Hotspot.Collector.Leased.{leased, row, listed-leased}
use pispot.Hotspot.Collector.Rate.{lazy}
use pispot.Lazy.{Tick, collect, effective}
use pispot.Result.{ok, err}
use pispot.Base.{true, ◌≡◌, refl, none, List, [], ◌∷◌, String, arith, All, map}
use pispot.Go.Bytes.{Bytes, lit, has_prefix}
use pispot.Go.Lines.{unlines}
use pispot.Go.Map.{lookup}
use pispot.Go.Space.Words.{join_words, is_word, is_word-IsWord}
use pispot.Hotspot.Leases.{parse_leases, leasing}
use pispot.Hotspot.Leases.Printed.{Lease, print_lease, IsPrintable, last_lease, lookup-parse_leases}
use pispot.Go.Lines.{scan_from}
use pispot.Go.Numbers.{negsuc}
use pispot.Hotspot.Stations.{buffer_size, new_client, parse_station_dump, listing}
use pispot.Hotspot.Stations.Order.{macs, stations, parse_station_dump-macs}
use pispot.Tests.Daemon.{tables}

abbrev lease : String → String → String → Lease
lease mac ip hostname = record {
  expiry = lit "1735689600";
  mac = lit mac;
  ip = lit ip;
  hostname = lit hostname;
  client_id = lit "*";
}

abbrev leases : List Lease
leases =
    lease "AA:BB:CC:00:00:01" "10.0.0.2" "laptop"
    ∷ lease "aa:bb:cc:00:00:02" "10.0.0.3" "*"
    ∷ lease "aa:bb:cc:00:00:01" "10.0.0.9" "laptop"
    ∷ []

leases-IsPrintable : All IsPrintable leases
unfolding print_lease join_words has_prefix is_word
leases-IsPrintable = (
  record {
    words_filled = (
      is_word-IsWord _ refl,
      (
        is_word-IsWord _ refl,
        (is_word-IsWord _ refl, (is_word-IsWord _ refl, (is_word-IsWord _ refl, tt))),
      ),
    );
    no_comment = refl;
    fits = omega arith;
  },
  (
    record {
      words_filled = (
        is_word-IsWord _ refl,
        (
          is_word-IsWord _ refl,
          (is_word-IsWord _ refl, (is_word-IsWord _ refl, (is_word-IsWord _ refl, tt))),
        ),
      );
      no_comment = refl;
      fits = omega arith;
    },
    (
      record {
        words_filled = (
          is_word-IsWord _ refl,
          (
            is_word-IsWord _ refl,
            (is_word-IsWord _ refl, (is_word-IsWord _ refl, (is_word-IsWord _ refl, tt))),
          ),
        );
        no_comment = refl;
        fits = omega arith;
      },
      tt,
    ),
  ),
)

lookup-parse_leases_example :
    lookup (lit "aa:bb:cc:00:00:01") (parse_leases tables (unlines (map print_lease leases)))
    ≡ last_lease tables (lit "aa:bb:cc:00:00:01") none leases
lookup-parse_leases_example =
    lookup-parse_leases tables (lit "aa:bb:cc:00:00:01") leases leases-IsPrintable

-- A comment, a short line, and two leases.
abbrev sample : Bytes
sample = lit "# duid\n\n1 x y\n7 Aa:01 10.0.0.2 * *\n 8\tbb:02  10.0.0.3 tv\n"

parse_leases-sample :
    parse_leases tables sample
    ≡ (lit "aa:01", record { ip = lit "10.0.0.2"; hostname = [] })
      ∷ (lit "bb:02", record { ip = lit "10.0.0.3"; hostname = lit "tv" })
      ∷ []
unfolding leasing
parse_leases-sample = refl

abbrev dump : Bytes
dump =
    lit
      "Station AA:01 (on wlan0)\n\trx bytes:\t10\n\tsignal:  \t-47 [-50, -49] dBm\nStation bb:02\n\ttx bytes: x\n"

parse_station_dump-dump :
    parse_station_dump tables dump
    ≡ record (new_client (lit "aa:01")) { rx_bytes = 10; signal_dbm = negsuc 46 }
      ∷ new_client (lit "bb:02")
      ∷ []
unfolding listing
parse_station_dump-dump = refl

parse_station_dump-macs_example :
    macs (parse_station_dump tables dump) ≡ stations tables (scan_from buffer_size [] dump).lines
parse_station_dump-macs_example = parse_station_dump-macs tables dump

-- An access point whose clients are shown in the order of the dump, and what its host answers.
abbrev pub point : Setup
point = record {
  unicode = tables;
  iface = lit "wlan0";
  ttl = 1_000_000_000;
  sort = λ cs. cs;
  sort-perm = λ cs. Perm.refl cs;
}

abbrev pub answering : Probe
answering = record {
  exists = true;
  stations = ok dump;
  leases = contents (unlines (map print_lease leases));
}

-- The last of them first.
abbrev pub past : List (Tick Probe)
past =
    record {
      looked_at = 4_000_000_000;
      now = 4_000_000_000;
      probe = record answering { leases = unreadable (lit "permission denied") };
    }
    ∷ record {
      looked_at = 2_500_000_000;
      now = 2_500_000_000;
      probe = record answering { stations = err (lit "exit status 1") };
    }
    ∷ record { looked_at = 1_000_000_000; now = 1_000_000_000; probe = answering }
    ∷ []

collect-clients_example : Shows point (effective (lazy point 0) past) (collect (lazy point 0) past)
collect-clients_example = collect-clients point 0 past

listed-leased_example :
    Perm
      (map row (listed point dump (contents (unlines (map print_lease leases)))))
      (map (leased tables leases) (stations tables (scan_from buffer_size [] dump).lines))
listed-leased_example = listed-leased point dump leases leases-IsPrintable
