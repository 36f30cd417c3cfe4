-- ===== src/Tests/Race.antt =====
-- Requests to add a network to the configuration file of host/internal/wifi/config_test.go at the same
-- time.
use pispot.Base.{ℕ, ◌≡◌, refl, [], ◌∷◌, arith}
use pispot.Go.Bytes.{lit, equal}
use pispot.Go.Lines.{unlines}
use pispot.Go.Quote.{quoting}
use pispot.Go.Space.{trim_space}
use pispot.Result.{ok, err}
use pispot.Schedule.Alone.{turns_of}
use pispot.Tests.Wifi.{
  tables, network, header, networks, header-IsHeader, networks-IsVerbatim, cafe-IsVerbatim,
  cafe-Addable,
}
use pispot.Wifi.Config.{Network, render}
use pispot.Wifi.Store.{storing}
use pispot.Wifi.Store.Atomic.{added}
use pispot.Wifi.Store.Race.{Change, answered, Texts, System, run}
use pispot.Wifi.Store.Race.Alone.{files, run-stored}
use pispot.Wifi.Store.Race.Outcome.{stored}
use pispot.Wifi.Store.Race.Lost.{both_read_first, shared_temp, run-lost, run-wiped}
use pispot.Wifi.Store.Race.Reads.{fresh, Fits, requests}
use pispot.Wifi.Store.Refine.{IsVerbatim, Holds}

abbrev texts : Texts
texts = record {
  unicode = tables;
  no_config = lit "no such file or directory";
  no_temp = lit "no such file or directory";
}

abbrev cafe : Network
cafe = network "Cafe" "espresso!"

abbrev hotel : Network
hotel = network "Hotel" "room-service"

abbrev library : Network
library = network "Library" "be-quiet"

hotel-IsVerbatim : IsVerbatim tables hotel
unfolding quoting
hotel-IsVerbatim = record {
  storable = record { named = refl; ssid_fits = omega arith; psk_fits = omega arith };
  ssid = refl;
  psk = refl;
}

library-IsVerbatim : IsVerbatim tables library
unfolding quoting
library-IsVerbatim = record {
  storable = record { named = refl; ssid_fits = omega arith; psk_fits = omega arith };
  ssid = refl;
  psk = refl;
}

cafe-Fits : Fits tables networks cafe
unfolding trim_space
cafe-Fits = record { verbatim = cafe-IsVerbatim; addable = cafe-Addable; given = refl }

hotel-Fits : Fits tables networks hotel
unfolding storing trim_space equal
hotel-Fits = record {
  verbatim = hotel-IsVerbatim;
  addable = (refl, refl, omega arith, omega arith);
  given = refl;
}

library-Fits : Fits tables [] library
unfolding storing trim_space equal
library-Fits = record {
  verbatim = library-IsVerbatim;
  addable = (refl, refl, omega arith, omega arith);
  given = refl;
}

-- The file, and a request for each of the three networks.
abbrev begun : System
begun = fresh (render tables (unlines header) networks)

abbrev three : ℕ → Change
three = requests (cafe ∷ hotel ∷ library ∷ [])

run-stored_example :
    ((run texts three (turns_of 0 6) begun).pc 0
      ≡ answered (stored texts (three 0) (files begun.shared)).0)
    × (files (run texts three (turns_of 0 6) begun).shared
        ≡ (stored texts (three 0) (files begun.shared)).1)
run-stored_example = run-stored texts three 0 begun refl

run-lost_example :
    let s = run texts (requests (cafe ∷ hotel ∷ [])) both_read_first begun in
    (s.pc 0 ≡ answered (ok tt))
    × (s.pc 1 ≡ answered (ok tt))
    × Holds tables header (added (lit "Hotel") (lit "room-service") networks) (files s.shared)
run-lost_example =
    run-lost texts header networks cafe hotel header-IsHeader networks-IsVerbatim cafe-Fits
      hotel-Fits

run-wiped_example :
    let s = run texts three shared_temp begun in
    (s.pc 0 ≡ answered (ok tt))
    × (s.pc 1 ≡ answered (err (lit "rename config: no such file or directory")))
    × (s.pc 2 ≡ answered (ok tt))
    × Holds tables [] (library ∷ []) (files s.shared)
run-wiped_example =
    run-wiped texts header networks cafe hotel library header-IsHeader networks-IsVerbatim cafe-Fits
      hotel-Fits library-Fits
