-- ===== src/Tests/Wifi.antt =====
-- The configuration file of host/internal/wifi/config_test.go, and what is done to it.
use mathlib.Core.Bool.{false≢true}
use pispot.Base.{
  ◌≡◌, refl, ◌≢◌, String, true, false, none, some, List, [], ◌∷◌, ◌++◌, arith, All, map,
}
use pispot.Go.Bytes.{
  Bytes, lit, equal, equal_iff, is_empty, has_prefix, trim_prefix, last_byte, drop_last, join_lines,
}
use pispot.Go.Space.{trim_space}
use pispot.Go.Lines.{scan_from, unlines}
use pispot.Go.Quote.{quote, quote_body, quoting}
use pispot.Go.Unicode.{Unicode}
use pispot.Result.{ok, err}
use pispot.Wifi.Config.{Network, parse, render, parsing}
use pispot.Wifi.Config.Blocks.{IsStorable, stored}
use pispot.Wifi.Config.Header.{IsHeader}
use pispot.Wifi.Config.RoundTrip.{parse-render}
use pispot.Wifi.Store.{Files, Os, without_ssid, add, remove, storing}
use pispot.Wifi.Store.Atomic.{Addable, Removable, added}
use pispot.Wifi.Store.Faults.{Says, Leaves, add-Leaves, remove-Leaves}
use pispot.Wifi.Store.Refine.{IsVerbatim, Holds, IsWorking, add-Holds, remove-Holds, remove-add}
use pispot.Wifi.Store.Quoting.{add_changed_name}

abbrev pub tables : Unicode
tables = record { is_print = λ r. false; to_lower = λ r. r }

abbrev pub network : String → String → Network
network ssid psk = record { ssid = lit ssid; psk = lit psk }

abbrev sample_config : Bytes
sample_config =
    lit
      "update_config=1\ncountry=US\n\nnetwork={\n    ssid=\"TestNetwork-A\"\n    psk=\"password-aaa\"\n}\n\nnetwork={\n    ssid=\"TestNetwork-B\"\n    psk=\"password-bbb\"\n}\n"

abbrev pub header : List Bytes
header = lit "update_config=1" ∷ lit "country=US" ∷ []

abbrev pub networks : List Network
networks = network "TestNetwork-A" "password-aaa" ∷ network "TestNetwork-B" "password-bbb" ∷ []

parse-sample_config :
    parse sample_config ≡ record { networks = networks; header = unlines header; failed = false }
unfolding parsing scan_from trim_space equal has_prefix trim_prefix last_byte drop_last join_lines
    unlines
parse-sample_config = refl

render-sample_config : render tables (unlines header) networks ≡ sample_config
unfolding parsing quoting unlines
render-sample_config = refl

pub header-IsHeader : IsHeader header
unfolding last_byte equal trim_space
header-IsHeader = record {
  lines = (
    record {
      line = record { no_newline = ground arith; fits = omega arith; no_cr = refl };
      outside = refl;
    },
    (
      record {
        line = record { no_newline = ground arith; fits = omega arith; no_cr = refl };
        outside = refl;
      },
      tt,
    ),
  );
  settled = refl;
}

networks-IsStorable : All (IsStorable tables) networks
unfolding quoting
networks-IsStorable = (
  record { named = refl; ssid_fits = omega arith; psk_fits = omega arith },
  (record { named = refl; ssid_fits = omega arith; psk_fits = omega arith }, tt),
)

parse-render_example :
    parse (render tables (unlines header) networks)
    ≡ record { networks = map (stored tables) networks; header = unlines header; failed = false }
parse-render_example = parse-render tables header networks header-IsHeader networks-IsStorable

-- A system whose calls all succeed, and one whose rename fails.
abbrev working : Os
working = record {
  read_error = none;
  not_exist = lit "no such file";
  write_error = none;
  rename_error = none;
  removes = true;
}

abbrev failing : Os
failing = record working { rename_error = some (lit "read-only") }

working-IsWorking : IsWorking working
working-IsWorking = record { reads = refl; writes = refl; renames = refl }

abbrev sample_files : Files
sample_files = record { config = some (render tables (unlines header) networks); temp = none }

pub networks-IsVerbatim : All (IsVerbatim tables) networks
unfolding quoting
networks-IsVerbatim = (
  record { storable = networks-IsStorable.0; ssid = refl; psk = refl },
  (record { storable = networks-IsStorable.1.0; ssid = refl; psk = refl }, tt),
)

sample-Holds : Holds tables header networks sample_files
sample-Holds = record { header = header-IsHeader; networks = networks-IsVerbatim; config = refl }

pub cafe-IsVerbatim : IsVerbatim tables (network "Cafe" "espresso!")
unfolding quoting
cafe-IsVerbatim = record {
  storable = record { named = refl; ssid_fits = omega arith; psk_fits = omega arith };
  ssid = refl;
  psk = refl;
}

pub cafe-Addable : Addable (lit "Cafe") (lit "espresso!") networks
unfolding equal trim_space storing
cafe-Addable = (refl, refl, omega arith, omega arith)

cafe_given : is_empty (trim_space (lit "espresso!")) ≡ false
unfolding trim_space
cafe_given = refl

-- A file written by hand, with a name that %q changes.
abbrev manual_config : Bytes
manual_config =
    lit
      "update_config=1\ncountry=US\nnetwork={\n  # the office\n  ssid=\"a\\b\"\n  key_mgmt=WPA-PSK\n  psk=\"password-aaa\"\n}\n"

abbrev manual_networks : List Network
manual_networks = network "a\\b" "password-aaa" ∷ []

abbrev manual_files : Files
manual_files = record { config = some manual_config; temp = none }

manual-Says : Says header manual_networks manual_files
unfolding parsing scan_from trim_space equal has_prefix trim_prefix last_byte drop_last join_lines
    unlines
manual-Says = record { contents = manual_config; config = refl; read = refl }

manual-IsStorable : All (IsStorable tables) manual_networks
unfolding quoting
manual-IsStorable = (record { named = refl; ssid_fits = omega arith; psk_fits = omega arith }, tt)

stored-manual : stored tables (network "a\\b" "password-aaa") ≡ network "a\\\\b" "password-aaa"
unfolding quoting
stored-manual = refl

add-Leaves_example :
    Leaves tables header manual_networks
      (added (lit "Cafe") (lit "espresso!"))
      (Addable (lit "Cafe") (lit "espresso!"))
      manual_files
      (add tables working (lit "Cafe") (lit "espresso!") manual_files)
add-Leaves_example =
    add-Leaves tables working header manual_networks (lit "Cafe") (lit "espresso!") manual_files
      header-IsHeader manual-Says manual-IsStorable cafe-IsVerbatim.storable

remove-Leaves_example :
    Leaves tables header manual_networks
      (without_ssid (lit "a\\b"))
      (Removable (lit "a\\b"))
      manual_files
      (remove tables failing (lit "a\\b") manual_files)
remove-Leaves_example =
    remove-Leaves tables failing header manual_networks (lit "a\\b") manual_files header-IsHeader
      manual-Says manual-IsStorable

add-Holds_example :
    ((add tables working (lit "Cafe") (lit "espresso!") sample_files).0 ≡ ok tt)
    × Holds tables header
        (added (lit "Cafe") (lit "espresso!") networks)
        (add tables working (lit "Cafe") (lit "espresso!") sample_files).1
add-Holds_example =
    add-Holds tables working header networks (lit "Cafe") (lit "espresso!") sample_files
      working-IsWorking sample-Holds cafe-IsVerbatim cafe-Addable cafe_given

first-Removable : Removable (lit "TestNetwork-A") networks
unfolding storing equal
first-Removable = refl

remove-Holds_example :
    ((remove tables working (lit "TestNetwork-A") sample_files).0 ≡ ok tt)
    × Holds tables header
        (without_ssid (lit "TestNetwork-A") networks)
        (remove tables working (lit "TestNetwork-A") sample_files).1
remove-Holds_example =
    remove-Holds tables working header networks (lit "TestNetwork-A") sample_files working-IsWorking
      sample-Holds first-Removable

remove-add_example :
    ((remove tables working
        (lit "Cafe")
        (add tables working (lit "Cafe") (lit "espresso!") sample_files).1).0
      ≡ ok tt)
    × Holds tables header networks
        (remove tables working
          (lit "Cafe")
          (add tables working (lit "Cafe") (lit "espresso!") sample_files).1).1
remove-add_example =
    remove-add tables working header networks (lit "Cafe") (lit "espresso!") sample_files
      working-IsWorking sample-Holds cafe-IsVerbatim cafe-Addable cafe_given

-- A name that holds a quotation mark.
abbrev quoted_name : Bytes
quoted_name = lit "Bob's \"home\""

quoted_name-IsStorable : IsStorable tables (record { ssid = quoted_name; psk = lit "espresso!" })
unfolding quoting
quoted_name-IsStorable = record { named = refl; ssid_fits = omega arith; psk_fits = omega arith }

quoted_name-Addable : Addable quoted_name (lit "espresso!") networks
unfolding equal trim_space storing
quoted_name-Addable = (refl, refl, omega arith, omega arith)

quoted_name_changes : quote_body tables 0 quoted_name ≢ quoted_name
unfolding quoting equal
quoted_name_changes e =
    let same : equal (quote_body tables 0 quoted_name) quoted_name ≡ true = (equal_iff _ _).1 e in
    false≢true same

add_changed_name_example :
    ((add tables working quoted_name (lit "espresso!") sample_files).0 ≡ ok tt)
    × (remove tables working quoted_name
          (add tables working quoted_name (lit "espresso!") sample_files).1
        ≡ (
          err (lit "network " ++ quote tables quoted_name ++ lit " not found"),
          (add tables working quoted_name (lit "espresso!") sample_files).1,
        ))
    × ((add tables working quoted_name
          (lit "espresso!")
          (add tables working quoted_name (lit "espresso!") sample_files).1).0
        ≡ ok tt)
add_changed_name_example =
    add_changed_name tables working header networks quoted_name (lit "espresso!") sample_files
      working-IsWorking sample-Holds quoted_name-IsStorable quoted_name-Addable cafe_given
      quoted_name_changes
