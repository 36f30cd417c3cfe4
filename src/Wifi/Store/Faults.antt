-- ===== src/Wifi/Store/Faults.antt =====
-- host/internal/wifi/config.go: what is read back behind `Add` and `Remove` on a system whose calls may
-- fail.
use pispot.Base.{◌≡◌, false, some, List, arith, All, All-append, map}
use pispot.Go.Bytes.{Bytes}
use pispot.Go.Lines.{unlines}
use pispot.Go.Unicode.{Unicode}
use pispot.Result.{Result, ok, err}
use pispot.Wifi.Config.{Network, parse, render}
use pispot.Wifi.Config.Header.{IsHeader}
use pispot.Wifi.Config.Blocks.{IsStorable, stored}
use pispot.Wifi.Config.RoundTrip.{parse-render}
use pispot.Wifi.Store.{Files, Os, without_ssid, add, remove}
use pispot.Wifi.Store.Atomic.{Changes, Addable, Removable, added, add-Changes, remove-Changes}
use pispot.Wifi.Store.Refine.{All-without_ssid}

-- The configuration file is read as these lines of a header and these networks.
pub record Says (hs : List Bytes) (ns : List Network) (fs : Files) : Type 0 where
  pub contents : Bytes
  pub config : fs.config ≡ some contents
  pub read : parse contents ≡ record { networks = ns; header = unlines hs; failed = false }

-- With an error the file is what it was. Without one the networks read before were `Allowed`, and the
-- file is read as the same header and the `new` networks, each with its name and password as %q writes
-- them.
abbrev pub Leaves :
    Unicode
    → List Bytes
    → List Network
    → (List Network → List Network)
    → (List Network → Type 0)
    → Files
    → Result (Unit {0}) × Files
    → Type 0
Leaves u hs ns new Allowed fs (err _, fs') = fs'.config ≡ fs.config
Leaves u hs ns new Allowed fs (ok _, fs') = Allowed ns × Says hs (map (stored u) (new ns)) fs'

module _ (u : Unicode) (hs : List Bytes) (ns : List Network) (fs : Files) (header : IsHeader hs)
    (before : Says hs ns fs) where
  same_contents : (contents : Bytes) → fs.config ≡ some contents → contents ≡ before.contents
  same_contents contents h = let there = before.config in ground arith

  Changes-Leaves :
      (new : List Network → List Network) (Allowed : List Network → Type 0)
      (r : Result (Unit {0}) × Files)
      → All (IsStorable u) (new ns)
      → Changes u fs new Allowed r
      → Leaves u hs ns new Allowed fs r
  Changes-Leaves new Allowed (err _, fs') storable same = same
  Changes-Leaves new Allowed (ok _, fs') storable (contents, there, parsed, allowed, config') =
      let read : parse contents ≡ record { networks = ns; header = unlines hs; failed = false } =
        rw (same_contents contents there) before.read in
      (
        rw read at allowed,
        record {
          contents = render u (unlines hs) (new ns);
          config = rw read at config';
          read = parse-render u hs (new ns) header storable;
        },
      )

-- Whatever the operating system does, and however the file was written: where it is read as settled lines
-- of a header and networks, and these and the new one are short enough for the scanner and have names, an
-- `Add` that returns an error leaves the file as it was; one that succeeds has found no network of that
-- name, a name that is not blank and a password of 8 to 63 bytes, and then the file is read as the same
-- header and networks with the new one at the end, where each name and password is as %q writes it.
pub add-Leaves :
    (u : Unicode) (os : Os) (hs : List Bytes) (ns : List Network) (ssid psk : Bytes) (fs : Files)
    → IsHeader hs
    → Says hs ns fs
    → All (IsStorable u) ns
    → IsStorable u (record { ssid = ssid; psk = psk })
    → Leaves u hs ns (added ssid psk) (Addable ssid psk) fs (add u os ssid psk fs)
add-Leaves u os hs ns ssid psk fs header before storable new =
    Changes-Leaves u hs ns fs header before (added ssid psk) (Addable ssid psk) _
      (All-append (IsStorable u) ns _ storable (new, tt)) (add-Changes u os ssid psk fs)

-- The same of `Remove`: with an error the file is what it was; without one there was a network of that
-- name, and the file is read as the same header and the networks of every other name, in their order,
-- where each name and password is as %q writes it.
pub remove-Leaves :
    (u : Unicode) (os : Os) (hs : List Bytes) (ns : List Network) (ssid : Bytes) (fs : Files)
    → IsHeader hs
    → Says hs ns fs
    → All (IsStorable u) ns
    → Leaves u hs ns (without_ssid ssid) (Removable ssid) fs (remove u os ssid fs)
remove-Leaves u os hs ns ssid fs header before storable =
    Changes-Leaves u hs ns fs header before (without_ssid ssid) (Removable ssid) _
      (All-without_ssid (IsStorable u) ssid ns storable) (remove-Changes u os ssid fs)
