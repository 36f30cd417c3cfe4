-- ===== src/Wifi/Store/Quoting.antt =====
-- A name that %q changes is stored in its quoted form, which `parse` does not undo.
use pispot.Base.{
  ◌≡◌, refl, sym, ap, subst, ◌∙◌, ◌≢◌, false, ◌||◌, some, List, [], ◌∷◌, ◌++◌, arith, length, ltb,
  All, All-append, map,
}
use pispot.Go.Bytes.{Bytes, lit, is_empty, equal_iff}
use pispot.Go.Space.{trim_space}
use pispot.Go.Lines.{unlines}
use pispot.Go.Quote.{quote, quote_body}
use pispot.Go.Unicode.{Unicode}
use pispot.Result.{ok, err}
use pispot.Wifi.Config.{Network, render}
use pispot.Wifi.Config.Header.{IsHeader}
use pispot.Wifi.Config.Blocks.{IsStorable, stored}
use pispot.Wifi.Config.RoundTrip.{parse-render}
use pispot.Wifi.Store.{
  Files, Os, read_file, write_text, write, rename_temp, after_read, has_ssid, add_to, add,
  remove_from, remove,
}
use pispot.Wifi.Store.Atomic.{Addable, added}
use pispot.Wifi.Store.Refine.{Holds, IsWorking, map-stored, All-storable}

-- A name that is none of those read back of `ns`, and that quoting changes, is not read back when it
-- is stored behind `ns`.
has_ssid-stored :
    (u : Unicode) (ssid psk : Bytes) (ns : List Network)
    → has_ssid ssid (map (stored u) ns) ≡ false
    → quote_body u 0 ssid ≢ ssid
    → has_ssid ssid (map (stored u) (added ssid psk ns)) ≡ false
unfolding has_ssid
has_ssid-stored u ssid psk [] h changed = ground (arith, equal_iff (quote_body u 0 ssid) ssid)
has_ssid-stored u ssid psk (n ∷ ns) h changed =
    let rest = has_ssid-stored u ssid psk ns (ground arith) changed in ground arith

-- A file that holds rendered networks, storable but not verbatim.
record Wrote (u : Unicode) (hs : List Bytes) (ns : List Network) (fs : Files) : Type 0 where
  header : IsHeader hs
  networks : All (IsStorable u) ns
  config : fs.config ≡ some (render u (unlines hs) ns)

read_file-Wrote :
    (u : Unicode) (os : Os) (hs : List Bytes) (ns : List Network) (fs : Files)
    → IsWorking os
    → Wrote u hs ns fs
    → read_file os fs ≡ ok (render u (unlines hs) ns)
unfolding read_file
read_file-Wrote u os hs ns fs w h = rw (w.reads, h.config)

add-Wrote :
    (u : Unicode) (os : Os) (hs : List Bytes) (ns : List Network) (ssid psk : Bytes) (fs : Files)
    → IsWorking os
    → Wrote u hs ns fs
    → Addable ssid psk (map (stored u) ns)
    → is_empty (trim_space psk) ≡ false
    → ((add u os ssid psk fs).0 ≡ ok tt)
      × ((add u os ssid psk fs).1.config
          ≡ some (render u (unlines hs) (added ssid psk (map (stored u) ns))))
unfolding add after_read add_to write write_text rename_temp
add-Wrote u os hs ns ssid psk fs w h (fresh, named, low, high) given =
    let fits : ltb (length psk) 8 || ltb 63 (length psk) ≡ false = ground arith in
    rw
      (
        named,
        given,
        fits,
        read_file-Wrote u os hs ns fs w h,
        parse-render u hs ns h.header h.networks,
        fresh,
        w.writes,
        w.renames,
      )
      (refl, refl)

remove-Wrote :
    (u : Unicode) (os : Os) (hs : List Bytes) (ns : List Network) (ssid : Bytes) (fs : Files)
    → IsWorking os
    → Wrote u hs ns fs
    → has_ssid ssid (map (stored u) ns) ≡ false
    → remove u os ssid fs ≡ (err (lit "network " ++ quote u ssid ++ lit " not found"), fs)
unfolding remove after_read remove_from
remove-Wrote u os hs ns ssid fs w h unknown =
    rw (read_file-Wrote u os hs ns fs w h, parse-render u hs ns h.header h.networks, unknown)

-- On a working system, where quoting changes a name: `Add` accepts the network; `Remove` of that
-- name then reports that there is no such network and leaves the files alone; and `Add` accepts the
-- same network again.
pub add_changed_name :
    (u : Unicode) (os : Os) (hs : List Bytes) (ns : List Network) (ssid psk : Bytes) (fs : Files)
    → IsWorking os
    → Holds u hs ns fs
    → IsStorable u (record { ssid = ssid; psk = psk })
    → Addable ssid psk ns
    → is_empty (trim_space psk) ≡ false
    → quote_body u 0 ssid ≢ ssid
    → ((add u os ssid psk fs).0 ≡ ok tt)
      × (remove u os ssid (add u os ssid psk fs).1
          ≡ (err (lit "network " ++ quote u ssid ++ lit " not found"), (add u os ssid psk fs).1))
      × ((add u os ssid psk (add u os ssid psk fs).1).0 ≡ ok tt)
add_changed_name u os hs ns ssid psk fs w h storable addable given changed =
    let same = map-stored u ns h.networks in
    let listed : Addable ssid psk (map (stored u) ns) =
      subst (λ m. Addable ssid psk m) (sym same) addable in
    let before : Wrote u hs ns fs = record {
      header = h.header;
      networks = All-storable u ns h.networks;
      config = h.config;
    } in
    let (accepted, config) = add-Wrote u os hs ns ssid psk fs w before listed given in
    let unknown = has_ssid-stored u ssid psk ns listed.0 changed in
    let behind : Wrote u hs (added ssid psk ns) (add u os ssid psk fs).1 = record {
      header = h.header;
      networks = All-append (IsStorable u) ns _ before.networks (storable, tt);
      config = config ∙ ap (λ m. some (render u (unlines hs) (added ssid psk m))) same;
    } in
    (
      accepted,
      remove-Wrote u os hs (added ssid psk ns) ssid _ w behind unknown,
      (add-Wrote u os hs (added ssid psk ns) ssid psk _ w behind
          (unknown, addable.1, addable.2, addable.3) given).0,
    )
