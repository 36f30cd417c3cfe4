-- ===== src/Wifi/Store/Race/Lost.antt =====
-- What requests do to each other that run at the same time.
use pispot.Base.{ℕ, ◌≡◌, refl, ap, ◌∙◌, none, some, List, [], ◌∷◌, ◌++◌, All, All-append}
use pispot.Go.Bytes.{Bytes, lit, join_lines}
use pispot.Go.Lines.{scan_from, unlines}
use pispot.Go.Unicode.{Unicode}
use pispot.Result.{ok, err}
use pispot.Wifi.Config.{Network, render, parsing}
use pispot.Wifi.Config.Header.{IsHeader}
use pispot.Wifi.Store.Atomic.{added}
use pispot.Schedule.{update, pick, interleave}
use pispot.Wifi.Store.Race.{
  Change, asked, reading, opening, writing, renaming, answered, Texts, System, overwrite, new_text,
  advance, run,
}
use pispot.Wifi.Store.Race.Alone.{files, overwrite-empty}
use pispot.Wifi.Store.Refine.{IsVerbatim, Holds}
use pispot.Wifi.Store.Race.Reads.{
  fresh, Fits, asks, refusal-Fits, requests, about_to, run-read, run-both_read,
}

-- The first request reads, the second reads, the first writes, the second writes.
abbrev pub both_read_first : List ℕ
both_read_first = 0 ∷ 0 ∷ 1 ∷ 1 ∷ 0 ∷ 0 ∷ 0 ∷ 1 ∷ 1 ∷ 1 ∷ []

-- Whatever networks that %q leaves as they are the configuration holds: of two requests to add such a
-- network, each of which would succeed alone, both are answered without an error, and the configuration holds the networks of before
-- and the second one only, if the first reads the file, then the second, and then they write.
pub run-lost :
    (texts : Texts) (hs : List Bytes) (ns : List Network) (a b : Network)
    → IsHeader hs
    → All (IsVerbatim texts.unicode) ns
    → Fits texts.unicode ns a
    → Fits texts.unicode ns b
    → let s =
        run texts
          (requests (a ∷ b ∷ []))
          both_read_first
          (fresh (render texts.unicode (unlines hs) ns)) in
      (s.pc 0 ≡ answered (ok tt))
      × (s.pc 1 ≡ answered (ok tt))
      × Holds texts.unicode hs (added b.ssid b.psk ns) (files s.shared)
run-lost texts hs ns a b h k fa fb =
    rw (run-both_read texts hs ns a b [] (0 ∷ 0 ∷ 0 ∷ 1 ∷ 1 ∷ 1 ∷ []) h k fa fb) (
      unfold interleave pick advance update files in
      (
        refl,
        refl,
        record {
          header = h;
          networks = All-append (IsVerbatim texts.unicode) ns _ k (fb.verbatim, tt);
          config =
              ap some (overwrite-empty (render texts.unicode (unlines hs) (added b.ssid b.psk ns)));
        },
      ))

-- Behind two reads, the first request writes, the second opens the same temporary file, which empties
-- it, and the first gives it the name of the configuration. The third reads and writes the rest.
abbrev pub shared_temp : List ℕ
shared_temp = 0 ∷ 0 ∷ 1 ∷ 1 ∷ 0 ∷ 0 ∷ 1 ∷ 0 ∷ 2 ∷ 2 ∷ 1 ∷ 1 ∷ 1 ∷ 2 ∷ 2 ∷ 2 ∷ []

new_text-empty :
    (u : Unicode) (n : Network) → Fits u [] n → new_text u (asks n) [] ≡ ok (render u [] (n ∷ []))
unfolding new_text parsing scan_from join_lines
new_text-empty u n f = rw (f.addable.0) refl

-- The first request writes behind the open of the second.
abbrev emptied : Bytes → Bytes → Bytes → System
emptied text ta tb = record {
  shared = record {
    config = some 1;
    temp = none;
    bodies = update (update (update (λ _. text) 1 []) 1 (overwrite ta [])) 1 [];
    next = 2;
  };
  pc =
      update
        (update
          (update (update (about_to (about_to (λ _. asked) 0 ta) 1 tb) 0 (writing 1 ta)) 0 renaming)
          1 (writing 1 tb))
        0 (answered (ok tt));
}

run-emptied :
    (texts : Texts) (changes : ℕ → Change) (text ta tb : Bytes) (rest : List ℕ)
    → run texts changes
        (0 ∷ 0 ∷ 1 ∷ 0 ∷ rest)
        (record (fresh text) { pc = about_to (about_to (λ _. asked) 0 ta) 1 tb })
      ≡ run texts changes rest (emptied text ta tb)
unfolding interleave pick advance update
run-emptied texts changes text ta tb rest = refl

run-shared :
    (texts : Texts) (hs : List Bytes) (ns : List Network) (a b c : Network) (rest : List ℕ)
    → IsHeader hs
    → All (IsVerbatim texts.unicode) ns
    → Fits texts.unicode ns a
    → Fits texts.unicode ns b
    → Fits texts.unicode [] c
    → let text = λ (l : List Network). render texts.unicode (unlines hs) l in
      let s = emptied (text ns) (text (added a.ssid a.psk ns)) (text (added b.ssid b.psk ns)) in
      run texts
        (requests (a ∷ b ∷ c ∷ []))
        (0 ∷ 0 ∷ 1 ∷ 1 ∷ 0 ∷ 0 ∷ 1 ∷ 0 ∷ 2 ∷ 2 ∷ rest)
        (fresh (text ns))
      ≡ run texts (requests (a ∷ b ∷ c ∷ [])) rest (record s {
        pc = update (update s.pc 2 (reading 1)) 2 (opening (render texts.unicode [] (c ∷ [])));
      })
unfolding requests update
run-shared texts hs ns a b c rest h k fa fb fc =
    run-both_read texts hs ns a b (c ∷ []) (0 ∷ 0 ∷ 1 ∷ 0 ∷ 2 ∷ 2 ∷ rest) h k fa fb
    ∙ run-emptied texts (requests (a ∷ b ∷ c ∷ [])) _ _ _ (2 ∷ 2 ∷ rest)
    ∙ run-read texts (requests (a ∷ b ∷ c ∷ [])) 2 1 (render texts.unicode [] (c ∷ [])) rest _
        (refusal-Fits texts.unicode [] c fc) refl refl (new_text-empty texts.unicode c fc)

-- Whatever networks that %q leaves as they are the configuration holds: there is an order of the steps
-- of three requests to add such a network in which the first and the third are answered without an error, and the configuration holds
-- the third network alone, without the header and without any network that it held before.
pub run-wiped :
    (texts : Texts) (hs : List Bytes) (ns : List Network) (a b c : Network)
    → IsHeader hs
    → All (IsVerbatim texts.unicode) ns
    → Fits texts.unicode ns a
    → Fits texts.unicode ns b
    → Fits texts.unicode [] c
    → let s =
        run texts
          (requests (a ∷ b ∷ c ∷ []))
          shared_temp
          (fresh (render texts.unicode (unlines hs) ns)) in
      (s.pc 0 ≡ answered (ok tt))
      × (s.pc 1 ≡ answered (err (lit "rename config: " ++ texts.no_temp)))
      × (s.pc 2 ≡ answered (ok tt))
      × Holds texts.unicode [] (c ∷ []) (files s.shared)
unfolding unlines
run-wiped texts hs ns a b c h k fa fb fc =
    rw (run-shared texts hs ns a b c (1 ∷ 1 ∷ 1 ∷ 2 ∷ 2 ∷ 2 ∷ []) h k fa fb fc) (
      unfold interleave pick advance update files in
      (
        refl,
        refl,
        refl,
        record {
          header = record { lines = tt; settled = tt };
          networks = (fc.verbatim, tt);
          config = ap some (overwrite-empty (render texts.unicode [] (c ∷ [])));
        },
      ))
