-- ===== src/Wifi/Store/Race/Reads.antt =====
-- Requests to add a network on files that hold a list of networks, up to where they write.
use pispot.Base.{
  ℕ, zero, suc, ◌≡◌, refl, ap, ◌∙◌, false, ◌||◌, none, some, List, [], ◌∷◌, length, ltb, arith, All,
}
use pispot.Go.Bytes.{Bytes, is_empty}
use pispot.Go.Lines.{unlines}
use pispot.Go.Space.{trim_space}
use pispot.Go.Unicode.{Unicode}
use pispot.Result.{ok}
use pispot.Wifi.Config.{Network, render}
use pispot.Wifi.Config.Header.{IsHeader}
use pispot.Wifi.Store.Atomic.{Addable, added}
use pispot.Schedule.{update, update-here, pick, interleave}
use pispot.Wifi.Store.Race.{
  Change, adding, dropping, Pc, asked, reading, opening, Texts, System, refusal, new_text, to_write,
  open_config, begin, advance, move, run,
}
use pispot.Wifi.Store.Refine.{IsVerbatim, parse-verbatim}

-- A configuration file with this text and no temporary file; every request has been asked.
abbrev pub fresh : Bytes → System
fresh text = record {
  shared = record { config = some 0; temp = none; bodies = λ _. text; next = 1 };
  pc = λ _. asked;
}

-- A network that `Add` takes where the file holds `ns`.
pub record Fits (u : Unicode) (ns : List Network) (n : Network) : Type 0 where
  pub verbatim : IsVerbatim u n
  pub addable : Addable n.ssid n.psk ns
  pub given : is_empty (trim_space n.psk) ≡ false

abbrev pub asks : Network → Change
asks n = adding n.ssid n.psk

pub refusal-Fits :
    (u : Unicode) (ns : List Network) (n : Network) → Fits u ns n → refusal (asks n) ≡ none
unfolding refusal
refusal-Fits u ns n f =
    let (_, named, low, high) = f.addable in
    let fits : ltb (length n.psk) 8 || ltb 63 (length n.psk) ≡ false = ground arith in
    rw (named, f.given, fits) refl

pub new_text-Fits :
    (u : Unicode) (hs : List Bytes) (ns : List Network) (n : Network)
    → IsHeader hs
    → All (IsVerbatim u) ns
    → Fits u ns n
    → new_text u (asks n) (render u (unlines hs) ns)
      ≡ ok (render u (unlines hs) (added n.ssid n.psk ns))
unfolding new_text
new_text-Fits u hs ns n h k f = rw (parse-verbatim u hs ns h k, f.addable.0) refl

module _ (texts : Texts) (changes : ℕ → Change) where
  move-at :
      (i : ℕ) (p : Pc) (s : System)
      → s.pc i ≡ p
      → move texts changes i s ≡ record {
        shared = (advance texts (changes i) s.shared p).0;
        pc = update s.pc i (advance texts (changes i) s.shared p).1;
      }
  unfolding pick
  move-at i p s h =
      ap
        (λ q. record {
          shared = (advance texts (changes i) s.shared q).0;
          pc = update s.pc i (advance texts (changes i) s.shared q).1;
        })
        h

  move-asked :
      (i j : ℕ) (s : System)
      → refusal (changes i) ≡ none
      → s.shared.config ≡ some j
      → s.pc i ≡ asked
      → move texts changes i s ≡ record s { pc = update s.pc i (reading j) }
  unfolding advance begin open_config
  move-asked i j s r c p =
      move-at i asked s p ∙ (λ k. record s { pc = update s.pc i (begin texts (r k) (c k)) })

  move-reading :
      (i j : ℕ) (text : Bytes) (s : System)
      → s.pc i ≡ reading j
      → new_text texts.unicode (changes i) (s.shared.bodies j) ≡ ok text
      → move texts changes i s ≡ record s { pc = update s.pc i (opening text) }
  unfolding advance to_write
  move-reading i j text s p t =
      move-at i (reading j) s p ∙ (λ k. record s { pc = update s.pc i (to_write (t k)) })

  -- The two steps of os.ReadFile, up to the open of os.WriteFile.
  pub run-read :
      (i j : ℕ) (text : Bytes) (rest : List ℕ) (s : System)
      → refusal (changes i) ≡ none
      → s.shared.config ≡ some j
      → s.pc i ≡ asked
      → new_text texts.unicode (changes i) (s.shared.bodies j) ≡ ok text
      → run texts changes (i ∷ i ∷ rest) s
        ≡ run texts changes rest
            (record s { pc = update (update s.pc i (reading j)) i (opening text) })
  unfolding interleave
  run-read i j text rest s r c p t =
      ap (λ s1. run texts changes rest (move texts changes i s1)) (move-asked i j s r c p)
      ∙ ap (run texts changes rest) (
          move-reading i j text (record s { pc = update s.pc i (reading j) })
            (update-here s.pc i (reading j)) t)

-- Request `i` asks for the `i`th of the networks.
unfoldable pub requests : List Network → ℕ → Change
requests [] i = dropping []
requests (n ∷ ns) zero = asks n
requests (n ∷ ns) (suc i) = requests ns i

-- A request that has read the file and is about to write its text.
abbrev pub about_to : (ℕ → Pc) → ℕ → Bytes → (ℕ → Pc)
about_to pc i text = update (update pc i (reading 0)) i (opening text)

-- Two requests read the file one behind the other.
pub run-both_read :
    (texts : Texts) (hs : List Bytes) (ns : List Network) (a b : Network) (cs : List Network)
    (rest : List ℕ)
    → IsHeader hs
    → All (IsVerbatim texts.unicode) ns
    → Fits texts.unicode ns a
    → Fits texts.unicode ns b
    → let text = λ (l : List Network). render texts.unicode (unlines hs) l in
      run texts (requests (a ∷ b ∷ cs)) (0 ∷ 0 ∷ 1 ∷ 1 ∷ rest) (fresh (text ns))
      ≡ run texts (requests (a ∷ b ∷ cs)) rest (record (fresh (text ns)) {
        pc =
            about_to
              (about_to (λ _. asked) 0 (text (added a.ssid a.psk ns)))
              1
              (text (added b.ssid b.psk ns));
      })
unfolding requests update
run-both_read texts hs ns a b cs rest h k fa fb =
    run-read texts (requests (a ∷ b ∷ cs)) 0 0 _ (1 ∷ 1 ∷ rest) _
      (refusal-Fits texts.unicode ns a fa) refl refl (new_text-Fits texts.unicode hs ns a h k fa)
    ∙ run-read texts (requests (a ∷ b ∷ cs)) 1 0 _ rest _ (refusal-Fits texts.unicode ns b fb) refl
        refl (new_text-Fits texts.unicode hs ns b h k fb)
