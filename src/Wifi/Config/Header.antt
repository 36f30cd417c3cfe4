-- ===== src/Wifi/Config/Header.antt =====
-- The header of the configuration file: the lines in front of the first block.
use pispot.Base.{
  ℕ, ◌≡◌, refl, sym, ap, ◌∙◌, false, List, [], ◌∷◌, ◌++◌, ◌==◌, arith, All, append_assoc,
}
use pispot.Go.Bytes.{Bytes, lit, equal, is_empty, last_byte, last_byte-append, join_lines}
use pispot.Go.Space.{trim_space}
use pispot.Go.Lines.{IsLine, max_scan_token_size, unlines}
use pispot.Wifi.Config.{block_start, header_text}

-- A line in front of the first block.
pub record IsHeaderLine (l : Bytes) : Type 0 where
  pub line : IsLine max_scan_token_size l
  pub outside : equal (trim_space l) block_start ≡ false

-- The last line of the header is not empty, so the header has one form only.
abbrev pub IsSettled : List Bytes → Type 0
IsSettled [] = Unit
IsSettled (l ∷ []) = is_empty l ≡ false
IsSettled (l ∷ m ∷ ls) = IsSettled (m ∷ ls)

pub record IsHeader (hs : List Bytes) : Type 0 where
  pub lines : All IsHeaderLine hs
  pub settled : IsSettled hs

is_empty-append : (s t : Bytes) (c : ℕ) → is_empty (s ++ (c ∷ t)) ≡ false
is_empty-append [] t c = refl
is_empty-append (d ∷ s) t c = refl

-- With an empty line behind them the lines are joined to whole lines.
join_lines-empty_line : (hs : List Bytes) → join_lines (hs ++ [] ∷ []) ≡ unlines hs
unfolding join_lines unlines
join_lines-empty_line [] = refl
join_lines-empty_line (l ∷ []) = refl
join_lines-empty_line (l ∷ m ∷ ls) = ap (λ t. l ++ (b'\n' ∷ t)) (join_lines-empty_line (m ∷ ls))

last_byte-unlines : (l : Bytes) (ls : List Bytes) → last_byte (unlines (l ∷ ls)) ≡ b'\n'
unfolding unlines
last_byte-unlines l [] = last_byte-append l [] b'\n' ∙ (unfold last_byte in refl)
last_byte-unlines l (m ∷ ls) =
    last_byte-append l (unlines (m ∷ ls)) b'\n'
    ∙ last_byte-append (b'\n' ∷ m) (unlines ls) b'\n'
    ∙ sym (last_byte-append m (unlines ls) b'\n')
    ∙ last_byte-unlines m ls

pub header_text-empty_line : (hs : List Bytes) → header_text (hs ++ [] ∷ []) ≡ unlines hs
header_text-empty_line [] = unfold header_text join_lines unlines in refl
header_text-empty_line (l ∷ ls) =
    unfold header_text in rw (join_lines-empty_line (l ∷ ls), last_byte-unlines l ls) (ground arith)

-- Lines are joined to whole lines but for the last newline.
join_lines-newline :
    (l : Bytes) (ls : List Bytes) → join_lines (l ∷ ls) ++ lit "\n" ≡ unlines (l ∷ ls)
unfolding join_lines unlines
join_lines-newline l [] = refl
join_lines-newline l (m ∷ ls) =
    append_assoc l (b'\n' ∷ join_lines (m ∷ ls)) (lit "\n")
    ∙ ap (λ t. l ++ (b'\n' ∷ t)) (join_lines-newline m ls)

last_byte-no_newline :
    (l : Bytes) → All (λ c. (c == b'\n') ≡ false) l → (last_byte l == b'\n') ≡ false
unfolding last_byte
last_byte-no_newline [] h = refl
last_byte-no_newline (c ∷ []) h = h.0
last_byte-no_newline (c ∷ d ∷ l) h = last_byte-no_newline (d ∷ l) h.1

last_byte-of_nonempty :
    (l t : Bytes) → is_empty t ≡ false → last_byte (l ++ (b'\n' ∷ t)) ≡ last_byte t
last_byte-of_nonempty l [] h = cc
last_byte-of_nonempty l (c ∷ t) h = last_byte-append l (c ∷ t) b'\n' ∙ (unfold last_byte in refl)

-- Settled lines, joined, do not end with a newline.
join_lines-IsSettled :
    (l : Bytes) (ls : List Bytes)
    → All IsHeaderLine (l ∷ ls)
    → IsSettled (l ∷ ls)
    → (is_empty (join_lines (l ∷ ls)) ≡ false)
      × ((last_byte (join_lines (l ∷ ls)) == b'\n') ≡ false)
unfolding join_lines
join_lines-IsSettled l [] (h, _) s = (s, last_byte-no_newline l h.line.no_newline)
join_lines-IsSettled l (m ∷ ls) (_, h) s =
    let (nonempty, ends) = join_lines-IsSettled m ls h s in
    (is_empty-append l _ b'\n', rw (last_byte-of_nonempty l _ nonempty) ends)

pub header_text-IsSettled :
    (hs : List Bytes) → All IsHeaderLine hs → IsSettled hs → header_text hs ≡ unlines hs
header_text-IsSettled [] h s = unfold header_text join_lines unlines in refl
header_text-IsSettled (l ∷ ls) h s =
    let (nonempty, ends) = join_lines-IsSettled l ls h s in
    unfold header_text in rw (nonempty, ends) (join_lines-newline l ls)
