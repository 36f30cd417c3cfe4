-- ===== src/Go/Lines.antt =====
-- bufio.Scanner with its default split function: the lines of a text.
use pispot.Base.{
  ap, sym, ℕ, ◌≡◌, refl, Bool, true, false, List, [], ◌∷◌, ◌++◌, leb, ◌==◌, if◌then◌else◌, length,
  append_assoc, append-nil, ◌<◌, All, ◌∙◌, lt→leb_false,
}
use pispot.Go.Bytes.{Bytes, lit, last_byte, drop_last}

-- bufio.ErrTooLong
abbrev pub too_long_error : Bytes
too_long_error = lit "bufio.Scanner: token too long"

-- What a scan yields: the lines, and whether it stopped at a line that does not fit the buffer
-- (`sc.Err()` is then bufio.ErrTooLong, otherwise nil: the readers scanned never fail).
pub record Scan : Type 0 where
  pub lines : List Bytes
  pub too_long : Bool

-- One carriage return is dropped from a line's end.
unfoldable pub drop_cr : Bytes → Bytes
unfolding last_byte drop_last
drop_cr l = if last_byte l == b'\r' then drop_last l else l

abbrev with_line : Bytes → Scan → Scan
with_line l r = record { lines = drop_cr l ∷ r.lines; too_long = r.too_long }

abbrev pub stopped : Bool → Scan
stopped e = record { lines = []; too_long = e }

-- The end of the input behind `cur`. An empty last line is no line.
finish : Bytes → Scan
finish [] = stopped false
finish (c ∷ s) = with_line (c ∷ s) (stopped false)

-- `limit` bytes with no newline fill the buffer; `cur` is the line read so far.
unfoldable pub scan_from : ℕ → Bytes → Bytes → Scan
unfolding finish drop_cr
scan_from limit cur [] = if leb limit (length cur) then stopped true else finish cur
scan_from limit cur (c ∷ s) =
    let next = scan_from limit [] s in
    let more = scan_from limit (cur ++ c ∷ []) s in
    if c == b'\n'
    then (if leb limit (length cur) then stopped true else with_line cur next)
    else more

-- bufio.MaxScanTokenSize
abbrev pub max_scan_token_size : ℕ
max_scan_token_size = 65536

abbrev pub scan : Bytes → Scan
scan s = scan_from max_scan_token_size [] s

-- A line that a scan gives back as it is.
pub record IsLine (limit : ℕ) (l : Bytes) : Type 0 where
  pub no_newline : All (λ c. (c == b'\n') ≡ false) l
  pub fits : length l < limit
  pub no_cr : (last_byte l == b'\r') ≡ false

scan_from-byte :
    (limit : ℕ) (cur : Bytes) (c : ℕ) (s : Bytes)
    → (c == b'\n') ≡ false
    → scan_from limit cur (c ∷ s) ≡ scan_from limit (cur ++ c ∷ []) s
unfolding scan_from
scan_from-byte limit cur c s p = rw p

scan_from-no_newline :
    (limit : ℕ) (cur l rest : Bytes)
    → All (λ c. (c == b'\n') ≡ false) l
    → scan_from limit cur (l ++ rest) ≡ scan_from limit (cur ++ l) rest
scan_from-no_newline limit cur [] rest h = rw append-nil
scan_from-no_newline limit cur (c ∷ l) rest (p, h) =
    scan_from-byte limit cur c (l ++ rest) p
    ∙ scan_from-no_newline limit (cur ++ c ∷ []) l rest h
    ∙ rw append_assoc

-- A short line of visible text.
pub IsLine-intro :
    (l : Bytes)
    → All (λ c. (c == b'\n') ≡ false) l
    → length l < max_scan_token_size
    → (last_byte l == b'\r') ≡ false
    → IsLine max_scan_token_size l
IsLine-intro l h k e = record { no_newline = h; fits = k; no_cr = e }

-- The first line of a text, and the rest.
pub scan_from-IsLine :
    (limit : ℕ) (l rest : Bytes)
    → IsLine limit l
    → scan_from limit [] (l ++ (b'\n' ∷ rest)) ≡ record {
      lines = l ∷ (scan_from limit [] rest).lines;
      too_long = (scan_from limit [] rest).too_long;
    }
scan_from-IsLine limit l rest h =
    rw (scan_from-no_newline limit [] l (b'\n' ∷ rest) h.no_newline)
      (unfold scan_from drop_cr in rw (lt→leb_false limit (length l) h.fits, h.no_cr))

pub scan_from-nil : scan_from max_scan_token_size [] [] ≡ stopped false
unfolding scan_from
scan_from-nil = refl

-- Each line with its newline.
unfoldable pub unlines : List Bytes → Bytes
unlines [] = []
unlines (l ∷ ls) = l ++ (b'\n' ∷ unlines ls)

-- A text that begins with whole lines.
pub scan_from-unlines :
    (limit : ℕ) (ls : List Bytes) (rest : Bytes)
    → All (IsLine limit) ls
    → scan_from limit [] (unlines ls ++ rest) ≡ record {
      lines = ls ++ (scan_from limit [] rest).lines;
      too_long = (scan_from limit [] rest).too_long;
    }
unfolding unlines
scan_from-unlines limit [] rest h = refl
scan_from-unlines limit (l ∷ ls) rest (p, h) = rw (
  append_assoc l (b'\n' ∷ unlines ls) rest,
  scan_from-IsLine limit l _ p,
  scan_from-unlines limit ls rest h,
)

pub scan-unlines :
    (ls : List Bytes) → All (IsLine max_scan_token_size) ls → (scan (unlines ls)).lines ≡ ls
scan-unlines ls h =
    ap (λ t. (scan t).lines) (sym (append-nil (unlines ls)))
    ∙ ap (λ (s : Scan). s.lines) (scan_from-unlines max_scan_token_size ls [] h)
    ∙ ap (λ (s : Scan). ls ++ s.lines) scan_from-nil
    ∙ append-nil ls

pub scan-unlines-whole :
    (ls : List Bytes) → All (IsLine max_scan_token_size) ls → (scan (unlines ls)).too_long ≡ false
scan-unlines-whole ls h =
    ap (λ t. (scan t).too_long) (sym (append-nil (unlines ls)))
    ∙ ap (λ (s : Scan). s.too_long) (scan_from-unlines max_scan_token_size ls [] h)
    ∙ ap (λ (s : Scan). s.too_long) scan_from-nil

scan_test : scan (lit "a\r\n\nb") ≡ record { lines = lit "a" ∷ [] ∷ lit "b" ∷ []; too_long = false }
unfolding scan_from
scan_test = refl
