-- ===== src/Wifi/Config/RoundTrip.antt =====
-- `parse` behind `write`: what was written is read back.
use pispot.Base.{
  ℕ, ◌+◌, ◌<◌, ◌≡◌, refl, sym, ap, ◌∙◌, true, false, List, [], ◌∷◌, ◌++◌, leb, ◌==◌, arith, length,
  length-append, All, All-append, append_assoc, append-nil, map,
}
use pispot.Go.Bytes.{Bytes, lit, last_byte, last_byte-concat, last_byte-append}
use pispot.Go.Lines.{
  IsLine, max_scan_token_size, unlines, scan, scan_from-unlines, scan_from-nil, IsLine-intro,
}
use pispot.Go.Quote.{quote, quote_body, quote_body-IsVisible, IsVisible, quote_lem}
use pispot.Go.Unicode.{Unicode}
use pispot.Wifi.Config.{Network, block_start, parse, blocks, render}
use pispot.Wifi.Config.Header.{IsHeaderLine, IsHeader}
use pispot.Wifi.Config.Run.{lines_of, run-file}
use pispot.Wifi.Config.Blocks.{IsStorable, block_lines, block-block_lines, stored}

unlines-append : (ls ms : List Bytes) → unlines (ls ++ ms) ≡ unlines ls ++ unlines ms
unfolding unlines
unlines-append [] ms = refl
unlines-append (l ∷ ls) ms =
    ap (λ t. l ++ (b'\n' ∷ t)) (unlines-append ls ms)
    ∙ sym (append_assoc l (b'\n' ∷ unlines ls) (unlines ms))

blocks-lines_of : (u : Unicode) (ns : List Network) → blocks u ns ≡ unlines (lines_of u ns)
unfolding blocks
blocks-lines_of u [] = unfold unlines in refl
blocks-lines_of u (n ∷ ns) =
    rw (block-block_lines u n, blocks-lines_of u ns)
      (sym (unlines-append (block_lines u n) (lines_of u ns)))

render-lines_of :
    (u : Unicode) (hs : List Bytes) (ns : List Network)
    → render u (unlines hs) ns ≡ unlines (hs ++ lines_of u ns) ++ []
unfolding render
render-lines_of u hs ns =
    rw (blocks-lines_of u ns) (sym (unlines-append hs (lines_of u ns)) ∙ sym (append-nil _))

abbrev Visible : ℕ → Type 0
Visible c = leb 0x20 c ≡ true

IsVisible-no_newline : (s : Bytes) → IsVisible s → All (λ c. (c == b'\n') ≡ false) s
IsVisible-no_newline [] h = tt
IsVisible-no_newline (c ∷ s) (p, h) = (ground arith, IsVisible-no_newline s h)

-- Quoted text with text in front of it is a line.
quoted-IsLine :
    (u : Unicode) (prefix s : Bytes)
    → All (λ c. leb 0x20 c ≡ true) prefix
    → length prefix + length (quote_body u 0 s) + 2 < max_scan_token_size
    → IsLine max_scan_token_size (prefix ++ quote u s)
quoted-IsLine u prefix s h fits =
    let body = quote_body u 0 s in
    rw quote_lem (record {
      no_newline = IsVisible-no_newline (prefix ++ (b'"' ∷ (body ++ b'"' ∷ []))) (
          All-append Visible prefix _ h
            (refl, All-append Visible body (b'"' ∷ []) (quote_body-IsVisible u 0 s) (refl, tt)));
      fits = omega (
        arith,
        length-append prefix (b'"' ∷ (body ++ b'"' ∷ [])),
        length-append body (b'"' ∷ []),
      );
      no_cr =
          rw
            (last_byte-append prefix (body ++ b'"' ∷ []) b'"', last_byte-concat (b'"' ∷ body) b'"');
    })

block_lines-IsLine :
    (u : Unicode) (n : Network)
    → IsStorable u n
    → All (IsLine max_scan_token_size) (block_lines u n)
unfolding last_byte
block_lines-IsLine u n h = (
  IsLine-intro [] tt (omega arith) refl,
  (
    IsLine-intro block_start (IsVisible-no_newline block_start (ground arith)) (omega arith) refl,
    (
      quoted-IsLine u (lit "    ssid=") n.ssid (ground arith) (omega (arith, h.ssid_fits)),
      (
        quoted-IsLine u (lit "    psk=") n.psk (ground arith) (omega (arith, h.psk_fits)),
        (IsLine-intro (lit "}") (refl, tt) (omega arith) refl, tt),
      ),
    ),
  ),
)

lines_of-IsLine :
    (u : Unicode) (ns : List Network)
    → All (IsStorable u) ns
    → All (IsLine max_scan_token_size) (lines_of u ns)
lines_of-IsLine u [] h = tt
lines_of-IsLine u (n ∷ ns) (p, h) =
    All-append (IsLine max_scan_token_size) (block_lines u n) (lines_of u ns)
      (block_lines-IsLine u n p) (lines_of-IsLine u ns h)

header-IsLine : (hs : List Bytes) → All IsHeaderLine hs → All (IsLine max_scan_token_size) hs
header-IsLine [] h = tt
header-IsLine (l ∷ hs) (p, h) = (p.line, header-IsLine hs h)

scan-render :
    (u : Unicode) (hs : List Bytes) (ns : List Network)
    → All IsHeaderLine hs
    → All (IsStorable u) ns
    → scan (render u (unlines hs) ns) ≡ record { lines = hs ++ lines_of u ns; too_long = false }
scan-render u hs ns h k =
    let whole =
      All-append (IsLine max_scan_token_size) hs (lines_of u ns) (header-IsLine hs h)
        (lines_of-IsLine u ns k) in
    rw render-lines_of (
      scan_from-unlines max_scan_token_size (hs ++ lines_of u ns) [] whole
      ∙ rw (scan_from-nil, append-nil))

-- What `write` wrote `parse` reads back: the header as it was, and each network with its name and
-- password as `quote` left them, for networks whose lines fit the scanner and that have a name, and
-- for a header of lines that are no `network={` and whose last is not empty.
pub parse-render :
    (u : Unicode) (hs : List Bytes) (ns : List Network)
    → IsHeader hs
    → All (IsStorable u) ns
    → parse (render u (unlines hs) ns)
      ≡ record { networks = map (stored u) ns; header = unlines hs; failed = false }
unfolding parse
parse-render u hs ns h k =
    let (networks, header) = run-file u hs ns h.lines h.settled k in
    rw (scan-render u hs ns h.lines k, networks, header)
