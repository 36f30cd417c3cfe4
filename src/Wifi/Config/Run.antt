-- ===== src/Wifi/Config/Run.antt =====
-- What `parse` does with the lines of a rendered file.
use pispot.Base.{
  ◌≡◌, refl, sym, ap, ◌∙◌, true, false, List, [], ◌∷◌, ◌++◌, arith, All, append_assoc, append-nil,
  map,
}
use pispot.Go.Bytes.{Bytes, equal}
use pispot.Go.Space.{trim_space}
use pispot.Go.Lines.{unlines}
use pispot.Go.Quote.{quote_body, quote_body-ne-nil}
use pispot.Go.Unicode.{Unicode}
use pispot.Wifi.Config.{Network, no_network, Parser, initial, step, step_body, run, header_text}
use pispot.Wifi.Config.Header.{
  IsHeaderLine, IsSettled, header_text-IsSettled, header_text-empty_line,
}
use pispot.Wifi.Config.Blocks.{
  IsStorable, written, block_lines, stored, step-block_start, step-ssid_line, step-psk_line,
  step-block_end,
}

-- The parser between two blocks.
abbrev pub lines_of : Unicode → List Network → List Bytes
lines_of u [] = []
lines_of u (n ∷ ns) = block_lines u n ++ lines_of u ns

abbrev after : Parser → Network → Parser
after p n = record p {
  networks = p.networks ++ n ∷ [];
  in_block = false;
  cur = n;
  header_done = true;
}

run-block :
    (u : Unicode) (n : Network) (p : Parser) (rest : List Bytes)
    → IsStorable u n
    → run p (written u n ++ rest) ≡ run (after p (stored u n)) rest
unfolding run
run-block u n p rest h = rw (
  step-block_start p,
  step-ssid_line u n p no_network,
  step-psk_line u n p (record no_network { ssid = quote_body u 0 n.ssid }),
  step-block_end p (stored u n) (quote_body-ne-nil u n.ssid h.named),
)

-- The empty line in front of a block behind the header.
run-empty_line :
    (p : Parser) (rest : List Bytes)
    → p.header_done ≡ true
    → p.in_block ≡ false
    → run p ([] ∷ rest) ≡ run p rest
unfolding run step step_body equal trim_space
run-empty_line p rest h k = ground arith

-- The empty line in front of the first block is one more line of the header.
run-empty_line_header :
    (p : Parser) (rest : List Bytes)
    → p.header_done ≡ false
    → run p ([] ∷ rest) ≡ run (record p { header_lines = p.header_lines ++ [] ∷ [] }) rest
unfolding run step equal trim_space
run-empty_line_header p rest h = rw h

run-header_line :
    (p : Parser) (l : Bytes) (rest : List Bytes)
    → IsHeaderLine l
    → p.header_done ≡ false
    → run p (l ∷ rest) ≡ run (record p { header_lines = p.header_lines ++ l ∷ [] }) rest
unfolding run step
run-header_line p l rest h k = rw (k, h.outside)

run-blocks :
    (u : Unicode) (ns : List Network) (p : Parser)
    → All (IsStorable u) ns
    → p.header_done ≡ true
    → p.in_block ≡ false
    → ((run p (lines_of u ns)).networks ≡ p.networks ++ map (stored u) ns)
      × ((run p (lines_of u ns)).header_lines ≡ p.header_lines)
unfolding run
run-blocks u [] p h done outside = (sym (append-nil p.networks), refl)
run-blocks u (n ∷ ns) p (hn, h) done outside =
    let (networks, header) = run-blocks u ns (after p (stored u n)) h refl refl in
    let first =
      run-empty_line p (written u n ++ lines_of u ns) done outside
      ∙ run-block u n p (lines_of u ns) hn in
    rw first (networks ∙ append_assoc p.networks (stored u n ∷ []) (map (stored u) ns), header)

run-header :
    (hs : List Bytes) (p : Parser) (rest : List Bytes)
    → All IsHeaderLine hs
    → p.header_done ≡ false
    → run p (hs ++ rest) ≡ run (record p { header_lines = p.header_lines ++ hs }) rest
run-header [] p rest h k = rw append-nil
run-header (l ∷ hs) p rest (hl, h) k =
    run-header_line p l (hs ++ rest) hl k
    ∙ run-header hs (record p { header_lines = p.header_lines ++ l ∷ [] }) rest h k
    ∙ rw append_assoc

-- The parser behind the header lines.
abbrev opened : List Bytes → Parser
opened hs = record initial { header_lines = hs }

pub run-file :
    (u : Unicode) (hs : List Bytes) (ns : List Network)
    → All IsHeaderLine hs
    → IsSettled hs
    → All (IsStorable u) ns
    → ((run initial (hs ++ lines_of u ns)).networks ≡ map (stored u) ns)
      × (header_text (run initial (hs ++ lines_of u ns)).header_lines ≡ unlines hs)
run-file u hs [] h settled k =
    rw (run-header hs initial [] h refl) (unfold run in (refl, header_text-IsSettled hs h settled))
run-file u hs (n ∷ ns) h settled (kn, k) =
    let front = opened (hs ++ [] ∷ []) in
    let whole =
      run-header hs initial (lines_of u (n ∷ ns)) h refl
      ∙ run-empty_line_header (opened hs) (written u n ++ lines_of u ns) refl
      ∙ run-block u n front (lines_of u ns) kn in
    let (networks, header) = run-blocks u ns (after front (stored u n)) k refl refl in
    rw whole (networks, ap header_text header ∙ header_text-empty_line hs)
