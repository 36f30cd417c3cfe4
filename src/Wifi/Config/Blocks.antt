-- ===== src/Wifi/Config/Blocks.antt =====
-- What `parse` does with the lines of one rendered network.
use pispot.Base.{
  ℕ, ◌+◌, ◌<◌, ◌≡◌, refl, sym, ap, ◌∙◌, true, false, List, [], ◌∷◌, ◌++◌, leb, arith, length,
  length-append, append_assoc, ltb,
}
use pispot.Go.Bytes.{
  Bytes, lit, equal, is_empty, has_prefix, trim_prefix, drop, last_byte-concat, drop_last-concat,
}
use pispot.Go.Space.{trim_space, trim_space-is_solid, trim_space-space}
use pispot.Go.Lines.{max_scan_token_size, unlines}
use pispot.Go.Quote.{quote, quote_body, quote_lem}
use pispot.Go.Unicode.{Unicode}
use pispot.Wifi.Config.{
  Network, no_network, Parser, block_start, unquote, read_setting, step_body, step, block,
}

-- A quoted value with text in front of it that begins with a byte that is no white space.
trim_space-quoted :
    (c : ℕ) (s t : Bytes)
    → (ltb c 0x80 ≡ true) × (leb 0x21 c ≡ true)
    → trim_space (c ∷ (s ++ (t ++ b'"' ∷ []))) ≡ c ∷ (s ++ (t ++ b'"' ∷ []))
trim_space-quoted c s t h =
    ap (λ x. trim_space (c ∷ x)) (sym (append_assoc s t (b'"' ∷ [])))
    ∙ trim_space-is_solid c (s ++ t) b'"' (ground arith) refl
    ∙ ap (λ x. c ∷ x) (append_assoc s t (b'"' ∷ []))

-- The marks that `quote` puts on are those that `unquote` takes off.
pub unquote_marks : (t : Bytes) → unquote (b'"' ∷ (t ++ b'"' ∷ [])) ≡ t
unquote_marks t =
    let trimmed = trim_space-is_solid b'"' t b'"' refl refl in
    let long : leb 2 (length (b'"' ∷ (t ++ b'"' ∷ []))) ≡ true =
      ground (arith, length-append t (b'"' ∷ [])) in
    unfold unquote has_prefix drop in
    rw (trimmed, long, last_byte-concat (b'"' ∷ t) b'"') (drop_last-concat t b'"')

pub unquote-quote : (u : Unicode) (s : Bytes) → unquote (quote u s) ≡ quote_body u 0 s
unquote-quote u s = rw quote_lem (unquote_marks (quote_body u 0 s))

-- A network whose lines fit the scanner's buffer and whose name is not empty.
pub record IsStorable (u : Unicode) (n : Network) : Type 0 where
  pub named : is_empty n.ssid ≡ false
  pub ssid_fits : length (quote_body u 0 n.ssid) + 11 < max_scan_token_size
  pub psk_fits : length (quote_body u 0 n.psk) + 10 < max_scan_token_size

-- The lines of a rendered network, and of a rendered list.
abbrev pub ssid_line : Unicode → Network → Bytes
ssid_line u n = lit "    ssid=" ++ quote u n.ssid

abbrev pub psk_line : Unicode → Network → Bytes
psk_line u n = lit "    psk=" ++ quote u n.psk

abbrev pub written : Unicode → Network → List Bytes
written u n = block_start ∷ ssid_line u n ∷ psk_line u n ∷ lit "}" ∷ []

abbrev pub block_lines : Unicode → Network → List Bytes
block_lines u n = [] ∷ written u n

pub block-block_lines : (u : Unicode) (n : Network) → block u n ≡ unlines (block_lines u n)
unfolding block unlines
block-block_lines u n = refl

-- What is read back of a network that was written.
abbrev pub stored : Unicode → Network → Network
stored u n = record { ssid = quote_body u 0 n.ssid; psk = quote_body u 0 n.psk }

trim_space-ssid_line :
    (u : Unicode) (n : Network) → trim_space (ssid_line u n) ≡ lit "ssid=" ++ quote u n.ssid
trim_space-ssid_line u n = rw quote_lem (
    trim_space-space b' ' _ refl
    ∙ trim_space-space b' ' _ refl
    ∙ trim_space-space b' ' _ refl
    ∙ trim_space-space b' ' _ refl
    ∙ trim_space-quoted b's' (lit "sid=\"") (quote_body u 0 n.ssid) (refl, refl))

trim_space-psk_line :
    (u : Unicode) (n : Network) → trim_space (psk_line u n) ≡ lit "psk=" ++ quote u n.psk
trim_space-psk_line u n = rw quote_lem (
    trim_space-space b' ' _ refl
    ∙ trim_space-space b' ' _ refl
    ∙ trim_space-space b' ' _ refl
    ∙ trim_space-space b' ' _ refl
    ∙ trim_space-quoted b'p' (lit "sk=\"") (quote_body u 0 n.psk) (refl, refl))

-- A parser behind the header, in a block with the network `cur`.
abbrev pub within : Parser → Network → Parser
within p cur = record p { header_done = true; in_block = true; cur = cur }

pub step-block_start : (p : Parser) → step p block_start ≡ within p no_network
unfolding step step_body equal trim_space
step-block_start p = ground arith

pub step-ssid_line :
    (u : Unicode) (n : Network) (p : Parser) (cur : Network)
    → step (within p cur) (ssid_line u n) ≡ within p (record cur { ssid = quote_body u 0 n.ssid })
unfolding step step_body read_setting equal has_prefix trim_prefix
step-ssid_line u n p cur = rw trim_space-ssid_line (rw unquote-quote)

pub step-psk_line :
    (u : Unicode) (n : Network) (p : Parser) (cur : Network)
    → step (within p cur) (psk_line u n) ≡ within p (record cur { psk = quote_body u 0 n.psk })
unfolding step step_body read_setting equal has_prefix trim_prefix
step-psk_line u n p cur = rw trim_space-psk_line (rw unquote-quote)

pub step-block_end :
    (p : Parser) (cur : Network)
    → is_empty cur.ssid ≡ false
    → step (within p cur) (lit "}") ≡ record p {
      networks = p.networks ++ cur ∷ [];
      in_block = false;
      cur = cur;
      header_done = true;
    }
unfolding step step_body equal trim_space
step-block_end p cur h = rw h
