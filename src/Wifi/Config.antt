-- ===== src/Wifi/Config.antt =====
-- host/internal/wifi/config.go: the text of the configuration file, `parse`, `unquote` and the text
-- that `write` builds.
pub mod Header
pub mod Blocks
mod Run
pub mod RoundTrip
use pispot.Base.{
  Bool, true, false, not, ◌&&◌, ◌||◌, List, [], ◌∷◌, ◌++◌, leb, ◌==◌, if◌then◌else◌, length,
}
use pispot.Go.Bytes.{
  Bytes, lit, equal, is_empty, has_prefix, trim_prefix, last_byte, drop_last, drop, join_lines,
}
use pispot.Go.Space.{trim_space}
use pispot.Go.Lines.{scan}
use pispot.Go.Quote.{quote}
use pispot.Go.Unicode.{Unicode}

pub record Network : Type 0 where
  pub ssid : Bytes
  pub psk : Bytes

abbrev pub no_network : Network
no_network = record { ssid = []; psk = [] }

-- The variables of `parse`.
pub record Parser : Type 0 where
  pub header_lines : List Bytes
  pub networks : List Network
  pub in_block : Bool
  pub cur : Network
  pub header_done : Bool

abbrev pub initial : Parser
initial = record {
  header_lines = [];
  networks = [];
  in_block = false;
  cur = no_network;
  header_done = false;
}

-- Quotation marks round trimmed text are taken off; nothing inside is read as an escape.
pub unquote : Bytes → Bytes
unquote s =
    let t = trim_space s in
    if leb 2 (length t) && has_prefix t (lit "\"") && last_byte t == b'"'
    then drop_last (drop 1 t)
    else t

abbrev pub block_start : Bytes
block_start = lit "network={"

-- A line inside a block that neither opens nor closes one.
pub read_setting : Network → Bytes → Network
read_setting cur t =
    if has_prefix t (lit "ssid=")
    then record cur { ssid = unquote (trim_prefix t (lit "ssid=")) }
    else if has_prefix t (lit "psk=")
    then record cur { psk = unquote (trim_prefix t (lit "psk=")) }
    else cur

abbrev pub close_block : Parser → Parser
close_block p = record p {
  in_block = false;
  networks = if not (is_empty p.cur.ssid) then p.networks ++ p.cur ∷ [] else p.networks;
}

-- A line at or behind the first `network={`; `t` is the line, trimmed.
pub step_body : Parser → Bytes → Parser
step_body p t =
    if equal t block_start
    then record p { in_block = true; cur = no_network }
    else if equal t (lit "}") && p.in_block
    then close_block p
    else if p.in_block
    then record p { cur = read_setting p.cur t }
    else p

pub step : Parser → Bytes → Parser
step p line =
    let t = trim_space line in
    if p.header_done || equal t block_start
    then step_body (record p { header_done = true }) t
    else record p { header_lines = p.header_lines ++ line ∷ [] }

pub run : Parser → List Bytes → Parser
run p [] = p
run p (line ∷ rest) = run (step p line) rest

-- The header's lines, with a newline behind the last.
pub header_text : List Bytes → Bytes
header_text ls =
    let header = join_lines ls in
    if not (is_empty header) && not (last_byte header == b'\n') then header ++ lit "\n" else header

-- The three results of `parse`; `failed` says that `sc.Err()` is not nil.
pub record Parsed : Type 0 where
  pub networks : List Network
  pub header : Bytes
  pub failed : Bool

pub parse : Bytes → Parsed
parse contents =
    let s = scan contents in
    let p = run initial s.lines in
    record { networks = p.networks; header = header_text p.header_lines; failed = s.too_long }

module _ (u : Unicode) where
  -- What `write` appends for one network.
  pub block : Network → Bytes
  block n =
      lit "\nnetwork={\n"
      ++ (lit "    ssid="
          ++ (quote u n.ssid
              ++ (lit "\n" ++ (lit "    psk=" ++ (quote u n.psk ++ (lit "\n" ++ lit "}\n"))))))

  pub blocks : List Network → Bytes
  blocks [] = []
  blocks (n ∷ ns) = block n ++ blocks ns

  -- The text that `write` builds.
  pub render : Bytes → List Network → Bytes
  render header ns = header ++ blocks ns

-- All that `parse` and `render` compute with.
unfoldable pub parsing : Unit {0}
unfolding parse run step step_body read_setting unquote header_text render blocks block
parsing = tt
