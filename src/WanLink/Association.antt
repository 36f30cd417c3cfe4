-- ===== src/WanLink/Association.antt =====
-- When a link counts as connected.
use pispot.Base.{
  ◌≡◌, refl, Bool, false, not, ◌&&◌, ◌||◌, Option, none, some, List, [], ◌∷◌, arith, Bool-cases,
  inl, inr,
}
use pispot.Go.Bytes.{Bytes, cut, has_prefix}
use pispot.Go.Floats.{Floats}
use pispot.Go.Lines.{scan_from}
use pispot.Go.Space.{trim_space}
use pispot.Go.Unicode.{Unicode}
use pispot.WanLink.{
  Link, not_connected, connected_to, buffer_size, no_link, update, read_value, read_line,
  read_lines, parse_iw_link,
}

-- Some line, trimmed, begins with the text.
pub some_line : Bytes → List Bytes → Bool
some_line text [] = false
some_line text (line ∷ lines) = has_prefix (trim_space line) text || some_line text lines

module _ {F : Type 0} (floats : Floats F) (u : Unicode) where
  update-connected :
      (key value : Bytes) (out : Link F) → (update floats key value out).connected ≡ out.connected
  unfolding update
  update-connected key value out = ground arith

  read_value-connected :
      (parts : Option (Bytes × Bytes)) (out : Link F)
      → (read_value floats parts out).connected ≡ out.connected
  unfolding read_value
  read_value-connected none out = refl
  read_value-connected (some (key, value)) out =
      update-connected (trim_space key) (trim_space value) out

  read_line-connected :
      (line : Bytes) (out : Link F)
      → (read_line floats u line out).connected ≡ has_prefix line connected_to || out.connected
  unfolding read_line has_prefix
  read_line-connected [] out = refl
  read_line-connected (c ∷ line) out =
      ground (arith, read_value-connected (cut b':' (c ∷ line)) out)

  no_link-connected : (no_link floats).connected ≡ false
  unfolding no_link
  no_link-connected = refl

  read_lines-connected :
      (lines : List Bytes) (out : Link F)
      → (read_lines floats u lines out).connected
        ≡ not (some_line not_connected lines) && (some_line connected_to lines || out.connected)
  unfolding read_lines some_line
  read_lines-connected [] out = refl
  read_lines-connected (text ∷ lines) out =
      elim (Bool-cases (has_prefix (trim_space text) not_connected)) [
        | inl off ↦ rw off (no_link-connected)
        | inr on ↦
            rw
              (
                on,
                read_lines-connected lines (read_line floats u (trim_space text) out),
                read_line-connected (trim_space text) out,
              )
              (ground arith)
      ]

-- A link counts as connected if and only if some line of the text begins with "Connected to " and none
-- with "Not connected", whatever their order and whatever else the text holds.
pub parse_iw_link-connected :
    {F : Type 0} (floats : Floats F) (u : Unicode) (raw : Bytes)
    → (parse_iw_link floats u raw).connected
      ≡ not (some_line not_connected (scan_from buffer_size [] raw).lines)
        && some_line connected_to (scan_from buffer_size [] raw).lines
unfolding parse_iw_link
parse_iw_link-connected floats u raw =
    rw
      (
        read_lines-connected floats u (scan_from buffer_size [] raw).lines (no_link floats),
        no_link-connected floats u,
      )
      (ground arith)
