-- ===== src/Ctl/Networks/Passwords.antt =====
-- What the table tells of the passwords.
use pispot.Base.{ℕ, ◌+◌, ◌≡◌, refl, ap, List, [], ◌∷◌, ◌++◌}
use pispot.Authz.Client.{Carried, dial_failed, encode_failed, decode_failed, received}
use pispot.Ctl.{World}
use pispot.Ctl.Networks.{heading, row, rows, masked, table, listing_of, wifi_list}
use pispot.Go.Bytes.{decimal}
use pispot.Socket.{request, op_wifi_list}
use pispot.Wifi.Config.{Network}

hidden : List Network → List Network
hidden [] = []
hidden (n ∷ ns) = record n { psk = [] } ∷ hidden ns

pub without_passwords : Carried → Carried
without_passwords (dial_failed e) = dial_failed e
without_passwords (encode_failed e) = encode_failed e
without_passwords (decode_failed e) = decode_failed e
without_passwords (received r) = received (record r { networks = hidden r.networks })

-- The same world, but that the daemon answers without the passwords of the networks.
unfoldable pub masking : World → World
masking w = record w { daemon = λ q. without_passwords (w.daemon q) }

rows-hidden : (i : ℕ) (ns : List Network) → rows i (hidden ns) ≡ rows i ns
unfolding rows hidden
rows-hidden i [] = refl
rows-hidden i (n ∷ ns) = ap (λ t. row (decimal (i + 1)) n.ssid masked ++ t) (rows-hidden (i + 1) ns)

table-hidden : (ns : List Network) → table (hidden ns) ≡ table ns
unfolding table hidden
table-hidden [] = refl
table-hidden (n ∷ ns) = ap (λ t. heading ++ t) (rows-hidden 0 (n ∷ ns))

listing_of-without_passwords : (c : Carried) → listing_of (without_passwords c) ≡ listing_of c
unfolding listing_of without_passwords
listing_of-without_passwords (dial_failed e) = refl
listing_of-without_passwords (encode_failed e) = refl
listing_of-without_passwords (decode_failed e) = refl
listing_of-without_passwords (received r) = rw (table-hidden r.networks) refl

pub wifi_list-masking : (w : World) → wifi_list (masking w) ≡ wifi_list w
unfolding wifi_list masking
wifi_list-masking w = listing_of-without_passwords (w.daemon (request op_wifi_list))
