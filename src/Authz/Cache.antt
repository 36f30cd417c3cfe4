-- ===== src/Authz/Cache.antt =====
-- dashboard/internal/authz/cache.go
pub mod Keys
use pispot.Base.{
  ℕ, ◌+◌, ◌/◌, ◌%◌, Bool, Option, none, some, List, [], ◌∷◌, ◌++◌, ltb, if◌then◌else◌,
}
use pispot.Go.Bytes.{Bytes, lit, equal}
use pispot.Go.Map.{Map, lookup, insert}

-- Instants and durations, in nanoseconds.
abbrev pub cache_ttl : ℕ
cache_ttl = 300_000_000_000

pub record CachedEntry : Type 0 where
  pub role : Bytes
  pub expires : ℕ

abbrev pub AuthCache : Type 0
AuthCache = Map CachedEntry

hex_digit : ℕ → ℕ
hex_digit n = if ltb n 10 then 48 + n else 87 + n

-- hex.EncodeToString
pub encode_hex : Bytes → Bytes
unfolding hex_digit
encode_hex [] = []
encode_hex (c ∷ s) = hex_digit (c / 16) ∷ hex_digit (c % 16) ∷ encode_hex s

-- What `get` makes of the entry.
fresh : ℕ → Option CachedEntry → Option Bytes
fresh now none = none
fresh now (some e) = if ltb e.expires now then none else some e.role

-- `digest` is sha256.Sum256.
module _ (digest : Bytes → Bytes) where
  pub cache_key : Bytes → Bytes → Bytes
  cache_key username password = username ++ (lit ":" ++ encode_hex (digest password))

  -- The role, at the time `now` of the call.
  pub get : ℕ → Bytes → Bytes → AuthCache → Option Bytes
  get now username password items = fresh now (lookup (cache_key username password) items)

  pub set : ℕ → Bytes → Bytes → Bytes → AuthCache → AuthCache
  set now username password role =
      insert (cache_key username password) (record { role = role; expires = now + cache_ttl })

-- All that the cache computes with.
unfoldable pub caching : Unit {0}
unfolding get set fresh cache_key encode_hex lookup insert equal
caching = tt
