-- ===== src/Authz/Cache/Keys.antt =====
-- Two credentials share a cache entry only if they share the name and the digest of the password.
use mathlib.Core.List.{head-eq_of_cons-eq, tail-eq_of_cons-eq}
use pispot.Base.{
  ℕ, ◌+◌, ◌*◌, ◌/◌, ◌%◌, ◌<◌, ◌≡◌, refl, ap, List, [], ◌∷◌, ◌++◌, if◌then◌else◌, length, some,
  Option-cases, inl, inr, ◌≤◌, length-append, arith, All,
}
use pispot.Go.Bytes.{Bytes, equal}
use pispot.Go.Map.{lookup, lookup-insert}
use pispot.Authz.Cache.{
  AuthCache, CachedEntry, cache_ttl, fresh, get, hex_digit, encode_hex, cache_key, set,
}

length-encode_hex : (s : Bytes) → length (encode_hex s) ≡ 2 * length s
unfolding encode_hex
length-encode_hex [] = omega arith
length-encode_hex (c ∷ s) = omega (arith, length-encode_hex s)

abbrev pub IsByte : ℕ → Type 0
IsByte c = c < 256

hex_digit-injective : (m n : ℕ) → m < 16 → n < 16 → hex_digit m ≡ hex_digit n → m ≡ n
unfolding hex_digit
hex_digit-injective m n hm hn e = ground arith

encode_hex-byte :
    (c d : ℕ)
    → IsByte c
    → IsByte d
    → hex_digit (c / 16) ≡ hex_digit (d / 16)
    → hex_digit (c % 16) ≡ hex_digit (d % 16)
    → c ≡ d
encode_hex-byte c d hc hd high low = omega (
  arith,
  hex_digit-injective (c / 16) (d / 16) (omega arith) (omega arith) high,
  hex_digit-injective (c % 16) (d % 16) (omega arith) (omega arith) low,
)

encode_hex-injective :
    (s t : Bytes) → All IsByte s → All IsByte t → encode_hex s ≡ encode_hex t → s ≡ t
unfolding encode_hex
encode_hex-injective [] [] hs ht e = refl
encode_hex-injective [] (d ∷ t) hs ht e = cc
encode_hex-injective (c ∷ s) [] hs ht e = cc
encode_hex-injective (c ∷ s) (d ∷ t) (hc, hs) (hd, ht) e =
    let rest = tail-eq_of_cons-eq e in
    let same = encode_hex-byte c d hc hd (head-eq_of_cons-eq e) (head-eq_of_cons-eq rest) in
    let below = encode_hex-injective s t hs ht (tail-eq_of_cons-eq rest) in λ i. same i ∷ below i

-- Lists that end in tails of the same length split alike.
append_inj_right {ℓ} :
    {A : Type ℓ} (a b s t : List A) → length s ≡ length t → a ++ s ≡ b ++ t → (a ≡ b) × (s ≡ t)
append_inj_right [] [] s t n e = (refl, e)
append_inj_right [] (y ∷ b) s t n e = absurd (omega (arith, ap length e, length-append b t))
append_inj_right (x ∷ a) [] s t n e = absurd (omega (arith, ap length e, length-append a s))
append_inj_right (x ∷ a) (y ∷ b) s t n e =
    let (front, back) = append_inj_right a b s t n (tail-eq_of_cons-eq e) in
    (λ i. head-eq_of_cons-eq e i ∷ front i, back)

-- What sha256.Sum256 promises of its form: 32 bytes.
pub record IsDigest (digest : Bytes → Bytes) : Type 0 where
  pub size : (s : Bytes) → length (digest s) ≡ 32
  pub bytes : (s : Bytes) → All IsByte (digest s)

-- Credentials with one key in the cache have the same name and passwords of the same digest, even
-- where the name holds a colon.
pub cache_key-injective :
    (digest : Bytes → Bytes) (username password username' password' : Bytes)
    → IsDigest digest
    → cache_key digest username password ≡ cache_key digest username' password'
    → (username ≡ username') × (digest password ≡ digest password')
unfolding cache_key
cache_key-injective digest username password username' password' h e =
    let sizes : length (b':' ∷ encode_hex (digest password))
        ≡ length (b':' ∷ encode_hex (digest password')) =
      omega (
        arith,
        length-encode_hex (digest password),
        length-encode_hex (digest password'),
        h.size password,
        h.size password',
      ) in
    let (names, tails) =
      append_inj_right username username' (b':' ∷ encode_hex (digest password))
        (b':' ∷ encode_hex (digest password')) sizes e in
    (
      names,
      encode_hex-injective (digest password) (digest password') (h.bytes password)
          (h.bytes password') (tail-eq_of_cons-eq tails),
    )

pub lookup-set :
    (digest : Bytes → Bytes) (now : ℕ) (username password role k : Bytes) (items : AuthCache)
    → lookup k (set digest now username password role items) ≡ (
        if equal (cache_key digest username password) k
        then some (record { role = role; expires = now + cache_ttl })
        else lookup k items)
unfolding set
lookup-set digest now username password role k items =
    lookup-insert (cache_key digest username password) k
      (record { role = role; expires = now + cache_ttl }) items

-- A role that the cache gives is that of an entry that has not expired.
pub get-eq-some :
    (digest : Bytes → Bytes) (now : ℕ) (username password role : Bytes) (items : AuthCache)
    → get digest now username password items ≡ some role
    → (e : CachedEntry) × (lookup (cache_key digest username password) items ≡ some e)
      × (e.role ≡ role)
      × (now ≤ e.expires)
unfolding get fresh
get-eq-some digest now username password role items found =
    elim (Option-cases (lookup (cache_key digest username password) items)) [
      | inl absent ↦ absurd (let no = rw absent at found in cc)
      | inr (e, there) ↦ let yes = rw there at found in (e, there, ground arith, ground arith)
    ]
