-- ===== src/Tests/Dashboard.antt =====
-- pispot-ui in front of a daemon whose answers are kept for five minutes.
use pispot.Base.{ℕ, zero, suc, ◌%◌, ◌≡◌, refl, none, some, [], ◌∷◌, length, arith, All}
use pispot.Authz.Cache.{cache_key}
use pispot.Authz.Cache.Keys.{IsByte, IsDigest, cache_key-injective}
use pispot.Authz.Middleware.{Settings}
use pispot.Go.Bytes.{Bytes, lit}
use pispot.Http.{HttpRequest}
use pispot.Tests.Daemon.{tables}

-- The first bytes of a text, as many as asked for.
abbrev pub fit : ℕ → Bytes → Bytes
fit zero s = []
fit (suc n) [] = 0 ∷ fit n []
fit (suc n) (c ∷ s) = c % 256 ∷ fit n s

length-fit : (n : ℕ) (s : Bytes) → length (fit n s) ≡ n
length-fit zero s = refl
length-fit (suc n) [] = omega (arith, length-fit n [])
length-fit (suc n) (c ∷ s) = omega (arith, length-fit n s)

fit-IsByte : (n : ℕ) (s : Bytes) → All IsByte (fit n s)
fit-IsByte zero s = tt
fit-IsByte (suc n) [] = (omega arith, fit-IsByte n [])
fit-IsByte (suc n) (c ∷ s) = (omega arith, fit-IsByte n s)

pub fit-IsDigest : IsDigest (fit 32)
fit-IsDigest = record { size = length-fit 32; bytes = fit-IsByte 32 }

abbrev pub settings : Settings
settings = record {
  unicode = tables;
  digest = fit 32;
  socket_path = lit "/run/pispot/auth.sock";
  realm = lit "PiSpot";
}

abbrev pub post : HttpRequest
post = record {
  method = lit "POST";
  path = lit "/api/wan/down";
  basic_auth = some (lit "eve", lit "s3cret");
  body = none;
}

same_key : cache_key (fit 32) (lit "a:b") (lit "c") ≡ cache_key (fit 32) (lit "a:b") (lit "c")
same_key = refl

cache_key-injective_example : (lit "a:b" ≡ lit "a:b") × (fit 32 (lit "c") ≡ fit 32 (lit "c"))
cache_key-injective_example =
    cache_key-injective (fit 32) (lit "a:b") (lit "c") (lit "a:b") (lit "c") fit-IsDigest same_key
