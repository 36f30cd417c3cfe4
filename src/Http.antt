-- ===== src/Http.antt =====
-- The requests and responses of net/http, as far as the handlers of pispot-ui read and write them.
use pispot.Base.{ℕ, Option, List, [], ◌∷◌, ◌++◌}
use pispot.Go.Bytes.{Bytes, lit}
use pispot.Wifi.Config.{Network}

pub record HttpRequest : Type 0 where
  pub method : Bytes
  pub path : Bytes
  -- the results of r.BasicAuth(), if it succeeds
  pub basic_auth : Option (Bytes × Bytes)
  -- the fields ssid and psk of the body, if it is JSON
  pub body : Option Network

-- A body: text, or a value that encoding/json writes.
pub data Body : Type 0 where
  text : Bytes → Body
  -- {"ok":"false","error":…}
  json_error : Bytes → Body
  -- {"ok":true,"networks":…}
  json_networks : List Network → Body

pub record HttpResponse : Type 0 where
  pub status : ℕ
  pub headers : List (Bytes × Bytes)
  pub body : Body

-- http.Error behind the headers set before it.
abbrev pub http_error : List (Bytes × Bytes) → ℕ → Bytes → HttpResponse
http_error headers status message = record {
  status = status;
  headers =
      headers
      ++ (lit "Content-Type", lit "text/plain; charset=utf-8")
        ∷ (lit "X-Content-Type-Options", lit "nosniff")
        ∷ [];
  body = text (message ++ lit "\n");
}
