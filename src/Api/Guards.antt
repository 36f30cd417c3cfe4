-- ===== src/Api/Guards.antt =====
-- What the handlers let through to the daemon.
use pispot.Base.{◌≡◌, refl, true, false, ◌||◌, ◌&&◌, ◌⊎◌, arith}
use pispot.Authz.Client.{Helper}
use pispot.Go.Bytes.{Bytes, lit, equal, is_empty, has_prefix}
use pispot.Http.{HttpRequest, HttpResponse}
use pispot.Api.{
  wifi_admin_check, guarded, remove_network, add_network, wifi_networks, wifi_network, wifi_reload,
  wan_op, mux,
}

-- A method that the endpoint of the path takes, by an admin, with an auth socket.
pub record IsPermitted (socket : Bytes) (r : HttpRequest) (role : Bytes) : Type 0 where
  pub by_admin : equal role (lit "admin") ≡ true
  pub configured : is_empty socket ≡ false
  pub endpoint :
      (((equal r.path (lit "/api/wan/up")
            || equal r.path (lit "/api/wan/down")
            || equal r.path (lit "/api/wifi/reload")
            || equal r.path (lit "/api/wifi/networks"))
          && equal r.method (lit "POST"))
        || (equal r.path (lit "/api/wifi/networks") && equal r.method (lit "GET"))
        || (has_prefix r.path (lit "/api/wifi/networks/") && equal r.method (lit "DELETE")))
      ≡ true

module _ {S : Type 0} (socket : Bytes) (helper : Helper S) where
  pub mux-not_admin :
      (page : HttpRequest → Bytes → HttpResponse) (r : HttpRequest) (role : Bytes) (s : S)
      → equal role (lit "admin") ≡ false
      → (mux socket helper page r role s).1 ≡ s
  unfolding mux wan_op wifi_networks wifi_network wifi_reload guarded wifi_admin_check
  mux-not_admin page r role s h = ground arith

  -- A request reaches the daemon only with the method of its endpoint, from an admin, with an auth
  -- socket; any other leaves the state of the daemon alone.
  pub mux_guards :
      (page : HttpRequest → Bytes → HttpResponse) (r : HttpRequest) (role : Bytes) (s : S)
      → ((mux socket helper page r role s).1 ≡ s) ⊎ IsPermitted socket r role
  unfolding mux wan_op wifi_networks wifi_network wifi_reload guarded wifi_admin_check
      remove_network add_network
  mux_guards page r role s = ground arith

  -- The probe does not call the daemon.
  pub mux-healthz :
      (page : HttpRequest → Bytes → HttpResponse) (r : HttpRequest) (role : Bytes) (s : S)
      → r.path ≡ lit "/healthz"
      → mux socket helper page r role s ≡ (page r role, s)
  unfolding mux equal has_prefix
  mux-healthz page r role s h = rw h refl
