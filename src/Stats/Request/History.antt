-- ===== src/Stats/Request/History.antt =====
-- What the statistics show, by the answers of the host alone.
use pispot.Base.{
  ℕ, suc, ◌≡◌, refl, ap, sym, subst, ◌∙◌, ◌⊎◌, inl, inr, Bool, true, false, not, Option, none, some,
  List, [], ◌∷◌, map, length, is_some, arith,
}
use pispot.Admin
use pispot.Admin.History as AdminHistory
use pispot.Admin.Rate as AdminRate
use pispot.Go.Bytes.{Bytes}
use pispot.Hotspot.Collector as HotspotCollector
use pispot.Hotspot.Collector.History as HotspotHistory
use pispot.Hotspot.Collector.Rate as HotspotRate
use pispot.Hotspot.Stations.{Client}
use pispot.Lazy.{Tick, collect, effective}
use pispot.Lazy.Rate.{behind, snapshot-behind}
use pispot.Stats.{
  HotspotClient, WanSummary, AdminSummary, Statistics, error_text, client_json, hotspot_from,
  admin_from, wan_from,
}
use pispot.Stats.Request.{Server, Setups, Visit, consulted, shown, consult, collected, stats}
use pispot.WanLink.Collector as WanCollector
use pispot.WanLink.Collector.History as WanHistory
use pispot.WanLink.Collector.Rate as WanRate

-- A section without its error.
pub client_info : HotspotClient → Client
client_info c = record {
  mac = c.mac;
  ip = c.ip;
  hostname = c.hostname;
  signal_dbm = c.signal_dbm;
  connected_seconds = c.connected_seconds;
  rx_bytes = c.rx_bytes;
  tx_bytes = c.tx_bytes;
}

pub wan_info : {F : Type 0} → WanSummary F → WanCollector.Info F
wan_info w = record {
  interface = w.interface;
  interface_present = w.interface_present;
  supplicant_active = w.supplicant_active;
  connected = w.connected;
  ssid = w.ssid;
  bssid = w.bssid;
  signal_dbm = w.signal_dbm;
  freq_mhz = w.freq_mhz;
  tx_bitrate_mbps = w.tx_bitrate_mbps;
  ip = w.ip;
  gateway = w.gateway;
}

pub admin_info : AdminSummary → Admin.Info
admin_info a = record { interface = a.interface; ip = a.ip; gateway = a.gateway; link = a.link }

-- When the collectors were made, and the refreshes of each since then.
pub record Histories : Type 0 where
  pub began : ℕ
  pub hotspot : List (Tick HotspotCollector.Probe)
  pub wan : List (Tick WanCollector.Probe)
  pub admin : List (Tick Admin.Probe)

-- No error is shown, or the last of the refreshes that asked the host was not whole.
abbrev pub Explains : Bool → Bytes → Type 0
Explains healthy error = (error ≡ []) ⊎ (healthy ≡ false)

error_text-Explains :
    (failed : Option Bytes) (healthy : Bool)
    → is_some failed ≡ not healthy
    → Explains healthy (error_text failed)
unfolding error_text
error_text-Explains none healthy h = inl refl
error_text-Explains (some e) true h = ground arith
error_text-Explains (some e) false h = inr refl

clients-client_info : (cs : List Client) → map client_info (map client_json cs) ≡ cs
unfolding client_info client_json
clients-client_info [] = refl
clients-client_info (c ∷ cs) = λ i. c ∷ clients-client_info cs i

length-map : {A B : Type 0} (f : A → B) (xs : List A) → length (map f xs) ≡ length xs
length-map f [] = refl
length-map f (x ∷ xs) = ap (λ n. suc n) (length-map f xs)

module _ {F : Type 0} (setups : Setups F) where
  -- A server whose lazy collectors have these histories.
  pub with_histories : Histories → Server F → Server F
  with_histories h s = record s {
    hotspot = some (collect (HotspotRate.lazy setups.hotspot h.began) h.hotspot);
    wan = some (collect (WanRate.lazy setups.wan h.began) h.wan);
    admin = some (collect (AdminRate.lazy setups.admin h.began) h.admin);
  }

  -- The histories behind a request.
  pub later : Visit → Histories → Histories
  later v h = record h {
    hotspot =
        behind (HotspotRate.lazy setups.hotspot h.began) v.hotspot.at v.hotspot.tick h.hotspot;
    wan = behind (WanRate.lazy setups.wan h.began) v.wan.at v.wan.tick h.wan;
    admin = behind (AdminRate.lazy setups.admin h.began) v.admin.at v.admin.tick h.admin;
  }

  consult-later :
      (v : Visit) (h : Histories) (s : Server F)
      → consult setups v (with_histories h s) ≡ with_histories (later v h) s
  unfolding consult consulted with_histories later
  consult-later v h s = λ i. record s {
    hotspot = some (
        snapshot-behind (HotspotRate.lazy setups.hotspot h.began) v.hotspot.at v.hotspot.tick
          h.hotspot i);
    wan = some (snapshot-behind (WanRate.lazy setups.wan h.began) v.wan.at v.wan.tick h.wan i);
    admin =
        some
          (snapshot-behind (AdminRate.lazy setups.admin h.began) v.admin.at v.admin.tick h.admin i);
  }

  -- Each section, without its error, is what the answers of the host give.
  pub Tells : Histories → Statistics F → Type 0
  Tells h a =
      let hotspot = effective (HotspotRate.lazy setups.hotspot h.began) h.hotspot in
      let wan = effective (WanRate.lazy setups.wan h.began) h.wan in
      let admin = effective (AdminRate.lazy setups.admin h.began) h.admin in
      (map client_info a.hotspot.clients ≡ HotspotHistory.shown setups.hotspot hotspot)
      × (a.hotspot.client_count ≡ length (HotspotHistory.shown setups.hotspot hotspot))
      × Explains (HotspotHistory.healthy hotspot) a.hotspot.error
      × (wan_info a.wan ≡ WanHistory.shown setups.wan wan)
      × Explains (WanHistory.healthy setups.wan wan) a.wan.error
      × (admin_info a.admin ≡ AdminHistory.shown setups.admin admin)
      × Explains (AdminHistory.healthy admin) a.admin.error

  collected-Tells :
      (v : Visit) (h : Histories) (s : Server F) → Tells h (collected setups v (with_histories h s))
  unfolding Tells collected with_histories shown hotspot_from wan_from admin_from wan_info
      admin_info
  collected-Tells v h s =
      let (clients, clients_failed) =
        HotspotHistory.collect-clients setups.hotspot h.began h.hotspot in
      let (link, link_failed) = WanHistory.collect-view setups.wan h.began h.wan in
      let (admin, admin_failed) = AdminHistory.collect-Shows setups.admin h.began h.admin in
      let here = (collect (HotspotRate.lazy setups.hotspot h.began) h.hotspot).snap.clients in
      (
        clients-client_info here ∙ clients,
        length-map client_json here ∙ ap length clients,
        error_text-Explains _ _ clients_failed,
        link,
        error_text-Explains _ _ link_failed,
        admin,
        error_text-Explains _ _ admin_failed,
      )

-- Whatever the refreshes before and those of the request itself: the statistics show the clients, the
-- upstream association and the administration interface that the answers of the host give, counts
-- them, and has no error in a section whose last refresh was whole; and the server is left with the
-- histories that the request adds to.
pub stats-Tells :
    {F : Type 0} (setups : Setups F) (v : Visit) (h : Histories) (s : Server F)
    → let (a, s') = stats setups v (with_histories setups h s) in
      (s' ≡ with_histories setups (later setups v h) s) × Tells setups (later setups v h) a
unfolding stats
stats-Tells setups v h s = (
  consult-later setups v h s,
  subst (λ s'. Tells setups (later setups v h) (collected setups v s'))
      (sym (consult-later setups v h s)) (collected-Tells setups v (later setups v h) s),
)
