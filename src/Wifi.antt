-- ===== src/Wifi.antt =====
-- host/internal/wifi/config.go: the wpa_supplicant configuration of wlan1.
pub mod Config
pub mod Store
