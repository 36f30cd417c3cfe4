-- ===== src/Hotspot.antt =====
-- dashboard/internal/hotspot: the clients of the access point.
pub mod Collector
pub mod Leases
pub mod Stations
