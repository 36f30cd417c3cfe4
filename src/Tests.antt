-- ===== src/Tests.antt =====
-- Tests of the definitions at concrete inputs, and the theorems at inputs that meet their hypotheses.
mod Admin
mod Wifi
mod Race
mod Daemon
mod Hotspot
mod Settings
mod Dashboard
mod WanLink
mod Metrics
mod Concurrent
mod Serve
mod Ctl
mod Statistics
