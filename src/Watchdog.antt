-- ===== src/Watchdog.antt =====
-- app/watchdog.cpp and app/watchdog_service.cpp: the IPMI watchdog commands over the watchdog of
-- the D-Bus.
pub mod Service
pub mod Commands
