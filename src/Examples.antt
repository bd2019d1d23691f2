-- ===== src/Examples.antt =====
-- The theorems at concrete messages, commands and inventories.
mod Message
mod Channel
mod Dispatch
mod Fru
mod Handler
mod HostCommand
mod Watchdog
mod User
mod Passwd
mod UserCommands
mod Whitelist
