-- ===== src/Channel.antt =====
-- user_channel/channel_mgmt.cpp (class ChannelConfig): the IPMI channels, their configuration, and
-- their access settings in a volatile and a non-volatile file.
pub mod Names
pub mod Data
pub mod Store
pub mod Config
pub mod Access
pub mod Persist
pub mod Sync
pub mod Commands
pub mod Info
