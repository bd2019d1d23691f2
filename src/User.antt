-- ===== src/User.antt =====
-- user_channel/user_mgmt.cpp (class UserAccess): the table of IPMI users, kept in a file and in step
-- with the users of the system. The numbers are those of user_channel/user_layer.hpp.
pub mod Privilege
pub mod Table
pub mod Store
pub mod Access
pub mod Names
pub mod Commands
pub mod Events
pub mod Sync
pub mod Layer
pub mod Handlers
pub mod Passwords
