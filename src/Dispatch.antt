-- ===== src/Dispatch.antt =====
-- ipmid-new.cpp: the registration of command handlers and filters, and the execution of a request.
-- A handler and a filter are functions of the request, which the providers register. Privileges
-- are the numbers of `enum class Privilege`, priorities those that api-types.hpp names (0 to 50).
pub mod Request
pub mod Reservation
pub mod Registry
pub mod Filters
pub mod Execute
pub mod Handler
