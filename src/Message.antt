-- ===== src/Message.antt =====
-- include/ipmid/message.hpp and include/ipmid/message/: the payload of a request or a response, and
-- how typed values are packed into it and unpacked from it.
pub mod Payload
pub mod Item
pub mod Pack
pub mod Unpack
pub mod Layout
pub mod RoundTrip
pub mod Errors
pub mod Text
