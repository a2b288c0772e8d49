-- ===== src/Stun.antt =====
-- stun/: the STUN message codec and the timers of its transactions.
pub mod Types
pub mod Wire
pub mod Message
pub mod Length
pub mod Attribute
pub mod Sockaddr
pub mod Crc
pub mod Strerror
pub mod Hmac
pub mod Agent
pub mod Value
pub mod Timer
pub mod IceUsage
mod Tests
