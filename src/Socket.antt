-- ===== src/Socket.antt =====
-- a4/rcs_t.h and a4/rcs_t.cc: one socket, its methods and what they do.
pub mod Monad
pub mod Low
pub mod Sender
pub mod Receiver
pub mod Methods
pub mod Quiet
pub mod Acks
pub mod Sending
pub mod Delivery
pub mod Rounds
pub mod Inbox
pub mod Transfer
pub mod Connecting
pub mod Waiting
pub mod Chunks
pub mod Roundtrip
pub mod Fuel
mod Tests
