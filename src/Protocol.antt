-- ===== src/Protocol.antt =====
-- a4/rcs_t.cc: a sender and a receiver, over the channel of a4/ucp.c.
pub mod Kept
pub mod Round
pub mod Echo
pub mod Messages
pub mod Steps
pub mod Agreed
pub mod Sends
pub mod Receives
pub mod Invariant
pub mod Delivered
pub mod Acking
pub mod Runs
pub mod Turns
mod Noise
mod Tests
