-- ===== src/Server.antt =====
-- a2/Server.h and a2/Server.cc, the part that both group servers share: which interface and port
-- they listen on, and the students of each group. C++ strings are lists of bytes.
pub mod Command
pub mod Run
pub mod Wire
pub mod Groups
pub mod Listen
pub mod Udp
pub mod Tcp
pub mod Input
pub mod Clients
pub mod Session
mod Tests
