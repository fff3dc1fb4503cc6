-- ===== src/Pool.antt =====
-- src/conn/pool/: the connection pool.
pub mod Waitlist
pub mod State
pub mod Exchange
pub mod Recycler
pub mod Ttl
pub mod GetConn
pub mod Disconnect
pub mod Tests
