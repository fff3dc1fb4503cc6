-- ===== src/Conn.antt =====
-- src/conn/mod.rs and src/queryable/transaction.rs: a connection, seen by the pool and by the
-- query layer.
pub mod TxStatus
pub mod State
pub mod Pending
pub mod StmtCache
pub mod Tests
