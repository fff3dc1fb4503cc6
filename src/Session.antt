-- ===== src/Session.antt =====
-- src/conn/mod.rs, src/conn/routines/ and src/queryable/: what a connection sends and reads.
pub mod Outcome
pub mod Login
pub mod Auth
pub mod Protocol
pub mod State
pub mod Packets
pub mod ResultSets
pub mod QueryResult
pub mod Commands
pub mod Transaction
pub mod Reset
pub mod Connect
pub mod ChangeUser
pub mod Stmt
pub mod Settings
pub mod Open
pub mod Stream
pub mod Runs
pub mod Sends
pub mod Ends
pub mod Answers
pub mod Samples
pub mod Tests
pub mod LoginTests
pub mod StmtTests
