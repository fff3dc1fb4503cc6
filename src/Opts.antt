-- ===== src/Opts.antt =====
-- src/opts/mod.rs: the options that the pool and the connections read. A `Duration` is a number of
-- nanoseconds.
pub mod PoolOpts
pub mod Url
pub mod Tests
