-- ===== src/Lib.antt =====
-- mysql_async: an asynchronous MySQL driver, and in it the connection pool.
--
-- A `Pool` shares one state among its handles and three kinds of futures. `GetConn` asks it for a
-- connection: an idle one, which is checked first, a new one while there are fewer than the
-- maximum, or a place in the wait list. A dropped `Conn` is sent over a channel to the `Recycler`,
-- which cleans, resets or closes it, files it as idle, gives the places of lost connections back and
-- wakes the next waiting request. `TtlCheckInterval` disconnects old idle connections, and
-- `DisconnectPool` closes the pool and waits for the recycler to finish.
--
-- Files, with the source under src/:
--   Opts/PoolOpts            opts/mod.rs: PoolConstraints, PoolOpts
--   Opts/Url                 opts/mod.rs: mysqlopts_from_url, from the query pairs on
--   Conn/TxStatus            queryable/transaction.rs: the transaction status
--   Conn/State, Conn/Pending conn/mod.rs: the fields of a connection that steer the driver, and its
--                            pending result
--   Session/Outcome          error/mod.rs: Error, and the results of asynchronous functions
--   Session/Login            conn/mod.rs, opts/mod.rs: what the handshake and the authentication read
--   Session/Protocol         the mysql_common crate, as the driver uses it
--   Session/State            conn/mod.rs: a connection with both ends of its stream
--   Session/Packets          conn/mod.rs: read_packet, write_packet, handle_packet, routine
--   Session/ResultSets       conn/routines/helpers.rs, queryable/stmt.rs: the start of a result set
--   Session/QueryResult      queryable/query_result/mod.rs: QueryResult
--   Session/Stream           queryable/query_result/result_set_stream.rs
--   Session/Commands         conn/mod.rs, queryable/mod.rs: queries, clean_dirty, cleanup_for_pool
--   Session/Transaction      queryable/transaction.rs
--   Session/Reset            conn/mod.rs, conn/routines/reset.rs: Conn::reset
--   Session/Auth             conn/mod.rs: continue_auth, perform_auth_switch, the plugins
--   Session/Connect          conn/mod.rs, conn/routines/change_user.rs: handshake, TLS, compression
--   Session/ChangeUser       conn/mod.rs, opts/mod.rs: change_user, reset_for_pool
--   Session/Stmt             queryable/stmt.rs, conn/routines/prepare.rs, exec.rs, helpers.rs
--   Session/Settings         conn/mod.rs: read_settings
--   Session/Open             conn/mod.rs: Conn::new, the reconnect through a socket
--   Session/Answers          what a server answers to a query, as packets
--   Session/Ends             how the functions of Session end
--   Session/Runs             what the functions of the login have sent, however they end
--   Session/Sends            what reading results, cleaning and resetting send
--   Conn/StmtCache           conn/stmt_cache.rs
--   Pool/Waitlist            conn/pool/mod.rs: QueueId, QueuedWaker, Waitlist
--   Pool/State               conn/pool/mod.rs, metrics.rs: the shared state
--   Pool/Exchange            conn/pool/mod.rs: the operations of Pool, and the drop of a Conn
--   Pool/Recycler            conn/pool/recycler.rs: poll and drop; Recycler/Task has its state
--   Pool/Ttl                 conn/pool/ttl_check_inerval.rs
--   Pool/GetConn             conn/pool/futures/get_conn.rs
--   Pool/Disconnect          conn/pool/futures/disconnect_pool.rs
--   BufferPool               buffer_pool.rs
--   Prelude                  lists, tests, results and machine words that all of them use
--
-- An operation is a function from the state to the state. Every operation of the pool runs under
-- the lock of `Exchange`, so the atomics are fields of the same state. An assertion that fails and
-- `unreachable!` are `panics`, and `usize` counters wrap around at 2 ^ 64. The time of
-- `Instant::now()` and the waker of the polling task are arguments. The keyed_priority_queue crate
-- is an instance argument, and what it documents is the record `IsKeyedPriorityQueue`, which a
-- sorted list fills; the lru and crossbeam crates are the same, with `IsLruCache` and
-- `IsArrayQueue`, and the bytes of a query are a list. Loops that take from a list run on fuel,
-- the length of the list, which is enough since each round takes one element; the loop of
-- `GetConn` runs on the results of the inner futures.
--
-- A `Session` is a connection with the packets that the server will send before it closes the stream,
-- and with what the driver has sent. An asynchronous function is a function from a session to an
-- `Outcome` and the session afterwards. The parsers of mysql_common are a parameter, `MySqlCommon`.
-- A loop that reads runs on fuel, one more than the number of packets to come, since each round
-- takes one; `clean_dirty`, which may send a `ROLLBACK`, which is preceded by a `clean_dirty`, runs
-- on two levels. `stuck` is the end of the fuel, which `Ends` excludes. `IsSafe`
-- packets are those that are not empty, and that do not start a result set of no columns.
--
-- What the authentication needs of mysql_common, the digests of the plugins and the parsers of their
-- packets, is a parameter as well, `MySqlAuth`, and so is what it does with the parameters of a
-- statement, `MySqlParams`. A plugin that asks to switch starts the authentication again: it runs on
-- two levels, since the driver switches once.
--
-- Not modelled: sockets, the records of TLS and sequence ids, which are I/O; the histograms; the
-- stream of the binlog; and the builder of the options. In the pool, the futures that
-- connect, check, clean, reset and close a connection are arguments, by their results.
pub mod Prelude
pub mod BufferPool
pub mod Conn
pub mod Opts
pub mod Pool
pub mod Session
