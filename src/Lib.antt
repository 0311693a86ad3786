-- ===== src/Lib.antt =====
-- A model of tinyPortMapper-rust, a forwarder of TCP connections and UDP sessions, and theorems
-- about it.
--
-- An event loop waits on a poll. The listen socket and both ends of each connection are
-- registered under tokens. A token leads to a handle (`Fd64`, a number that is never reused),
-- and a handle to a raw descriptor. An accepted socket gets a second socket to the remote address;
-- the pair is a connection, kept under the handle of its local end. Events of either end move
-- bytes to the other. A manager of connections and one of sessions clear what was idle for too
-- long, and an LRU collector keeps their times.
--
-- Files and the code they model:
--   Common      helpers: lists, maps as association lists, 64-bit words, Boolean tests
--   Clock       src/log.rs `get_current_time`, src/lib.rs `get_current_time_us`
--   Wire        src/lib.rs, integers in network order, `sdbm`, comparisons
--   Random      src/lib.rs, the pseudo-random numbers and the packing of words
--   FdManager   src/fd_manager.rs; Handles has its laws, History runs of its calls
--   Tokens      src/event/mod.rs `TokenManager`
--   Stats       src/stats.rs, the counters
--   Lru         src/lru.rs `LruCollector`; Heap, Laws, Oldest and Cleanup have its laws,
--               Refinement the collector as a table
--   Address     src/types/address.rs; Mapped the translation of addresses, Sockaddr the bytes
--               of `sockaddr_storage`, Bytes `to_bytes` and the hash, Parse `from_str` and
--               `Display`
--   Connection  src/connection/mod.rs
--   Manager     src/manager/mod.rs; Tcp and Udp are the two managers, Inactive the choice that
--               their `clear_inactive` make, Tcp.Draining passes of it one after the other
--   Timer       src/event/timer.rs
--   Log         src/log.rs, the levels and the settings of the logger
--   Config      src/config.rs
--   Kernel      what the handlers ask of the operating system and the poll, as a record of
--               functions on a state; Kernel.Script is an instance for tests
--   World       the state of `EventLoop` that the handlers share; Valid is its invariant, Later
--               relates its handles and tokens to those of the states after it
--   Tcp         src/event/tcp.rs; Accept is `on_accept`, Relay the two loops of `on_read`, Close
--               `close_conn`, Events `on_read` and `handle_connect_finish`, Events.Write `on_write`;
--               Accept.Opened is about a new client
--   Udp         src/event/udp.rs; Opened and Exchange are about a new client, Responses about
--               what comes back
--   Loop        src/event/mod.rs `register_listen_socket`, `run` and `shutdown`; Laws and Running
--               have its invariant, Handlers what it needs of the handlers, Stale is about events
--               of closed connections, Shutdown about what is closed in the end
--   Startup     src/main.rs from the parsed arguments to `run`; Arguments has the values with a
--               parser of their own and the options that are read before `clap`, Serving is about the
--               listen sockets once the loop starts
--
-- A function that changes state takes the state and returns it. A panic or undefined behaviour is
-- `none` or a `Fault`. Locks are left out: the handlers run in the one thread of the loop. Words
-- keep their wrap-around (`add_u64`, `sub_u64`), as in a release build. A hash map is an
-- association list, of which no theorem uses the order.
--
-- The loops of `on_read` run on fuel, one unit a round. Each round that goes on takes bytes
-- off the queue of the socket that is read, so fuel above the length of the queue is enough if
-- nothing arrives meanwhile (`relay_local-ne-stuck` of Tcp.Relay.Ends). `on_read` and
-- `handle_connect_finish` call each other; the inner call gets a handler that is a fault, since
-- the connection is no longer being made. `Loop.run` makes as many rounds as it is given, and
-- says whether it stopped for that reason; a round takes at most 2048 handles and tokens, since
-- a poll returns at most 1024 events.
--
-- What a theorem assumes of code that is not in the repository is a record or a type next to it:
-- `IsQuiet` (nothing arrives during a loop of a handler), `Ledger` (`recv` and `send` move bytes
-- in order, and a failed call moves none), `Batches` (a poll returns at most as many events as
-- there is room for), `Closing` (`close` closes what it is given, and nothing else), `SocketCalls`
-- with `CallsWork` (`bind`, `listen` and the registration with the poll have their effect on the
-- socket that they are given, if they succeed, and the other calls of the start leave it), `Outbox`
-- (`sendto` sends the bytes it is given, and no other call does) and
-- `IsFaithful` (the standard library reads the addresses and ports that it prints).
--
-- Not modelled: src/event/signals.rs but for its flag, the parsing by `clap`, printing and writing
-- log lines, socket options, `djb2`, `round_up_div`, `my_ntoa` and the string helpers of
-- src/lib.rs, the build script, and code for Windows.
pub mod Common
pub mod Clock
pub mod Wire
pub mod Random
pub mod FdManager
pub mod Tokens
pub mod Stats
pub mod Lru
pub mod Address
pub mod Connection
pub mod Manager
pub mod Kernel
pub mod World
pub mod Timer
pub mod Tcp
pub mod Udp
pub mod Loop
pub mod Log
pub mod Config
pub mod Startup
