-- ===== src/Lib.antt =====
-- Low-latency exchange: a limit order book with price and time priority, the commands that it takes,
-- and what stands around it.
--
-- The program
-- ===========
-- `NewOrder`, `CancelOrder` and `ReplaceOrder` (include/low_latency_exchange/order_command.hpp) go to
-- `OrderBook` (order_book.hpp, src/order_book.cpp), which matches an order against the other side, best
-- price first and oldest first at a price, rests what is left of a limit order, and keeps an index from
-- the ids of the resting orders to their places.
--
-- The commands come over the wire (protocol.hpp, src/protocol.cpp), and the engine tells market data of
-- each change: `MarketDataFeed` (market_data.hpp, src/market_data.cpp) copies the best levels of the book
-- into an event and pushes it on a `BoundedSPSCQueue` (spsc_queue.hpp), from which `MarketDataPublisher`
-- gives it to the `MarketDataBook` of a subscriber. A full queue drops the event, and the next event that
-- gets through is then a snapshot.
--
-- `TcpGateway` and its `TcpSession`s (tcp_gateway.hpp, src/tcp_gateway.cpp) check and decode frames and
-- push the commands on the inbound queue; `MatchingEngineService`, the one thread that writes the book,
-- pops them, answers on the outbound queue, captures what the book has accepted and publishes market
-- data; the gateway serializes the answers and hands them to the sessions. A recorder drains the captured
-- commands into a log (event_log.hpp, src/event_log.cpp), from which `replay_event_log` rebuilds a book.
-- The engine counts its latencies in a histogram (observability.hpp).
--
-- The files
-- =========
--   Prelude     native numbers, Boolean tests, lists, 64-bit words and bit operations
--   Types       include/low_latency_exchange/types.hpp
--   Command     include/low_latency_exchange/order_command.hpp
--   Assoc       `std::unordered_map`, as an association list with one entry for each key
--   Book        include/low_latency_exchange/order_book.hpp and src/order_book.cpp
--   Spsc        include/low_latency_exchange/spsc_queue.hpp
--   Market      include/low_latency_exchange/market_data.hpp and src/market_data.cpp
--   Protocol    include/low_latency_exchange/protocol.hpp and src/protocol.cpp
--   EventLog    include/low_latency_exchange/event_log.hpp and src/event_log.cpp
--   Observability  include/low_latency_exchange/observability.hpp
--   Engine      `MatchingEngineService` of tcp_gateway.hpp and src/tcp_gateway.cpp
--   Gateway     `TcpSession`, `TcpGateway` and the frames of src/tcp_gateway.cpp
--
-- Book/State has the records; Book/Match is `match_against_book`; Book/Edit has
-- `insert_resting_order`, `remove_resting_order` and what `replace` does in place; Book/Commands has
-- `submit`, `cancel` and `replace`; Book/Query has the queries, Book/Query/Check `validate_invariants`
-- and `state_digest`. Book/Fill is the abstract view: the orders of a side in one queue of entries,
-- best price first, and the walk of an incoming order along that queue (Book/Walk). Book/Levels, Book/Queue and
-- Book/Index relate the sorted map of levels, the queue and the index to each other; Book/Valid is the
-- invariant, and the files under it show that each operation keeps it.
--
-- How the code is modelled
-- ========================
-- A `std::map` of levels is a list of pairs in the order of its comparator, bids from the highest price
-- and asks from the lowest. A `std::list` is a list of nodes, each with an address that is never used
-- again; an iterator is such an address. What C++ leaves undefined, the dereference of an iterator that
-- dangles or of an empty `std::optional`, is `none`. A 64-bit unsigned integer is a number below 2 ^ 64
-- whose sums and differences wrap (`add64`, `sub64`). A `Quantity` is a number of at least 1 where it
-- has come out of `from_units`; a `Price` is a number of ticks of at least 1.
--
-- The two branches of `match_against_book`, which differ in the side alone, are one definition with the
-- side as an argument. Its loops run on fuel: the inner loop is given the number of orders of the level,
-- and the outer one the number of levels, plus one in each case; every round removes an order, a level,
-- or the last unit of the incoming order, and the equivalence with the walk of the queue shows that this
-- fuel is never used up.
--
-- The queue (Spsc/Operations) is a record of the ring, the two shared indices and the two cached ones. Each
-- operation is run to its end: the interleaving of the two threads inside an operation, and the memory
-- order of the loads and stores, are not modelled. Both overloads of `try_push` are one definition.
-- Market/Feed and Market/Subscriber have the feed and the subscriber, Market/InStep what ties them; the
-- loop of `publish_available` runs on fuel, one more than what the queue can hold, which is enough for it to
-- end by its own test while the producer rests.
--
-- A span of bytes is a list of numbers; an encoder returns the span after its writes, or `none` where the
-- source returns false, and a decoder the value or the error code. Protocol/Bytes has the reads and writes
-- of integers, Protocol/Header the header and the frame, Protocol/Commands and Protocol/Events the codecs;
-- the files with names in Trip hold the round trips. `MessageType` and `ErrorCode` are the integers that
-- C++ lets these enums hold.
--
-- A log file is a list of bytes, and a stream writes into one that has room for some more (EventLog/Stream).
-- EventLog/Format has the records, EventLog/Replay the loop of `replay_event_log` on fuel, one more than
-- the number of bytes: a record has sixteen bytes at least. EventLog/Journal says which log a list of
-- commands leaves.
--
-- The engine (Engine/Handlers, Engine/Process) is a function of the whole service. The thread that empties
-- the outbound queue is a list of turns, each a number of pops, which it takes before the attempts of the
-- engine to push (Engine/Outbound); `none` is an engine that waits when the turns are over, or undefined
-- behaviour of the book. Between a push and the `size()` after it no turn is taken, which bears on the
-- high-water mark alone. `process_available` runs on fuel: one more than the messages that have arrived is
-- enough. A clock reading is a number of nanoseconds and an argument.
--
-- The handlers that a session gives to Boost.Asio (Gateway/Session) are functions of the error flag and
-- the bytes that Boost.Asio reports; `run_session` is any sequence of such reports and of what the gateway
-- and the engine do meanwhile. `sent` and `enqueued` record the frames written and the commands pushed,
-- for the statements. `poll_outbound` (Gateway/Poll) runs on fuel, one more than the messages that wait.
--
-- The product of a percentile and a count, in `double`, is a parameter of `percentile_upper_bound`.
--
-- Not modelled
-- ============
-- The sockets, the timer and the acceptor of Boost.Asio, the buffer of an output stream and the opening
-- and flushing of files; `event_log_error_name` and the version constant, which are text; the applications
-- and the benchmarks, which are wiring, options, random workloads and measured times.
pub mod Prelude
pub mod Types
pub mod Command
pub mod Assoc
pub mod Book
pub mod Spsc
pub mod Market
pub mod Protocol
pub mod EventLog
pub mod Observability
pub mod Engine
pub mod Gateway
