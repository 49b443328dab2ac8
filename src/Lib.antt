-- ===== src/Lib.antt =====
-- Verification of the consolidated-book server.
--
-- The program reads trades of several exchanges over WebSockets, drops repeated messages, hands the
-- trades to one consumer through a lock-free queue, and makes a candle per instrument of them.
--
-- Types models types/ (trade.h, candle.h, exchange.h): the Exchange and InstrumentId enumerations with
-- the converters of ExchangeConverter, and the records Trade and Candle. A double is a value of a type
-- parameter; Types.Double holds its operations and the laws of comparison that proofs use.
-- Types.Exchange.Converter has ExchangeConverter as one interface.
--
-- Candle models candle_manager/: Candle.Manager has CandleManager (HandleMessage, HandleTrade,
-- UpdateCandle, CreateCandle, GetCandlesSnapshot). The map of candles is an association list; the
-- proofs are about lookups, since the order of an unordered_map is not promised. Candle.Lookup,
-- Candle.History, Candle.Range, Candle.Window and Candle.Snapshot hold the proofs. Candle.Parsers has
-- BinanceSpotParser and BybitSpotParser, with simdjson and fast_float as a parameter, and in its
-- Documents the messages that their comments show. Candle.Messages puts the manager and the parsers
-- together. Candle.Calls runs the public functions in any sequence, against a specification that
-- remembers the trades only.
--
-- Hash models HashIDManager of md_provider/provider/hash_manager.h and hash_manager.cpp. The set is a
-- list without order; a division by zero or a write past the array is the result none. Hash.Ring has
-- the invariant of the ring of recent hashes, Hash.Dedup what holds after Init and any stream, and
-- Hash.Contract the answers as a specification without the ring, which counts new messages as the code does,
-- and not all messages as the comments do. Hash.Calls runs Init
-- and UpdateHash in any sequence.
--
-- Queue models MPSCQueue of server/consolidate_candle_manager/message_queue.h. push_step and pop_step
-- make one access to shared memory each; Queue.System runs any number of producers and one consumer in
-- any order. Atomics are sequentially consistent: reorderings that acquire and release would permit are
-- not modelled. Counters are numbers below 2^64; the proofs ask for fewer than 2^63 - Capacity claimed
-- positions, since the code compares positions as signed numbers. Queue.Invariant, Queue.Produce,
-- Queue.Push, Queue.Consume and Queue.Release have the invariant, Queue.Safety and Queue.Alone what a
-- client sees of it, and Queue.Awaiting, Queue.Awaited and Queue.Drain what becomes of the values that
-- have been claimed.
--
-- Provider models BaseProvider of md_provider/provider/base_provider.h and base_provider.cpp: the worker
-- thread as a state machine (run_step makes one step of Run), Start, Stop and the destructor, and the
-- reconnection delays. The test of HandleReconnection and its count are two steps. A connection is one step:
-- the module is about connections that end, and how long one lasts it leaves to Feed.Live.
--
-- Session models WebSocketSessionSSL of md_provider/ws/ws.h and ws.cpp: one function per handler, and the
-- asynchronous operation that is pending as state. Which operation ends how, and when Stop is called, is a
-- list of events: the network and Boost.Beast decide it. The handlers run one at a time, and Stop before or
-- behind each; Feed.Live has Stop within a handler.
--
-- Feed models md_provider/provider/binance, bybit and okx. Feed has the subscription messages and the
-- names of instruments at each exchange, with ExtractSymbol of candle_manager/include. Feed.Trades has
-- OnMessage and ParseTrade of the three classes and PushTrade of BaseProvider, Feed.Providers their
-- objects with the endpoints. Feed.Connection puts a session and a provider together as
-- BaseProvider::Run does. Feed.Live is a whole provider: the thread that calls Start and Stop (stop_step)
-- and the worker (run_step), access by access to running, ws_session and the io_context, with each message
-- handled as it is read. Feed.Live.View and Feed.Live.Simulation relate it to Provider.
-- Feed.Live.Handlers is about the two steps of a handler, Feed.Live.Messages and Feed.Live.Contents relate
-- it to Feed.Connection, and Feed.Live.Halting, Feed.Live.Stopping and Feed.Live.Race
-- are about Stop. There is no fuel: runs are lists of outcomes, which the network decides.
-- A handler tests `stopped` in one step and does the rest in another. The sessions before the one of
-- ws_session are kept, with the handlers of theirs that the io_context holds: those run on beside the
-- handlers of the next session. The record Platform stands for simdjson, std::stod, the clock and the pipe;
-- PipeLaws is what is asked of the pipe.
--
-- Consolidate models ConsolidateCandleManager of server/consolidate_candle_manager/
-- consolidate_candle_manager.h and .cpp: the consumer that gives each popped trade to the builder of its
-- instrument. CandleBuilder, MessagePipeManager and their headers are not in the repository: the builder
-- is an interface with no laws, and the trades that the pipe gives are an input of run. The callback is
-- the list of the candles that it was called with. Consolidate.Worker has the two threads step by step.
-- Consolidate.Pipeline puts it on top of the queue, with PopTrade handing on what Pop returns.
--
-- Server models server/main.cpp, whose main uses none of the other parts.
--
-- Config models server/config/: ParseFromArgs and Validate.
--
-- Utilities models utils/utilities.h: ReadNextJsonObject on the lines of a file, with an int of 32 bits that
-- wraps round where C++ leaves the overflow open, ParseDouble and
-- ParseUint64. Utilities.Interface has the functions of the namespace as one interface, with the progress
-- that a call of ReadNextJsonObject makes.
--
-- Standard has the functions of the C++ standard library on integers (std::stoi, std::stoll,
-- std::to_string) as the standard describes them, with its exceptions as values. The fuel of to_string is
-- the number to write, plus one: each step divides it by ten. Json is the interface of simdjson.
--
-- Common holds what the parts share: tests, lists, texts as lists of bytes, maps from texts, and integers.
--
-- Not modelled: the certificates of md_provider/ws/root_certificates.hpp (a copy of a header of the
-- examples of Boost.Beast: PEM texts as data, of 3,951 of the 5,673 lines), log lines, and the unit tests.
-- The class BinanceMessageParser is declared and never defined: Feed.Providers has its declarations only.
pub mod Candle
pub mod Common
pub mod Config
pub mod Consolidate
pub mod Feed
pub mod Hash
pub mod Json
pub mod Provider
pub mod Queue
pub mod Server
pub mod Session
pub mod Standard
pub mod Types
pub mod Utilities
