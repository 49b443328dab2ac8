-- ===== src/Candle.antt =====
-- candle_manager/: CandleManager<Parser> and the two parsers.
pub mod Manager
pub mod Lookup
pub mod Range
pub mod History
pub mod Window
pub mod Snapshot
pub mod Messages
pub mod Calls
pub mod Samples
pub mod Parsers
pub mod Tests
