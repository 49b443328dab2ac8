-- ===== src/Types.antt =====
-- types/: the exchanges and instruments with their names, the trade and the candle.
pub mod Exchange
pub mod Double
pub mod Market
