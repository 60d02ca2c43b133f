-- ===== src/Exchange.antt =====
-- exchange: the matching side of the system.
pub mod OrderBook
pub mod MatchingEngine
pub mod FifoSequencer
pub mod OrderServer
pub mod MarketData
