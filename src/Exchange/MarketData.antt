-- ===== src/Exchange/MarketData.antt =====
-- exchange/market_data: from the engine's market updates to the two multicast streams.
pub mod Publisher
pub mod Snapshot
pub mod Examples
