-- ===== src/Trading.antt =====
-- trading: a market participant.
pub mod MarketDataConsumer
pub mod OrderGateway
pub mod MarketOrderBook
pub mod RiskManager
pub mod OrderManager
pub mod Doubles
pub mod PositionKeeper
pub mod Strategy
pub mod TradeEngine
