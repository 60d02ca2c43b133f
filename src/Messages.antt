-- ===== src/Messages.antt =====
-- exchange/order_server/client_request.h and client_response.h, exchange/market_data/market_update.h:
-- the messages between the components. The packed structs are records; their bytes are not modelled.
use Prim.Native.String.{String}
use zquant_system.Prelude.{ℕ}
use zquant_system.Common.Types.{
  OrderId, TickerId, ClientId, Price, Qty, Priority, Side, order_id_invalid, ticker_id_invalid,
  price_invalid, qty_invalid, priority_invalid,
}

pub data ClientRequestType : Type 0 where
  invalid new cancel : ClientRequestType

unfoldable pub client_request_type_to_string : ClientRequestType → String
client_request_type_to_string ClientRequestType.new = "NEW"
client_request_type_to_string ClientRequestType.cancel = "CANCEL"
client_request_type_to_string ClientRequestType.invalid = "INVALID"

pub record MeClientRequest : Type 0 where
  pub type : ClientRequestType
  pub client_id : ClientId
  pub ticker_id : TickerId
  pub order_id : OrderId
  pub side : Side
  pub price : Price
  pub qty : Qty

pub record OmClientRequest : Type 0 where
  pub seq_num : ℕ
  pub me_client_request : MeClientRequest

pub data ClientResponseType : Type 0 where
  invalid accepted canceled filled cancel_rejected : ClientResponseType

unfoldable pub client_response_type_to_string : ClientResponseType → String
client_response_type_to_string ClientResponseType.accepted = "ACCEPTED"
client_response_type_to_string ClientResponseType.canceled = "CANCELED"
client_response_type_to_string ClientResponseType.filled = "FILLED"
client_response_type_to_string ClientResponseType.cancel_rejected = "CANCEL_REJECTED"
client_response_type_to_string ClientResponseType.invalid = "INVALID"

pub record MeClientResponse : Type 0 where
  pub type : ClientResponseType
  pub client_id : ClientId
  pub ticker_id : TickerId
  pub client_order_id : OrderId
  pub market_order_id : OrderId
  pub side : Side
  pub price : Price
  pub exec_qty : Qty
  pub leaves_qty : Qty

pub record OmClientResponse : Type 0 where
  pub seq_num : ℕ
  pub me_client_response : MeClientResponse

pub data MarketUpdateType : Type 0 where
  invalid clear add modify cancel trade snapshot_start snapshot_end : MarketUpdateType

unfoldable pub market_update_type_to_string : MarketUpdateType → String
market_update_type_to_string MarketUpdateType.clear = "CLEAR"
market_update_type_to_string MarketUpdateType.add = "ADD"
market_update_type_to_string MarketUpdateType.modify = "MODIFY"
market_update_type_to_string MarketUpdateType.cancel = "CANCEL"
market_update_type_to_string MarketUpdateType.trade = "TRADE"
market_update_type_to_string MarketUpdateType.snapshot_start = "SNAPSHOT_START"
market_update_type_to_string MarketUpdateType.snapshot_end = "SNAPSHOT_END"
market_update_type_to_string MarketUpdateType.invalid = "INVALID"

pub record MeMarketUpdate : Type 0 where
  pub type : MarketUpdateType
  pub order_id : OrderId
  pub ticker_id : TickerId
  pub side : Side
  pub price : Price
  pub qty : Qty
  pub priority : Priority

-- `MEMarketUpdate{}`, with each field at its default.
abbrev pub default_market_update : MeMarketUpdate
default_market_update = record {
  type = MarketUpdateType.invalid;
  order_id = order_id_invalid;
  ticker_id = ticker_id_invalid;
  side = Side.invalid;
  price = price_invalid;
  qty = qty_invalid;
  priority = priority_invalid;
}

pub record MdpMarketUpdate : Type 0 where
  pub seq_num : ℕ
  pub me_market_update : MeMarketUpdate
