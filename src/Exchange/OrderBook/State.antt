-- ===== src/Exchange/OrderBook/State.antt =====
-- exchange/matcher/me_order.h and the members of MEOrderBook in me_order_book.h: the book's state, what
-- it is sent through, and the messages of me_order_book.cpp.
use zquant_system.Prelude.{
  ◌+◌, ◌%◌, ◌^◌, ◌&&◌, Option, none, some, List, [], ◌∷◌, ◌++◌, ltb, update₂, if◌then◌else◌,
}
use zquant_system.Common.Types.{
  OrderId, TickerId, ClientId, Price, price_invalid, Qty, qty_invalid, Priority, order_id_invalid,
  Side, me_max_num_clients, me_max_order_ids,
}
use zquant_system.Common.Fault.{ok, err, Cmd, pure, ◌>>=◌, ◌>>◌, get, modify}
use zquant_system.Messages.{MeClientResponse, ClientResponseType, MeMarketUpdate, MarketUpdateType}
use zquant_system.Book.{Ptr, Order, Book}

-- What an MEOrder holds beside the fields of every order.
pub record MeOrderKey : Type 0 where
  pub ticker_id : TickerId
  pub client_id : ClientId
  pub client_order_id : OrderId
  pub market_order_id : OrderId

abbrev pub MeOrder : Type 0
MeOrder = Order MeOrderKey

-- `ClientOrderHashMap`: by client and client's order id.
abbrev pub ClientOrderHashMap : Type 0
ClientOrderHashMap = ClientId → OrderId → Ptr

-- `cid_oid_to_order_.at(client_id).at(client_order_id) = p`.
unfoldable pub index_write : MeOrderKey → Ptr → ClientOrderHashMap → Option ClientOrderHashMap
index_write k p index =
    if ltb k.client_id me_max_num_clients && ltb k.client_order_id me_max_order_ids
    then some (update₂ index k.client_id k.client_order_id p)
    else none

pub record MeOrderBook : Type 0 where
  pub ticker_id : TickerId
  pub book : Book MeOrderKey ClientOrderHashMap
  pub next_market_order_id : OrderId
  pub client_responses : List MeClientResponse
  pub market_updates : List MeMarketUpdate

abbrev pub on_book : {A : Type 0} → Cmd (Book MeOrderKey ClientOrderHashMap) A → Cmd MeOrderBook A
on_book c s = elim (c s.book) [ ok (a, b) ↦ ok (a, record s { book = b }) | err e ↦ err e ]

unfoldable pub send_client_response : MeClientResponse → Cmd MeOrderBook (Unit {0})
send_client_response r = modify (λ s. record s { client_responses = s.client_responses ++ r ∷ [] })

unfoldable pub send_market_update : MeMarketUpdate → Cmd MeOrderBook (Unit {0})
send_market_update u = modify (λ s. record s { market_updates = s.market_updates ++ u ∷ [] })

unfoldable pub generate_new_market_order_id : Cmd MeOrderBook OrderId
generate_new_market_order_id = do
  s ← get
  modify (λ t. record t { next_market_order_id = (s.next_market_order_id + 1) % 2 ^ 64 })
  pure s.next_market_order_id

-- The messages of match(): the two fills, the trade, and what became of the passive order.
abbrev pub aggressor_fill :
    TickerId
    → ClientId
    → Side
    → OrderId
    → OrderId
    → MeOrder
    → (fill_qty leaves : Qty) → MeClientResponse
aggressor_fill ticker_id client_id side client_order_id new_market_order_id order fill_qty leaves =
    record {
      type = ClientResponseType.filled;
      client_id = client_id;
      ticker_id = ticker_id;
      client_order_id = client_order_id;
      market_order_id = new_market_order_id;
      side = side;
      price = order.price;
      exec_qty = fill_qty;
      leaves_qty = leaves;
    }

abbrev pub passive_fill : TickerId → MeOrder → (fill_qty leaves : Qty) → MeClientResponse
passive_fill ticker_id order fill_qty leaves = record {
  type = ClientResponseType.filled;
  client_id = order.key.client_id;
  ticker_id = ticker_id;
  client_order_id = order.key.client_order_id;
  market_order_id = order.key.market_order_id;
  side = order.side;
  price = order.price;
  exec_qty = fill_qty;
  leaves_qty = leaves;
}

abbrev pub order_update :
    MarketUpdateType → OrderId → TickerId → Side → Price → Qty → Priority → MeMarketUpdate
order_update type order_id ticker_id side price qty priority = record {
  type = type;
  order_id = order_id;
  ticker_id = ticker_id;
  side = side;
  price = price;
  qty = qty;
  priority = priority;
}

abbrev pub accepted_response :
    ClientId → TickerId → OrderId → OrderId → Side → Price → Qty → MeClientResponse
accepted_response client_id ticker_id client_order_id market_order_id side price qty = record {
  type = ClientResponseType.accepted;
  client_id = client_id;
  ticker_id = ticker_id;
  client_order_id = client_order_id;
  market_order_id = market_order_id;
  side = side;
  price = price;
  exec_qty = 0;
  leaves_qty = qty;
}

abbrev pub cancel_rejected_response : ClientId → TickerId → OrderId → MeClientResponse
cancel_rejected_response client_id ticker_id order_id = record {
  type = ClientResponseType.cancel_rejected;
  client_id = client_id;
  ticker_id = ticker_id;
  client_order_id = order_id;
  market_order_id = order_id_invalid;
  side = Side.invalid;
  price = price_invalid;
  exec_qty = qty_invalid;
  leaves_qty = qty_invalid;
}

abbrev pub canceled_response : ClientId → TickerId → OrderId → MeOrder → MeClientResponse
canceled_response client_id ticker_id order_id order = record {
  type = ClientResponseType.canceled;
  client_id = client_id;
  ticker_id = ticker_id;
  client_order_id = order_id;
  market_order_id = order.key.market_order_id;
  side = order.side;
  price = order.price;
  exec_qty = qty_invalid;
  leaves_qty = order.qty;
}
