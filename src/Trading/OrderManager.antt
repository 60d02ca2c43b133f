-- ===== src/Trading/OrderManager.antt =====
-- trading/strategy/om_order.h, order_manager.h and order_manager.cpp: one order for each ticker and
-- side, and the requests that the trade engine is given to send, in order. The pointer to an order is
-- its ticker and index of side. `check` is checkPreTradeRisk() of the risk manager.
pub mod Checked
mod Examples
use Prim.Native.String.{String}
use zquant_system.Prelude.{
  ℕ, zero, suc, ◌+◌, ◌%◌, ◌^◌, Bool, true, false, List, [], ◌∷◌, ◌++◌, ltb, ◌==◌, update₂,
  if◌then◌else◌,
}
use zquant_system.Prelude.Int.{ltb_ℤ}
use zquant_system.Common.Types.{
  ClientId, OrderId, TickerId, Price, Qty, Side, price_invalid, side_to_index, me_max_tickers,
}
use zquant_system.Common.Fault.{Cmd, pure, ◌>>=◌, ◌>>◌, in_range, get, modify}
use zquant_system.Messages.{
  MeClientRequest, ClientRequestType, MeClientResponse, ClientResponseType,
}
use zquant_system.Trading.RiskManager.{RiskCheckResult}

pub data OmOrderState : Type 0 where
  invalid pending_new live pending_cancel dead : OmOrderState

unfoldable pub om_order_state_to_string : OmOrderState → String
om_order_state_to_string OmOrderState.pending_new = "PENDING_NEW"
om_order_state_to_string OmOrderState.live = "LIVE"
om_order_state_to_string OmOrderState.pending_cancel = "PENDING_CANCEL"
om_order_state_to_string OmOrderState.dead = "DEAD"
om_order_state_to_string OmOrderState.invalid = "INVALID"

pub record OmOrder : Type 0 where
  pub ticker_id : TickerId
  pub order_id : OrderId
  pub side : Side
  pub price : Price
  pub qty : Qty
  pub order_state : OmOrderState

pub record OrderManager : Type 0 where
  pub client_id : ClientId
  pub ticker_side_order : TickerId → ℕ → OmOrder
  pub next_order_id : OrderId
  pub client_requests : List MeClientRequest

abbrev pub set_order : TickerId → ℕ → OmOrder → OrderManager → OrderManager
set_order t i o m = record m { ticker_side_order = update₂ m.ticker_side_order t i o }

abbrev pub set_state : TickerId → ℕ → OmOrderState → OrderManager → OrderManager
set_state t i state m = set_order t i (record (m.ticker_side_order t i) { order_state = state }) m

abbrev pub send_client_request : MeClientRequest → OrderManager → OrderManager
send_client_request r m = record m { client_requests = m.client_requests ++ r ∷ [] }

abbrev pub new_request : OrderManager → TickerId → Price → Side → Qty → MeClientRequest
new_request m ticker_id price side qty = record {
  type = ClientRequestType.new;
  client_id = m.client_id;
  ticker_id = ticker_id;
  order_id = m.next_order_id;
  side = side;
  price = price;
  qty = qty;
}

-- The order is at `t` and `i`.
unfoldable pub new_order :
    TickerId → ℕ → TickerId → Price → Side → Qty → OrderManager → OrderManager
new_order t i ticker_id price side qty m =
    let sent = send_client_request (new_request m ticker_id price side qty) m in
    let order : OmOrder = record {
      ticker_id = ticker_id;
      order_id = m.next_order_id;
      side = side;
      price = price;
      qty = qty;
      order_state = OmOrderState.pending_new;
    } in
    record (set_order t i order sent) { next_order_id = (m.next_order_id + 1) % 2 ^ 64 }

abbrev pub cancel_request : OrderManager → OmOrder → MeClientRequest
cancel_request m order = record {
  type = ClientRequestType.cancel;
  client_id = m.client_id;
  ticker_id = order.ticker_id;
  order_id = order.order_id;
  side = order.side;
  price = order.price;
  qty = order.qty;
}

unfoldable pub cancel_order : TickerId → ℕ → OrderManager → OrderManager
cancel_order t i m =
    set_state t i OmOrderState.pending_cancel
      (send_client_request (cancel_request m (m.ticker_side_order t i)) m)

-- `price == other` of two prices.
abbrev pub same_price : Price → Price → Bool
same_price price other =
    if ltb_ℤ price other then false else if ltb_ℤ other price then false else true

abbrev pub is_allowed : RiskCheckResult → Bool
is_allowed RiskCheckResult.allowed = true
is_allowed _ = false

module _ (check : TickerId → Side → Qty → RiskCheckResult) where
  -- The branch of an order that is not at the exchange.
  unfoldable pub replace_order :
      TickerId → ℕ → TickerId → Price → Side → Qty → OrderManager → OrderManager
  unfolding new_order
  replace_order t i ticker_id price side qty m =
      if same_price price price_invalid
      then m
      else if is_allowed (check ticker_id side qty)
      then new_order t i ticker_id price side qty m
      else m

  unfoldable pub move_by_state :
      OmOrderState → TickerId → ℕ → TickerId → Price → Side → Qty → OrderManager → OrderManager
  unfolding cancel_order replace_order
  move_by_state OmOrderState.live t i ticker_id price side qty m =
      if same_price (m.ticker_side_order t i).price price then m else cancel_order t i m
  move_by_state OmOrderState.invalid t i ticker_id price side qty m =
      replace_order t i ticker_id price side qty m
  move_by_state OmOrderState.dead t i ticker_id price side qty m =
      replace_order t i ticker_id price side qty m
  move_by_state OmOrderState.pending_new t i ticker_id price side qty m = m
  move_by_state OmOrderState.pending_cancel t i ticker_id price side qty m = m

  unfoldable pub move_order :
      TickerId → ℕ → TickerId → Price → Side → Qty → OrderManager → OrderManager
  unfolding move_by_state
  move_order t i ticker_id price side qty m =
      move_by_state (m.ticker_side_order t i).order_state t i ticker_id price side qty m

  unfoldable pub move_orders : TickerId → Price → Price → Qty → Cmd OrderManager (Unit {0})
  unfolding move_order
  move_orders ticker_id bid_price ask_price clip = do
    in_range (ltb ticker_id me_max_tickers)
    modify (move_order ticker_id (side_to_index Side.buy) ticker_id bid_price Side.buy clip)
    modify (move_order ticker_id (side_to_index Side.sell) ticker_id ask_price Side.sell clip)

unfoldable pub update_by_type :
    ClientResponseType → TickerId → ℕ → MeClientResponse → OrderManager → OrderManager
update_by_type ClientResponseType.accepted t i r m = set_state t i OmOrderState.live m
update_by_type ClientResponseType.canceled t i r m = set_state t i OmOrderState.dead m
update_by_type ClientResponseType.filled t i r m =
    let filled = record (m.ticker_side_order t i) { qty = r.leaves_qty } in
    if r.leaves_qty == 0
    then set_order t i (record filled { order_state = OmOrderState.dead }) m
    else set_order t i filled m
update_by_type ClientResponseType.cancel_rejected t i r m = m
update_by_type ClientResponseType.invalid t i r m = m

unfoldable pub on_order_update : MeClientResponse → Cmd OrderManager (Unit {0})
unfolding update_by_type
on_order_update r = do
  in_range (ltb r.ticker_id me_max_tickers)
  modify (update_by_type r.type r.ticker_id (side_to_index r.side) r)
