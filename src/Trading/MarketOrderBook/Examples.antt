-- ===== src/Trading/MarketOrderBook/Examples.antt =====
-- Concrete market updates to a small book.
use zquant_system.Prelude.{
  ℕ, ◌≡◌, ◌∙◌, refl, subst, true, not, ◌==◌, if◌then◌else◌, none, some, [], ◌∷◌, arith,
}
use zquant_system.Prelude.Int.{pos}
use zquant_system.Common.Types.{Side, OrderId}
use zquant_system.Common.Fault.{Outcome, AnyFault, NoFault}
use zquant_system.Messages.{MeMarketUpdate, MarketUpdateType}
use zquant_system.Book.{Book, Order, OrdersAtPrice, price_to_index}
use zquant_system.Book.Ring.{has}
use zquant_system.Book.Ladder.Sorted.{IsLadder, is_traded}
use zquant_system.Book.View.{View, Represents, IsLevel, ladder}
use zquant_system.Trading.MarketOrderBook.{
  OrderHashMap, MarketOrderBook, default_bbo, clear, on_market_update,
}
use zquant_system.Trading.MarketOrderBook.Clear.{Cleared, clear-Cleared}
use zquant_system.Trading.MarketOrderBook.Kept.{
  IsIndexed, on_market_update-IsIndexed, on_market_update-stale,
}

abbrev no_order : Order OrderId
no_order = record {
  key = 0;
  side = Side.invalid;
  price = pos 0;
  qty = 0;
  priority = 0;
  prev_order = none;
  next_order = none;
}

abbrev no_level : OrdersAtPrice
no_level = record {
  side = Side.invalid;
  price = pos 0;
  first_order = none;
  prev_entry = none;
  next_entry = none;
}

abbrev empty_book : MarketOrderBook
empty_book = record {
  ticker_id = 1;
  book = record {
    orders_at_price_pool = record {
      store = λ i. record { object = no_level; is_free = true };
      size = 4;
      next_free_index = 0;
    };
    order_pool = record {
      store = λ i. record { object = no_order; is_free = true };
      size = 4;
      next_free_index = 0;
    };
    bids_by_price = none;
    asks_by_price = none;
    price_orders_at_price = λ i. none;
    order_index = λ i. none;
  };
  bbo = default_bbo;
}

empty_book-IsIndexed : IsIndexed empty_book.book
empty_book-IsIndexed i p e = ground arith

abbrev first_bid : MeMarketUpdate
first_bid = record {
  type = MarketUpdateType.add;
  order_id = 2;
  ticker_id = 1;
  side = Side.buy;
  price = pos 100;
  qty = 30;
  priority = 1;
}

on_market_update-IsIndexed_example :
    Outcome AnyFault (λ _ t. IsIndexed t.book) (on_market_update 8 first_bid empty_book)
on_market_update-IsIndexed_example =
    on_market_update-IsIndexed 8 first_bid empty_book empty_book-IsIndexed

on_market_update-stale_example :
    Outcome AnyFault (λ _ t. t.bbo ≡ default_bbo) (on_market_update 8 first_bid empty_book)
on_market_update-stale_example =
    on_market_update-stale 8 first_bid empty_book empty_book-IsIndexed refl

-- A bid at 100, of order 2, in block 0 of each pool.
abbrev one_bid : Book OrderId OrderHashMap
one_bid = record {
  orders_at_price_pool = record {
    store = λ i. record {
      object = record {
        side = Side.buy;
        price = pos 100;
        first_order = some 0;
        prev_entry = some 0;
        next_entry = some 0;
      };
      is_free = not (i == 0);
    };
    size = 4;
    next_free_index = 1;
  };
  order_pool = record {
    store = λ i. record {
      object = record {
        key = 2;
        side = Side.buy;
        price = pos 100;
        qty = 30;
        priority = 1;
        prev_order = some 0;
        next_order = some 0;
      };
      is_free = not (i == 0);
    };
    size = 4;
    next_free_index = 1;
  };
  bids_by_price = some 0;
  asks_by_price = none;
  price_orders_at_price = λ i. if i == 100 then some 0 else none;
  order_index = λ i. if i == 2 then some 0 else none;
}

abbrev one_bid_view : View
one_bid_view = record { bids = 0 ∷ []; asks = []; queue = λ l. 0 ∷ [] }

bid-IsLevel : IsLevel one_bid Side.buy 0 (0 ∷ [])
unfolding price_to_index
bid-IsLevel = record {
  used = refl;
  in_pool = omega arith;
  side = refl;
  slot = refl;
  orders = record { first = refl; ring = (refl, refl); distinct = (refl, tt) };
  first = (0, refl);
  members =
      λ p m. record { used = ground arith; in_pool = ground arith; side = refl; price = refl };
}

bid-ladders :
    (side : Side) → is_traded side ≡ true → IsLadder side one_bid (ladder side one_bid_view)
bid-ladders Side.buy t = record {
  best = refl;
  ring = (refl, refl);
  distinct = (refl, tt);
  sorted = (λ y k. absurd (ground arith), tt);
}
bid-ladders Side.sell t = record { best = refl; ring = tt; distinct = tt; sorted = tt }
bid-ladders Side.invalid t = absurd (ground arith)
bid-ladders Side.max t = absurd (ground arith)

bid-levels :
    (side : Side)
    → is_traded side ≡ true
    → (l : ℕ) → has l (ladder side one_bid_view) ≡ true
    → IsLevel one_bid side l (one_bid_view.queue l)
bid-levels Side.buy t l h =
    subst (λ l. IsLevel one_bid Side.buy l (0 ∷ [])) {x = 0} (ground arith) bid-IsLevel
bid-levels Side.sell t l h = absurd (ground arith)
bid-levels Side.invalid t l h = absurd (ground arith)
bid-levels Side.max t l h = absurd (ground arith)

at_100 : price_to_index (pos 100) ≡ 100
unfolding price_to_index
at_100 = refl

one_bid-Represents : Represents one_bid one_bid_view
one_bid-Represents = record {
  ladders = bid-ladders;
  levels = bid-levels;
  table = λ i l e. (at_100 ∙ ground arith, Side.buy, refl, ground arith);
}

clear-Cleared_example : Outcome NoFault (λ _ d. Cleared 8 one_bid_view one_bid d) (clear 8 one_bid)
clear-Cleared_example =
    clear-Cleared one_bid one_bid_view one_bid-Represents 8
      (λ i p e. record { used = ground arith; order = ground arith }) (λ i p e. ground arith)
