-- ===== src/Exchange/OrderBook/Sweep/Examples.antt =====
-- A book of two asks at one price and a bid, with an order and a level that are not linked in, and
-- the theorems about rings, views and sweeps at it.
use zquant_system.Prelude.{
  ℕ, ◌≡◌, refl, sym, ◌∙◌, ap, subst, true, false, none, some, [], ◌∷◌, arith, ◌==◌, ◌&&◌, ltb,
  if◌then◌else◌, Bool-cases, inl, inr, update₂, ◌%◌, ◌^◌,
}
use zquant_system.Prelude.Int.{pos, ltb_ℤ}
use zquant_system.Common.Types.{Side, Price}
use zquant_system.Common.Fault.{Outcome, NoFault, ok}
use zquant_system.Book.{Ptr, Book, OrdersAtPrice, level_at, price_to_index}
use zquant_system.Book.Ring.{has}
use zquant_system.Book.Ladder.Sorted.{IsLadder, is_traded}
use zquant_system.Book.View.{View, Represents, IsLevel, ladder, orders, with_ladder, with_queue}
use zquant_system.Exchange.OrderBook.Sweep.{sweep}
use zquant_system.Exchange.OrderBook.Sweep.Loop.{SweptBook}
use zquant_system.Exchange.OrderBook.Sweep.Total.{
  check_for_match-buy-sweep, check_for_match-sell-sweep,
}
use zquant_system.Book.Levels.{find_target, add_orders_at_price, remove_orders_at_price}
use zquant_system.Book.Orders.{append_order, remove_order}
use zquant_system.Book.Queue.{Relinked}
use zquant_system.Book.Ladder.Locate.{locate, find_target-locate}
use zquant_system.Book.Ladder.Insert.{LevelCame, add_orders_at_price-Laddered}
use zquant_system.Book.Ladder.Remove.{LevelRemoved}
use zquant_system.Book.View.Requeue.{append_order-Represents}
use zquant_system.Book.View.Relevel.{remove_orders_at_price-Represents}
use zquant_system.Book.View.Removal.{Gone}
use zquant_system.Book.View.RemoveOrder.{remove_order-erase}
use zquant_system.Exchange.OrderBook.{
  index_write, cancel, check_for_match, MeOrderKey, MeOrder, MeOrderBook, ClientOrderHashMap,
}
use zquant_system.Exchange.OrderBook.Index.{IsIndexed}
use zquant_system.Exchange.OrderBook.Cancel.Answer.{Erased, cancel-Erased}

abbrev key_of : ℕ → MeOrderKey
key_of i = record { ticker_id = 0; client_id = 1; client_order_id = i; market_order_id = i }

abbrev order : ℕ → Side → Price → Ptr → Ptr → MeOrder
order i side price prev next = record {
  key = key_of i;
  side = side;
  price = price;
  qty = 10;
  priority = 1;
  prev_order = prev;
  next_order = next;
}

abbrev order_of : ℕ → MeOrder
order_of i =
    if i == 0
    then order 0 Side.sell (pos 5) (some 1) (some 1)
    else if i == 1
    then order 1 Side.sell (pos 5) (some 0) (some 0)
    else if i == 2
    then order 2 Side.buy (pos 3) (some 2) (some 2)
    else order i Side.sell (pos 5) none none

abbrev level : Side → Price → Ptr → Ptr → Ptr → OrdersAtPrice
level side price first prev next = record {
  side = side;
  price = price;
  first_order = first;
  prev_entry = prev;
  next_entry = next;
}

abbrev level_of : ℕ → OrdersAtPrice
level_of i =
    if i == 0
    then level Side.sell (pos 5) (some 0) (some 0) (some 0)
    else if i == 1
    then level Side.buy (pos 3) (some 2) (some 1) (some 1)
    else level Side.sell (pos 4) (some 3) none none

abbrev three : Book MeOrderKey ClientOrderHashMap
three = record {
  orders_at_price_pool = record {
    store = λ i. record { object = level_of i; is_free = false };
    size = 8;
    next_free_index = 3;
  };
  order_pool = record {
    store = λ i. record { object = order_of i; is_free = false };
    size = 8;
    next_free_index = 4;
  };
  bids_by_price = some 1;
  asks_by_price = some 0;
  price_orders_at_price = λ i. if i == 5 then some 0 else if i == 3 then some 1 else none;
  order_index = λ c i. if c == 1 && ltb i 3 then some i else none;
}

abbrev three_view : View
three_view = record {
  bids = 1 ∷ [];
  asks = 0 ∷ [];
  queue = λ l. if l == 0 then 0 ∷ 1 ∷ [] else if l == 1 then 2 ∷ [] else [];
}

asks-IsLadder : IsLadder Side.sell three (0 ∷ [])
asks-IsLadder = record {
  best = refl;
  ring = (refl, refl);
  distinct = (refl, tt);
  sorted = (λ y k. absurd (ground arith), tt);
}

bids-IsLadder : IsLadder Side.buy three (1 ∷ [])
bids-IsLadder = record {
  best = refl;
  ring = (refl, refl);
  distinct = (refl, tt);
  sorted = (λ y k. absurd (ground arith), tt);
}

ask-IsLevel : IsLevel three Side.sell 0 (0 ∷ 1 ∷ [])
unfolding price_to_index
ask-IsLevel = record {
  used = refl;
  in_pool = omega arith;
  side = refl;
  slot = refl;
  orders = record {
    first = refl;
    ring = (refl, refl, (refl, refl));
    distinct = (refl, (refl, tt));
  };
  first = (0, refl);
  members = λ p m. record {
    used = refl;
    in_pool = ground arith;
    side = ground arith;
    price = ground arith;
  };
}

bid-IsLevel : IsLevel three Side.buy 1 (2 ∷ [])
unfolding price_to_index
bid-IsLevel = record {
  used = refl;
  in_pool = omega arith;
  side = refl;
  slot = refl;
  orders = record { first = refl; ring = (refl, refl); distinct = (refl, tt) };
  first = (2, refl);
  members = λ p m. record {
    used = refl;
    in_pool = ground arith;
    side = ground arith;
    price = ground arith;
  };
}

three-ladders : (side : Side) → is_traded side ≡ true → IsLadder side three (ladder side three_view)
three-ladders Side.buy t = bids-IsLadder
three-ladders Side.sell t = asks-IsLadder
three-ladders Side.invalid t = absurd (ground arith)
three-ladders Side.max t = absurd (ground arith)

three-levels :
    (side : Side)
    → is_traded side ≡ true
    → (l : ℕ) → has l (ladder side three_view) ≡ true
    → IsLevel three side l (three_view.queue l)
three-levels Side.buy t l h =
    subst (λ l. IsLevel three Side.buy l (three_view.queue l)) {x = 1} (ground arith) bid-IsLevel
three-levels Side.sell t l h =
    subst (λ l. IsLevel three Side.sell l (three_view.queue l)) {x = 0} (ground arith) ask-IsLevel
three-levels Side.invalid t l h = absurd (ground arith)
three-levels Side.max t l h = absurd (ground arith)

index_of :
    (l i k n : ℕ)
    → k ≡ l
    → n ≡ i
    → price_to_index (level_at k three).price ≡ n
    → price_to_index (level_at l three).price ≡ i
index_of l i k n e f g = ap (λ l. price_to_index (level_at l three).price) (sym e) ∙ g ∙ f

three-table :
    (i l : ℕ)
    → three.price_orders_at_price i ≡ some l
    → (price_to_index (level_at l three).price ≡ i)
      × (side : Side) × (is_traded side ≡ true)
      × (has l (ladder side three_view) ≡ true)
unfolding price_to_index
three-table i l e = elim (Bool-cases (i == 5)) [
  | inl f ↦ (index_of l i 0 5 (ground arith) (ground arith) refl, Side.sell, refl, ground arith)
  | inr f ↦ (index_of l i 1 3 (ground arith) (ground arith) refl, Side.buy, refl, ground arith)
]

three-Represents : Represents three three_view
three-Represents = record { ladders = three-ladders; levels = three-levels; table = three-table }

abbrev three_orders : MeOrderBook
three_orders = record {
  ticker_id = 0;
  book = three;
  next_market_order_id = 9;
  client_responses = [];
  market_updates = [];
}

-- A buy order of 15 uses up the order 0 and half of the order 1.
swept : sweep (λ p. ltb_ℤ (pos 5) p) three 15 (0 ∷ 1 ∷ []) ≡ record {
  executions =
      record { order = 0; qty = 10; leaves = 5 } ∷ record { order = 1; qty = 5; leaves = 0 } ∷ [];
  left = 0;
  stay = 1 ∷ [];
}
unfolding sweep
swept = refl

check_for_match-buy-sweep_example :
    Outcome NoFault
      (λ left t.
        SweptBook 0 7 Side.buy 4
          (9 % 2 ^ 32)
          Side.sell
          (λ p. ltb_ℤ (pos 5) p)
          three_orders
          three_view
          (orders Side.sell three_view)
          15
          left
          t)
      (check_for_match 7 4 0 Side.buy (pos 5) 15 9 three_orders)
check_for_match-buy-sweep_example =
    check_for_match-buy-sweep 7 4 0 (pos 5) 15 9 three_orders three_view three-Represents
      (λ p m. ground arith)

check_for_match-sell-sweep_example :
    Outcome NoFault
      (λ left t.
        SweptBook 0 7 Side.sell 4
          (9 % 2 ^ 32)
          Side.buy
          (λ p. ltb_ℤ p (pos 3))
          three_orders
          three_view
          (orders Side.buy three_view)
          15
          left
          t)
      (check_for_match 7 4 0 Side.sell (pos 3) 15 9 three_orders)
check_for_match-sell-sweep_example =
    check_for_match-sell-sweep 7 4 0 (pos 3) 15 9 three_orders three_view three-Represents
      (λ p m. ground arith)

remove_order-erase_example :
    Outcome NoFault
      (λ _ c. Gone 1 (update₂ three.order_index 1 1 none) three three_view c)
      (remove_order index_write 1 three)
unfolding index_write
remove_order-erase_example =
    remove_order-erase index_write 1 (update₂ three.order_index 1 1 none) three three_view Side.sell
      three-Represents refl refl refl

remove_orders_at_price-Represents_example :
    Outcome NoFault
      (λ _ c.
        Represents c (with_ladder Side.sell [] three_view)
        × LevelRemoved Side.sell 0 (pos 5) (0 ∷ []) three c)
      (remove_orders_at_price Side.sell (pos 5) three)
remove_orders_at_price-Represents_example =
    remove_orders_at_price-Represents 0 Side.sell three three_view three-Represents refl refl

-- The order 3 goes behind the orders 0 and 1.
append_order-Represents_example :
    Outcome NoFault
      (λ _ c.
        Represents c (with_queue 0 (0 ∷ 1 ∷ 3 ∷ []) three_view) × ((i : ℕ) → Relinked i three c))
      (append_order 3 0 three)
append_order-Represents_example =
    append_order-Represents 3 0 Side.sell three three_view three-Represents refl refl
      (λ s k t h. ground arith)
      (record { used = refl; in_pool = omega arith; side = refl; price = refl })

-- The level 2, at 4, goes before the level 0, at 5.
add_orders_at_price-Laddered_example :
    Outcome NoFault (λ _ c. LevelCame 2 three (0 ∷ []) c) (add_orders_at_price 2 three)
add_orders_at_price-Laddered_example =
    add_orders_at_price-Laddered 2 three (0 ∷ []) refl refl (omega arith) (λ y h e. ground arith)
      asks-IsLadder

find_target-locate_example :
    find_target Side.sell (pos 4) 0 three ≡ ok (locate Side.sell (pos 4) three 0 (0 ∷ []))
find_target-locate_example =
    find_target-locate Side.sell (pos 4) three 0 [] (omega arith) (refl, tt) (refl, refl)

three-IsIndexed : IsIndexed three
three-IsIndexed c o p e = record {
  client_in_range = ground arith;
  order_in_range = ground arith;
  used = refl;
  client = ground arith;
  order = ground arith;
}

cancel-Erased_example :
    Outcome NoFault
      (λ _ t. Erased 1 1 0 three_orders 1 three-IsIndexed refl three_view t)
      (cancel 1 1 0 three_orders)
cancel-Erased_example =
    cancel-Erased 1 1 0 three_orders 1 three-IsIndexed refl three_view Side.sell three-Represents
      refl refl
