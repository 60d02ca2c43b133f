-- ===== src/Exchange/OrderBook/PriceTime.antt =====
-- exchange/matcher/me_order_book.cpp, match(): one execution against the first order in price-time
-- order, on the lists of orders that the book stands for.
use zquant_system.Prelude.{
  ℕ, ◌-◌, min, ◌≡◌, ◌≢◌, refl, sym, ◌∙◌, ap, inl, inr, true, false, not, ◌&&◌, some, none, List,
  ◌∷◌, ◌++◌, arith, ltb, update₂, ◌==◌, Bool-cases, if◌then◌else◌,
}
use zquant_system.Common.Types.{
  TickerId, ClientId, OrderId, Qty, Side, is_buy, me_max_num_clients, me_max_order_ids,
}
use zquant_system.Common.Fault.{Outcome, NoFault, returns, bind}
use zquant_system.Book.{Book, order_at, write_order}
use zquant_system.Book.Orders.{remove_order}
use zquant_system.Book.Ring.{has, erase}
use zquant_system.Book.Ladder.Sorted.{is_traded}
use zquant_system.Book.View.{View, Represents, ladder, orders}
use zquant_system.Book.View.Requeue.{one_level}
use zquant_system.Book.View.Relevel.{off_side}
use zquant_system.Book.View.Flatten.{has-concat_map, erase-absent, erase_first}
use zquant_system.Book.View.Shape.{SameOrder, SameOrder-trans, SameShape, Represents-shape}
use zquant_system.Book.View.RemoveOrder.{remove_order-erase}
use zquant_system.Exchange.OrderBook.Frame.{on_book-OnBook, append_twice}
use zquant_system.Exchange.OrderBook.{
  MeOrderKey, ClientOrderHashMap, MeOrderBook, index_write, match_order, send_client_response,
  send_market_update,
}
use zquant_system.Exchange.OrderBook.MatchOrder.{Fill, fill_responses}

-- An execution against the order `order`.
pub record Execution : Type 0 where
  pub order : ℕ
  pub qty : Qty
  pub leaves : Qty

abbrev pub fill_of : Book MeOrderKey ClientOrderHashMap → Execution → Fill
fill_of b e = record { passive = order_at e.order b; qty = e.qty; leaves = e.leaves }

-- The order's ids are in the range of the map.
abbrev pub IsFiled : Book MeOrderKey ClientOrderHashMap → ℕ → Type 0
IsFiled b p =
    (ltb (order_at p b).key.client_id me_max_num_clients
      && ltb (order_at p b).key.client_order_id me_max_order_ids)
    ≡ true

module _ {K I : Type 0} where
  -- An order of one side is not among those of the other.
  pub one_side :
      (b : Book K I) (v : View) (r : Represents b v) (s t : Side) (p : ℕ)
      → is_traded s ≡ true
      → is_traded t ≡ true
      → is_buy t ≡ not (is_buy s)
      → has p (orders s v) ≡ true
      → has p (orders t v) ≡ false
  one_side b v r s t p hs ht e m = elim (Bool-cases (has p (orders t v))) [
    | inr out ↦ out
    | inl n ↦
        let (l, hl, pl) = has-concat_map v.queue p (ladder s v) m in
        let (k, hk, pk) = has-concat_map v.queue p (ladder t v) n in
        absurd (
          ground
            (arith, off_side b v r s t k hs ht e hk, one_level b v r s t l k p hs ht hl hk pl pk))
  ]

  -- A write of the quantity of an order.
  set_qty-Represents :
      (p : ℕ) (q : Qty) (b : Book K I) (v : View)
      → Represents b v
      → Represents (write_order p (λ o. record o { qty = q }) b) v
  set_qty-Represents p q b v r = Represents-shape v b _ shape r
    where
      shape : SameShape v b (write_order p (λ o. record o { qty = q }) b)
      shape = record {
        levels = refl;
        bids = refl;
        asks = refl;
        table = refl;
        size = refl;
        next = λ i. ground arith;
        prev = λ i. ground arith;
        side = λ i. ground arith;
        price = λ i. ground arith;
        used = λ i l s t h m. ground arith;
      }

module _ (ticker_id : TickerId) (client_id : ClientId) (side : Side)
    (client_order_id market_order_id : OrderId) (passive_side : Side) where
  -- One execution against `itr`, the first of `itr ∷ ps`.
  pub record Stepped (s : MeOrderBook) (v : View) (itr : ℕ) (ps : List ℕ) (leaves left : Qty)
      (t : MeOrderBook) : Type 0 where
    pub view : View
    pub represents : Represents t.book view
    pub left_is : left ≡ leaves - min leaves (order_at itr s.book).qty
    pub orders_are : orders passive_side view ≡ (
        if (order_at itr s.book).qty - min leaves (order_at itr s.book).qty == 0
        then ps
        else itr ∷ ps)
    pub other_side :
        (z : Side)
        → is_traded z ≡ true
        → is_buy z ≡ not (is_buy passive_side)
        → orders z view ≡ orders z v
    pub same : (i : ℕ) → i ≢ itr → SameOrder i s.book t.book
    pub responses :
        t.client_responses
        ≡ s.client_responses
          ++ fill_responses ticker_id client_id side client_order_id market_order_id (
              fill_of s.book (record {
                order = itr;
                qty = min leaves (order_at itr s.book).qty;
                leaves = leaves - min leaves (order_at itr s.book).qty;
              }))

  abbrev reduced : ℕ → Qty → MeOrderBook → Book MeOrderKey ClientOrderHashMap
  reduced itr left s = write_order itr (λ o. record o { qty = left }) s.book

  same_but_one :
      (s : MeOrderBook) (itr : ℕ) (rest : Qty) (i : ℕ)
      → i ≢ itr
      → SameOrder i s.book (reduced itr rest s)
  same_but_one s itr rest i ne = ground arith

  key_same :
      (s : MeOrderBook) (itr : ℕ) (rest : Qty)
      → (order_at itr (reduced itr rest s)).key ≡ (order_at itr s.book).key
  key_same s itr rest = ground arith

  known :
      (s : MeOrderBook) (itr : ℕ) (rest : Qty)
      → IsFiled s.book itr
      → index_write (order_at itr (reduced itr rest s)).key none s.book.order_index
        ≡ some (
            update₂ s.book.order_index
              (order_at itr s.book).key.client_id
              (order_at itr s.book).key.client_order_id
              none)
  unfolding index_write
  known s itr rest filed =
      ap (λ k. index_write k none s.book.order_index) (key_same s itr rest)
      ∙ rw (filed, index_write) refl

  pub match_order-Stepped :
      (s : MeOrderBook) (v : View) (itr : ℕ) (ps : List ℕ) (leaves : Qty)
      → Represents s.book v
      → is_traded passive_side ≡ true
      → orders passive_side v ≡ itr ∷ ps
      → IsFiled s.book itr
      → Outcome NoFault
          (λ left t. Stepped s v itr ps leaves left t)
          (match_order ticker_id client_id side client_order_id market_order_id itr leaves s)
  unfolding match_order send_client_response send_market_update
  match_order-Stepped s v itr ps leaves r t first filed = elim (Bool-cases (rest == 0)) [
    | inl e ↦
        rw (e, match_order)
          (bind
            (on_book-OnBook (remove_order index_write itr) _ (
              remove_order-erase index_write itr
                (update₂ s.book.order_index (order_at itr s.book).key.client_id
                  (order_at itr s.book).key.client_order_id none)
                (reduced itr rest s) v passive_side (set_qty-Represents itr rest s.book v r) t
                (known s itr rest filed) (ap (has itr) first ∙ ground arith)))
            (λ _ u (c, same, g). returns (
              rw same (record {
                view = g.view;
                represents = g.represents;
                left_is = refl;
                orders_are =
                    g.orders_are passive_side t
                    ∙ ap (erase itr) first
                    ∙ erase_first itr ps
                    ∙ sym (rw e refl);
                other_side = λ z hz eq.
                    g.orders_are z hz
                    ∙ erase-absent itr (orders z v) (
                        one_side s.book v r passive_side z itr t hz eq
                          (ap (has itr) first ∙ ground arith));
                same = λ i ne.
                    SameOrder-trans i s.book (reduced itr rest s) c (same_but_one s itr rest i ne)
                      (g.same i);
                responses = append_twice s.client_responses _ _;
              }))))
    | inr e ↦
        rw (e, match_order)
          (returns (record {
            view = v;
            represents = set_qty-Represents itr rest s.book v r;
            left_is = refl;
            orders_are = first ∙ sym (rw e refl);
            other_side = λ z hz eq. refl;
            same = λ i ne. same_but_one s itr rest i ne;
            responses = append_twice s.client_responses _ _;
          }))
  ]
    where
      rest : Qty
      rest = (order_at itr s.book).qty - min leaves (order_at itr s.book).qty
