-- ===== src/Book/View/RemoveOrder.antt =====
-- remove_order() of Book/Orders as a whole, on the lists that the book stands for.
use zquant_system.Prelude.{
  ℕ, ◌≡◌, ◌≢◌, ◌<◌, sym, ◌∙◌, ap, subst, true, false, Option, none, some, [], ◌∷◌, ◌==◌, arith,
}
use zquant_system.Common.Types.{Side}
use zquant_system.Common.Fault.{Outcome, NoFault, and_then, bind, weaken, for_all}
use zquant_system.Common.MemPool.{deallocate}
use zquant_system.Book.{on_orders, Ptr, Book, order_at}
use zquant_system.Book.Orders.{set_index, remove_order}
use zquant_system.Book.Ring.{has, erase}
use zquant_system.Book.Ring.Splice.{Neighbours, alone, between, Ring-Neighbours}
use zquant_system.Book.Queue.{Relinked, next_order_of, prev_order_of}
use zquant_system.Book.Ladder.Sorted.{is_traded}
use zquant_system.Book.View.{View, IsNowhere, Represents, IsLevel, IsOrderOf, ladder, orders}
use zquant_system.Book.View.Requeue.{unlink_order-Represents}
use zquant_system.Book.View.Relevel.{remove_orders_at_price-Represents}
use zquant_system.Book.View.Flatten.{has-concat_map}
use zquant_system.Book.View.Shape.{SameOrder}
use zquant_system.Book.View.Removal.{
  Gone, gone, free_order, unlinked, unlevelled, orders-unlinked, orders-unlevelled,
  unlinked-IsNowhere, unlevelled-IsNowhere,
}

module _ {K I : Type 0} (w : K → Ptr → I → Option I) (p : ℕ) (index : I) (b : Book K I) (v : View)
    (side : Side) (r : Represents b v) (t : is_traded side ≡ true)
    (known : w (order_at p b).key none b.order_index ≡ some index) where
  -- What the ring operations leave of the orders and their map.
  record SameOrders (c : Book K I) : Type 0 where
    pub same : (i : ℕ) → SameOrder i b c
    pub size : c.order_pool.size ≡ b.order_pool.size
    pub used : (i : ℕ) → (c.order_pool.store i).is_free ≡ (b.order_pool.store i).is_free
    pub index_same : c.order_index ≡ b.order_index

  same_pool :
      (c : Book K I) → c.order_pool ≡ b.order_pool → c.order_index ≡ b.order_index → SameOrders c
  same_pool c e f = record {
    same = λ i. record {
      key = ap (λ p. (p.store i).object.key) e;
      side = ap (λ p. (p.store i).object.side) e;
      price = ap (λ p. (p.store i).object.price) e;
      qty = ap (λ p. (p.store i).object.qty) e;
      priority = ap (λ p. (p.store i).object.priority) e;
    };
    size = ap (λ p. p.size) e;
    used = λ i. ap (λ p. (p.store i).is_free) e;
    index_same = f;
  }

  Relinked-SameOrders : (c : Book K I) → ((i : ℕ) → Relinked i b c) → SameOrders c
  Relinked-SameOrders c k = record {
    same = λ i. record {
      key = (k i).key;
      side = (k i).side;
      price = (k i).price;
      qty = (k i).qty;
      priority = (k i).priority;
    };
    size = (k 0).size;
    used = λ i. (k i).used;
    index_same = (k 0).index;
  }

  finish :
      (c : Book K I) (view : View)
      → p < b.order_pool.size
      → (b.order_pool.store p).is_free ≡ false
      → Represents c view
      → IsNowhere p view
      → ((s : Side) → is_traded s ≡ true → orders s view ≡ erase p (orders s v))
      → SameOrders c
      → Outcome NoFault
          (λ _ d. Gone p index b v d)
          (and_then {S = Book K I}
            (set_index w (order_at p c).key none c)
            (λ _. on_orders (deallocate p)))
  finish c view h k r' out eq same =
      weaken
        (for_all _ (λ i.
          free_order w p i index c
            (ap (λ k. w k none c.order_index) (same.same p).key
              ∙ ap (w (order_at p b).key none) same.index_same
              ∙ known)
            (subst (λ n. p < n) (sym same.size) h) (same.used p ∙ k)))
        λ _ d f. gone p index b c d v view r' out eq same.same same.size same.used f

  module _ (l : ℕ) (h : has l (ladder side v) ≡ true) (inside : has p (v.queue l) ≡ true) where
    abbrev its_level : IsLevel b side l (v.queue l)
    its_level = r.levels side t l h

    abbrev its_place : IsOrderOf b l p
    its_place = its_level.members p inside

    remove_alone :
        v.queue l ≡ p ∷ []
        → prev_order_of b p ≡ some p
        → Outcome NoFault (λ _ c. Gone p index b v c) (remove_order w p b)
    unfolding remove_order
    remove_alone only e =
        rw (e, at_itself, its_place.side, its_level.side, its_place.price, remove_order)
          (bind (remove_orders_at_price-Represents l side b v r t h) λ _ c k.
            finish c (unlevelled b v r side p l t h inside) its_place.in_pool its_place.used k.0
              (unlevelled-IsNowhere b v r side p l t h inside)
              (orders-unlevelled b v r side p l t h inside only)
              (same_pool c (k.1.dropped 0).orders (k.1.dropped 0).index))
      where
        at_itself : (p == p) ≡ true
        at_itself = ground arith

    remove_linked :
        (u u' : ℕ)
        → prev_order_of b p ≡ some u
        → next_order_of b p ≡ some u'
        → p ≢ u
        → p ≢ u'
        → has u (v.queue l) ≡ true
        → has u' (v.queue l) ≡ true
        → Outcome NoFault (λ _ c. Gone p index b v c) (remove_order w p b)
    unfolding remove_order
    remove_linked u u' e f m n hu hu' =
        rw (e, not_itself, its_place.price, its_level.slot, remove_order)
          (bind (unlink_order-Represents p l u u' side b v r t h inside e f m n hu hu') λ _ c k.
            finish c (unlinked b v r side p l t h inside) its_place.in_pool its_place.used k.0
              (unlinked-IsNowhere b v r side p l t h inside)
              (orders-unlinked b v r side p l t h inside) (Relinked-SameOrders c k.1))
      where
        not_itself : (u == p) ≡ false
        not_itself = ground arith

    remove_at : Outcome NoFault (λ _ c. Gone p index b v c) (remove_order w p b)
    remove_at = by_neighbours (
        Ring-Neighbours (next_order_of b) (prev_order_of b) p (v.queue l) its_level.orders.distinct
          inside its_level.orders.ring)
      where
        by_neighbours :
            Neighbours (next_order_of b) (prev_order_of b) p (v.queue l)
            → Outcome NoFault (λ _ c. Gone p index b v c) (remove_order w p b)
        by_neighbours (alone only e f) = remove_alone only e
        by_neighbours (between u u' e f m n hu hu') = remove_linked u u' e f m n hu hu'

  -- On a book that stands for lists of orders, the removal of an order of a side's list that the map
  -- of orders accepts meets no fault. It takes just this order out of the lists, keeps what every
  -- order is for, and frees the order's block and no other.
  pub remove_order-erase :
      has p (orders side v) ≡ true
      → Outcome NoFault (λ _ c. Gone p index b v c) (remove_order w p b)
  remove_order-erase m =
      let (l, h, inside) = has-concat_map v.queue p (ladder side v) m in remove_at l h inside
