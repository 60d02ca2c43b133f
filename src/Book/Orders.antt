-- ===== src/Book/Orders.antt =====
-- The rings of orders, first in first out: addOrder() and removeOrder().
use zquant_system.Prelude.{ℕ, none, some, Option, if◌then◌else◌}
use zquant_system.Common.Fault.{Cmd, pure, ◌>>=◌, ◌>>◌, deref, get, err, ok, out_of_range}
use zquant_system.Common.MemPool.{allocate, deallocate}
use zquant_system.Book.{
  Ptr, is_at, OrdersAtPrice, Book, order_at, level_at, set_prev_order, set_next_order,
  set_first_order, on_orders, on_levels, get_orders_at_price,
}
use zquant_system.Book.Levels.{add_orders_at_price, remove_orders_at_price}

module _ {K I : Type 0} where
  -- `order_before` and `order_after` go through the two fields of the order.
  unfoldable pub unlink_order : (p : ℕ) (level : Ptr) → Cmd (Book K I) (Unit {0})
  unlink_order p level = do
    b ← get
    before ← deref (order_at p b).prev_order
    set_next_order before (order_at p b).next_order
    after ← deref (order_at p b).next_order
    set_prev_order after (some before)
    b ← get
    l ← deref level
    (if is_at (level_at l b).first_order p then set_first_order l (some after) else pure tt)
    set_next_order p none
    set_prev_order p none

  -- The branch of a price with no level: a level of its own, with the order alone in its ring.
  unfoldable pub add_first_order : (p : ℕ) → Cmd (Book K I) (Unit {0})
  add_first_order p = do
    set_prev_order p (some p)
    set_next_order p (some p)
    b ← get
    let entry : OrdersAtPrice = record {
      side = (order_at p b).side;
      price = (order_at p b).price;
      first_order = some p;
      prev_entry = none;
      next_entry = none;
    }
    new ← on_levels (allocate entry)
    add_orders_at_price new

  -- The branch of a level: the order goes last in its ring.
  unfoldable pub append_order : (p level : ℕ) → Cmd (Book K I) (Unit {0})
  append_order p level = do
    b ← get
    first ← deref (level_at level b).first_order
    last ← deref (order_at first b).prev_order
    set_next_order last (some p)
    b ← get
    set_prev_order p (order_at first b).prev_order
    set_next_order p (some first)
    set_prev_order first (some p)

-- `index_write` is the write to the map of the orders, none where `.at()` is out of range.
module _ {K I : Type 0} (index_write : K → Ptr → I → Option I) where
  unfoldable pub set_index : K → Ptr → Cmd (Book K I) (Unit {0})
  set_index key p b = elim (index_write key p b.order_index) [
    | none ↦ err out_of_range
    | some i ↦ ok (tt, record b { order_index = i })
  ]

  unfoldable pub remove_order : (p : ℕ) → Cmd (Book K I) (Unit {0})
  remove_order p = do
    b ← get
    let level = get_orders_at_price (order_at p b).price b
    (if is_at (order_at p b).prev_order p
        then remove_orders_at_price (order_at p b).side (order_at p b).price
        else unlink_order p level)
    b ← get
    set_index (order_at p b).key none
    on_orders (deallocate p)

  unfoldable pub add_order : (p : ℕ) → Cmd (Book K I) (Unit {0})
  add_order p = do
    b ← get
    (elim (get_orders_at_price (order_at p b).price b) [
      | none ↦ add_first_order p
      | some level ↦ append_order p level
    ])
    b ← get
    set_index (order_at p b).key (some p)
