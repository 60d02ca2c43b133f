-- ===== src/Book/Keeps.antt =====
-- What the ring operations leave alone: which blocks of orders are in use, what identifies the
-- orders in them, and the map of the orders.
use zquant_system.Prelude.{
  ℕ, ◌≡◌, Bool, true, false, Option, none, some, inl, inr, Option-cases, Bool-cases, ◌<◌, update,
  ◌==◌, arith, if◌then◌else◌,
}
use zquant_system.Common.Types.{Side, Price}
use zquant_system.Common.Fault.{
  Result, ok, err, Cmd, stops, Outcome, IsFault, AnyFault, and_then, outcome, bind, weaken, reads,
  for_all,
}
use zquant_system.Common.MemPool.{MemPool, allocate, deallocate}
use zquant_system.Book.{
  Ptr, OrdersAtPrice, Book, write_order, on_levels, order_at, level_at, best_of, is_at,
  price_to_index, on_orders, get_orders_at_price,
}
use zquant_system.Book.Levels.{
  find_target, link_at, link_after, link_before, splice_before, take_over, add_orders_at_price,
  remove_orders_at_price, unlink_level,
}
use zquant_system.Book.Orders.{
  unlink_order, set_index, remove_order, add_first_order, append_order, add_order,
}

module _ {K I : Type 0} where
  -- The block `i` of orders, as far as no ring operation changes it.
  pub record Keeps (i : ℕ) (b c : Book K I) : Type 0 where
    pub size : c.order_pool.size ≡ b.order_pool.size
    pub next : c.order_pool.next_free_index ≡ b.order_pool.next_free_index
    pub used : (c.order_pool.store i).is_free ≡ (b.order_pool.store i).is_free
    pub key : (order_at i c).key ≡ (order_at i b).key
    pub index : c.order_index ≡ b.order_index

  pub Keeps-refl : (i : ℕ) (b : Book K I) → Keeps i b b
  Keeps-refl i b = ground arith

  pub Keeps-trans : (i : ℕ) (b c d : Book K I) → Keeps i b c → Keeps i c d → Keeps i b d
  Keeps-trans i b c d h k = ground arith

  pub unlink_order-Keeps :
      (i p : ℕ) (level : Ptr) (b : Book K I)
      → Outcome IsFault (λ _ c. Keeps i b c) (unlink_order p level b)
  unfolding unlink_order
  unlink_order-Keeps i p level b = outcome _ (ground arith)

  pub remove_orders_at_price-Keeps :
      (i : ℕ) (side : Side) (price : Price) (b : Book K I)
      → Outcome IsFault (λ _ c. Keeps i b c) (remove_orders_at_price side price b)
  unfolding remove_orders_at_price unlink_level deallocate
  remove_orders_at_price-Keeps i side price b = outcome _ (ground arith)

  pub link_after-Keeps :
      (i new best target : ℕ) (b : Book K I)
      → Outcome AnyFault (λ _ c. Keeps i b c) (link_after new best target b)
  unfolding link_after
  link_after-Keeps i new best target b = outcome _ (ground arith)

  pub link_before-Keeps :
      (i new best target : ℕ) (b : Book K I)
      → Outcome AnyFault (λ _ c. Keeps i b c) (link_before new best target b)
  unfolding link_before splice_before take_over
  link_before-Keeps i new best target b = outcome _ (ground arith)

  link_at-Keeps :
      (i new best : ℕ) (place : ℕ × Bool) (b : Book K I)
      → Outcome AnyFault (λ _ c. Keeps i b c) (link_at new best place b)
  unfolding link_at
  link_at-Keeps i new best (target, true) b = link_after-Keeps i new best target b
  link_at-Keeps i new best (target, false) b = link_before-Keeps i new best target b

  pub add_orders_at_price-Keeps :
      (i new : ℕ) (b : Book K I) → Outcome AnyFault (λ _ c. Keeps i b c) (add_orders_at_price new b)
  unfolding add_orders_at_price
  add_orders_at_price-Keeps i new b = elim (Option-cases (best_of (level_at new b).side b)) [
    | inl e ↦ rw (e, add_orders_at_price) (outcome _ (ground arith))
    | inr (best, e) ↦
        rw (e, add_orders_at_price)
          (bind
            (reads (find_target (level_at new b).side (level_at new b).price best) _ (λ a _. start)
              (λ x _. tt))
            (λ place c h. weaken (link_at-Keeps i new best place c) (λ _ d. Keeps-trans i b c d h)))
  ]
    where
      start : Keeps i b (record b {
        price_orders_at_price =
            update b.price_orders_at_price (price_to_index (level_at new b).price) (some new);
      })
      start = ground arith

  -- What removing the order `p` does to the block `i`.
  pub record Removed (w : K → Ptr → I → Option I) (p i : ℕ) (b c : Book K I) : Type 0 where
    pub in_range : p < b.order_pool.size
    pub was_used : (b.order_pool.store p).is_free ≡ false
    pub size : c.order_pool.size ≡ b.order_pool.size
    pub next : c.order_pool.next_free_index ≡ b.order_pool.next_free_index
    pub used :
        (c.order_pool.store i).is_free ≡ (if p == i then true else (b.order_pool.store i).is_free)
    pub key : (order_at i c).key ≡ (order_at i b).key
    pub index : w (order_at p b).key none b.order_index ≡ some c.order_index

  module _ (w : K → Ptr → I → Option I) where
    -- The part of removeOrder() behind the ring operation.
    drop-Removed :
        (p i : ℕ) (b c : Book K I)
        → ((j : ℕ) → Keeps j b c)
        → Outcome IsFault
            (λ _ d. Removed w p i b d)
            (and_then {S = Book K I}
              (set_index w (order_at p c).key none c)
              (λ _. on_orders (deallocate p)))
    unfolding set_index deallocate
    drop-Removed p i b c h = elim (Option-cases (w (order_at p c).key none c.order_index)) [
      | inl e ↦ rw (e, set_index) (outcome _ (ground arith))
      | inr (x, e) ↦ rw (e, set_index) (outcome _ (ground (arith, h i, h p)))
    ]

    pub remove_order-Removed :
        (p i : ℕ) (b : Book K I) → Outcome IsFault (λ _ c. Removed w p i b c) (remove_order w p b)
    unfolding remove_order
    remove_order-Removed p i b = elim (Bool-cases (is_at (order_at p b).prev_order p)) [
      | inl e ↦
          rw (e, remove_order)
            (bind (for_all _ (λ j. remove_orders_at_price-Keeps j _ _ b))
              (λ _ c h. drop-Removed p i b c h))
      | inr e ↦
          rw (e, remove_order)
            (bind (for_all _ (λ j. unlink_order-Keeps j p _ b)) (λ _ c h. drop-Removed p i b c h))
    ]

  -- What filing the order `p` does to the block `i`.
  pub record Filed (w : K → Ptr → I → Option I) (p i : ℕ) (b c : Book K I) : Type 0 where
    pub size : c.order_pool.size ≡ b.order_pool.size
    pub next : c.order_pool.next_free_index ≡ b.order_pool.next_free_index
    pub used : (c.order_pool.store i).is_free ≡ (b.order_pool.store i).is_free
    pub key : (order_at i c).key ≡ (order_at i b).key
    pub index : w (order_at p b).key (some p) b.order_index ≡ some c.order_index

  on_levels-Keeps :
      {A : Type 0} (i : ℕ) (c : Cmd (MemPool OrdersAtPrice) A) (b : Book K I)
      → Outcome AnyFault (λ _ d. Keeps i b d) (on_levels c b)
  on_levels-Keeps {A} i c b = go (c b.orders_at_price_pool)
    where
      go :
          (r : Result (A × MemPool OrdersAtPrice))
          → Outcome AnyFault
              (λ _ d. Keeps i b d)
              (elim r [
                | ok (a, pool) ↦ ok (a, record b { orders_at_price_pool = pool })
                | err e ↦ err e
              ])
      go (ok (a, pool)) = outcome _ (ground arith)
      go (err e) = stops tt

  ring_of_one-Keeps :
      (i p : ℕ) (b : Book K I)
      → Keeps i b (
          write_order p
            (λ o. record o { next_order = some p })
            (write_order p (λ o. record o { prev_order = some p }) b))
  ring_of_one-Keeps i p b = ground arith

  add_first_order-Keeps :
      (i p : ℕ) (b : Book K I) → Outcome AnyFault (λ _ c. Keeps i b c) (add_first_order p b)
  unfolding add_first_order
  add_first_order-Keeps i p b = bind (on_levels-Keeps i (allocate _) _) λ new c h.
      weaken (add_orders_at_price-Keeps i new c)
        λ _ d k. Keeps-trans i b _ d (ring_of_one-Keeps i p b) (Keeps-trans i _ c d h k)

  append_order-Keeps :
      (i p level : ℕ) (b : Book K I)
      → Outcome AnyFault (λ _ c. Keeps i b c) (append_order p level b)
  unfolding append_order
  append_order-Keeps i p level b = outcome _ (ground arith)

  module _ (w : K → Ptr → I → Option I) where
    file-Filed :
        (p i : ℕ) (b c : Book K I)
        → ((j : ℕ) → Keeps j b c)
        → Outcome AnyFault (λ _ d. Filed w p i b d) (set_index w (order_at p c).key (some p) c)
    unfolding set_index
    file-Filed p i b c h = elim (Option-cases (w (order_at p c).key (some p) c.order_index)) [
      | inl e ↦ rw (e, set_index) (outcome _ (ground arith))
      | inr (x, e) ↦ rw (e, set_index) (outcome _ (ground (arith, h i, h p)))
    ]

    pub add_order-Filed :
        (p i : ℕ) (b : Book K I) → Outcome AnyFault (λ _ c. Filed w p i b c) (add_order w p b)
    unfolding add_order
    add_order-Filed p i b = elim (Option-cases (get_orders_at_price (order_at p b).price b)) [
      | inl e ↦
          rw (e, add_order)
            (bind (for_all _ (λ j. add_first_order-Keeps j p b)) (λ _ c h. file-Filed p i b c h))
      | inr (l, e) ↦
          rw (e, add_order)
            (bind (for_all _ (λ j. append_order-Keeps j p l b)) (λ _ c h. file-Filed p i b c h))
    ]
