-- ===== src/Book/Ladder/Drop.antt =====
-- A level goes: remove_orders_at_price() of Book/Levels.
use zquant_system.Prelude.{
  ℕ, ◌≡◌, ◌≢◌, ◌<◌, ◌∙◌, ap, true, false, none, some, arith, ◌==◌, if◌then◌else◌, update,
}
use zquant_system.Common.Types.{Side, Price, is_buy}
use zquant_system.Common.Fault.{Outcome, NoFault, and_then, bind, outcome, weaken, both, for_all}
use zquant_system.Common.MemPool.{deallocate}
use zquant_system.Book.{
  Ptr, Book, level_at, is_at, best_of, price_to_index, get_orders_at_price, set_orders_at_price,
  on_levels,
}
use zquant_system.Book.Levels.{unlink_level, remove_orders_at_price}
use zquant_system.Book.Ladder.{LevelKept, next_entry_of, prev_entry_of}
use zquant_system.Book.Ring.Splice.{Taken}

module _ {K I : Type 0} where
  -- The block of the level `l` is free and its price has no level; all else but links is the same.
  pub record DroppedAt (l : ℕ) (at_price : Price) (bids asks : Ptr) (i : ℕ) (b c : Book K I)
      : Type 0 where
    pub orders : c.order_pool ≡ b.order_pool
    pub index : c.order_index ≡ b.order_index
    pub table :
        c.price_orders_at_price ≡ update b.price_orders_at_price (price_to_index at_price) none
    pub size : c.orders_at_price_pool.size ≡ b.orders_at_price_pool.size
    pub next_free : c.orders_at_price_pool.next_free_index ≡ b.orders_at_price_pool.next_free_index
    pub used :
        (c.orders_at_price_pool.store i).is_free
        ≡ (if l == i then true else (b.orders_at_price_pool.store i).is_free)
    pub side : (level_at i c).side ≡ (level_at i b).side
    pub price : (level_at i c).price ≡ (level_at i b).price
    pub first_order : (level_at i c).first_order ≡ (level_at i b).first_order
    pub bids_is : c.bids_by_price ≡ bids
    pub asks_is : c.asks_by_price ≡ asks

  -- The best level of a side without the level `l`, which is before `w`.
  abbrev pub next_best : ℕ → ℕ → Side → Book K I → Ptr
  next_best l w side b = if is_at (best_of side b) l then some w else best_of side b

  module _ (l u w : ℕ) (side : Side) (b : Book K I) (e : prev_entry_of b l ≡ some u)
      (f : next_entry_of b l ≡ some w) (m : l ≢ u) (n : l ≢ w) where
    unlink_level-rest :
        Outcome NoFault
          (λ _ c.
            (c.order_pool ≡ b.order_pool)
            × (c.order_index ≡ b.order_index)
            × (c.price_orders_at_price ≡ b.price_orders_at_price)
            × (c.orders_at_price_pool.size ≡ b.orders_at_price_pool.size)
            × (c.orders_at_price_pool.next_free_index ≡ b.orders_at_price_pool.next_free_index))
          (unlink_level side l b)
    unfolding unlink_level
    unlink_level-rest = outcome _ (ground arith)

    unlink_level-used :
        (i : ℕ)
        → Outcome NoFault
            (λ _ c.
              (c.orders_at_price_pool.store i).is_free ≡ (b.orders_at_price_pool.store i).is_free)
            (unlink_level side l b)
    unfolding unlink_level
    unlink_level-used i = outcome _ (ground arith)

    unlink_level-side :
        (i : ℕ)
        → Outcome NoFault (λ _ c. (level_at i c).side ≡ (level_at i b).side) (unlink_level side l b)
    unfolding unlink_level
    unlink_level-side i = outcome _ (ground arith)

    unlink_level-price :
        (i : ℕ)
        → Outcome NoFault
            (λ _ c. (level_at i c).price ≡ (level_at i b).price)
            (unlink_level side l b)
    unfolding unlink_level
    unlink_level-price i = outcome _ (ground arith)

    unlink_level-first_order :
        (i : ℕ)
        → Outcome NoFault
            (λ _ c. (level_at i c).first_order ≡ (level_at i b).first_order)
            (unlink_level side l b)
    unfolding unlink_level
    unlink_level-first_order i = outcome _ (ground arith)

    unlink_level-kept : (i : ℕ) → Outcome NoFault (λ _ c. LevelKept i b c) (unlink_level side l b)
    unlink_level-kept i =
        weaken
          (both unlink_level-rest (
            both (unlink_level-used i) (
              both (unlink_level-side i)
                (both (unlink_level-price i) (unlink_level-first_order i)))))
          λ _ c h. record {
            orders = h.0.0;
            index = h.0.1;
            table = h.0.2;
            size = h.0.3;
            next_free = h.0.4;
            used = h.1.0;
            side = h.1.1.0;
            price = h.1.1.1.0;
            first_order = h.1.1.1.1;
          }

    unlink_level-best :
        Outcome NoFault
          (λ _ c.
            (c.bids_by_price ≡ (if is_buy side then next_best l w side b else b.bids_by_price))
            × (c.asks_by_price ≡ (if is_buy side then b.asks_by_price else next_best l w side b)))
          (unlink_level side l b)
    unfolding unlink_level
    unlink_level-best = outcome _ (ground arith)

    unlink_level-links :
        (i : ℕ)
        → Outcome NoFault
            (λ _ c.
              (next_entry_of c u ≡ some w)
              × (prev_entry_of c w ≡ some u)
              × (i ≢ u → i ≢ l → next_entry_of c i ≡ next_entry_of b i)
              × (i ≢ w → i ≢ l → prev_entry_of c i ≡ prev_entry_of b i))
            (unlink_level side l b)
    unfolding unlink_level
    unlink_level-links i = outcome _ (ground arith)

  module _ (l : ℕ) (side : Side) (price : Price) (b : Book K I)
      (slot : get_orders_at_price price b ≡ some l) (in_pool : l < b.orders_at_price_pool.size)
      (in_use : (b.orders_at_price_pool.store l).is_free ≡ false) where
    pub remove_only_level :
        (i : ℕ)
        → next_entry_of b l ≡ some l
        → Outcome NoFault
            (λ _ c.
              DroppedAt l price
                (if is_buy side then none else b.bids_by_price)
                (if is_buy side then b.asks_by_price else none)
                i
                b
                c
              × (next_entry_of c i ≡ next_entry_of b i)
              × (prev_entry_of c i ≡ prev_entry_of b i))
            (remove_orders_at_price side price b)
    unfolding remove_orders_at_price deallocate
    remove_only_level i e = outcome _ (ground arith)

  -- The end of removeOrdersAtPrice().
  free_level :
      (l : ℕ) (price : Price) (i : ℕ) (b : Book K I)
      → l < b.orders_at_price_pool.size
      → (b.orders_at_price_pool.store l).is_free ≡ false
      → Outcome NoFault
          (λ _ c.
            DroppedAt l price b.bids_by_price b.asks_by_price i b c
            × (next_entry_of c i ≡ next_entry_of b i)
            × (prev_entry_of c i ≡ prev_entry_of b i))
          (and_then {S = Book K I}
            (set_orders_at_price price none b)
            (λ _. on_levels (deallocate l)))
  unfolding deallocate
  free_level l price i b h k = outcome _ (ground arith)

  pub record Dropped (l : ℕ) (at_price : Price) (u w : ℕ) (bids asks : Ptr) (b c : Book K I)
      : Type 0 where
    pub dropped : (i : ℕ) → DroppedAt l at_price bids asks i b c
    pub links : Taken (next_entry_of b) (prev_entry_of b) (next_entry_of c) (prev_entry_of c) u l w

  then_free_level :
      (l i : ℕ) (price : Price) (bids asks : Ptr) (b c d : Book K I)
      → LevelKept i b c
      → c.bids_by_price ≡ bids
      → c.asks_by_price ≡ asks
      → DroppedAt l price c.bids_by_price c.asks_by_price i c d
      → DroppedAt l price bids asks i b d
  then_free_level l i price bids asks b c d k eb ea h = record {
    orders = h.orders ∙ k.orders;
    index = h.index ∙ k.index;
    table = h.table ∙ ap (λ t. update t (price_to_index price) none) k.table;
    size = h.size ∙ k.size;
    next_free = h.next_free ∙ k.next_free;
    used = h.used ∙ ap (λ x. if l == i then true else x) k.used;
    side = h.side ∙ k.side;
    price = h.price ∙ k.price;
    first_order = h.first_order ∙ k.first_order;
    bids_is = h.bids_is ∙ eb;
    asks_is = h.asks_is ∙ ea;
  }

  module _ (l : ℕ) (side : Side) (price : Price) (b : Book K I)
      (slot : get_orders_at_price price b ≡ some l) (in_pool : l < b.orders_at_price_pool.size)
      (in_use : (b.orders_at_price_pool.store l).is_free ≡ false) where
    module _ (u w : ℕ) (e : prev_entry_of b l ≡ some u) (f : next_entry_of b l ≡ some w) (m : l ≢ u)
        (n : l ≢ w) where
      pub remove_level-Dropped :
          Outcome NoFault
            (λ _ c.
              Dropped l price u w
                (if is_buy side then next_best l w side b else b.bids_by_price)
                (if is_buy side then b.asks_by_price else next_best l w side b)
                b
                c)
            (remove_orders_at_price side price b)
      unfolding remove_orders_at_price
      remove_level-Dropped =
          rw (slot, f, other, remove_orders_at_price)
            (bind
              (for_all _ (λ i. both (unlink_level-kept l u w side b e f m n i) (
                both (unlink_level-best l u w side b e f m n)
                  (unlink_level-links l u w side b e f m n i))))
              λ _ c h.
                weaken
                  (for_all _ (λ i.
                    free_level l price i c (ground (arith, (h 0).0.size)) ((h l).0.used ∙ in_use)))
                  λ _ d k. record {
                    dropped = λ i.
                        then_free_level l i price _ _ b c d (h i).0 (h i).1.0.0 (h i).1.0.1 (k i).0;
                    links = record {
                      next_before = (k u).1 ∙ (h 0).1.1.0;
                      prev_behind = (k w).2 ∙ (h 0).1.1.1;
                      next_others = λ i m n. (k i).1 ∙ (h i).1.1.2 m n;
                      prev_others = λ i m n. (k i).2 ∙ (h i).1.1.3 m n;
                    };
                  })
        where
          other : (w == l) ≡ false
          other = ground arith
