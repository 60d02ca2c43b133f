-- ===== src/Book/View/Shape.antt =====
-- Changes of a book that leave its levels and its pointers alone.
use zquant_system.Prelude.{◌<◌, ℕ, ◌≡◌, sym, ◌∙◌, ap, subst, true}
use zquant_system.Common.Types.{Side}
use zquant_system.Book.{Book, order_at, level_at, get_orders_at_price, price_to_index}
use zquant_system.Book.Ring.{has, Ring-frame}
use zquant_system.Book.Queue.{next_order_of, prev_order_of}
use zquant_system.Book.Ladder.{prev_entry_of}
use zquant_system.Book.Ladder.Sorted.{IsSorted, is_traded}
use zquant_system.Book.View.{View, Represents, ladder}

module _ {K I : Type 0} where
  -- What identifies the order `i` and what it is for.
  pub record SameOrder (i : ℕ) (b c : Book K I) : Type 0 where
    pub key : (order_at i c).key ≡ (order_at i b).key
    pub side : (order_at i c).side ≡ (order_at i b).side
    pub price : (order_at i c).price ≡ (order_at i b).price
    pub qty : (order_at i c).qty ≡ (order_at i b).qty
    pub priority : (order_at i c).priority ≡ (order_at i b).priority

  pub SameOrder-trans :
      (i : ℕ) (b c d : Book K I) → SameOrder i b c → SameOrder i c d → SameOrder i b d
  SameOrder-trans i b c d h k = record {
    key = k.key ∙ h.key;
    side = k.side ∙ h.side;
    price = k.price ∙ h.price;
    qty = k.qty ∙ h.qty;
    priority = k.priority ∙ h.priority;
  }

  -- Levels and pointers are the same, and so are the orders of the levels but for their quantities.
  pub record SameShape (v : View) (b c : Book K I) : Type 0 where
    pub levels : c.orders_at_price_pool ≡ b.orders_at_price_pool
    pub bids : c.bids_by_price ≡ b.bids_by_price
    pub asks : c.asks_by_price ≡ b.asks_by_price
    pub table : c.price_orders_at_price ≡ b.price_orders_at_price
    pub size : c.order_pool.size ≡ b.order_pool.size
    pub next : (i : ℕ) → next_order_of c i ≡ next_order_of b i
    pub prev : (i : ℕ) → prev_order_of c i ≡ prev_order_of b i
    pub side : (i : ℕ) → (order_at i c).side ≡ (order_at i b).side
    pub price : (i : ℕ) → (order_at i c).price ≡ (order_at i b).price
    pub used :
        (i l : ℕ) (s : Side)
        → is_traded s ≡ true
        → has l (ladder s v) ≡ true
        → has i (v.queue l) ≡ true
        → (c.order_pool.store i).is_free ≡ (b.order_pool.store i).is_free

  pub Represents-shape :
      (v : View) (b c : Book K I) → SameShape v b c → Represents b v → Represents c v
  Represents-shape v b c k r = record {
    ladders = λ s t.
        let h = r.ladders s t in
        record {
          best = rw (k.bids, k.asks) h.best;
          ring =
              Ring-frame {prev = prev_entry_of b} _
                (λ y _. (
                  ap (λ p. (p.store y).object.next_entry) k.levels,
                  ap (λ p. (p.store y).object.prev_entry) k.levels,
                ))
                h.ring;
          distinct = h.distinct;
          sorted =
              subst (λ p. IsSorted s (λ i. (p.store i).object.price) (ladder s v)) (sym k.levels)
                h.sorted;
        };
    levels = λ s t l m.
        let h = r.levels s t l m in
        record {
          used = ap (λ p. (p.store l).is_free) k.levels ∙ h.used;
          in_pool = subst (λ p. l < p.size) (sym k.levels) h.in_pool;
          side = ap (λ p. (p.store l).object.side) k.levels ∙ h.side;
          slot =
              ap (λ x. get_orders_at_price x c) (price_of l)
              ∙ ap (λ t. t (price_to_index (level_at l b).price)) k.table
              ∙ h.slot;
          orders = record {
            first = ap (λ p. (p.store l).object.first_order) k.levels ∙ h.orders.first;
            ring =
                Ring-frame {prev = prev_order_of b} _ (λ y _. (k.next y, k.prev y)) h.orders.ring;
            distinct = h.orders.distinct;
          };
          first = h.first;
          members = λ p m'.
              let o = h.members p m' in
              record {
                used = k.used p l s t m m' ∙ o.used;
                in_pool = subst (λ n. p < n) (sym k.size) o.in_pool;
                side = k.side p ∙ o.side ∙ ap (λ p. (p.store l).object.side) (sym k.levels);
                price = k.price p ∙ o.price ∙ sym (price_of l);
              };
        };
    table = λ i l e.
        let (f, s, t, h) = r.table i l (sym (ap (λ t. t i) k.table) ∙ e) in
        (ap (λ x. price_to_index x) (price_of l) ∙ f, s, t, h);
  }
    where
      price_of : (l : ℕ) → (level_at l c).price ≡ (level_at l b).price
      price_of l = ap (λ p. (p.store l).object.price) k.levels
