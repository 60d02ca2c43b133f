-- ===== src/Book/Queue.antt =====
-- The orders of one price level as a list, first in first out: what the pointer operations
-- append_order() and unlink_order() of Book/Orders do to it.
use zquant_system.Prelude.{
  ℕ, ◌≡◌, ◌≢◌, sym, ◌∙◌, ap, subst, inl, inr, true, false, some, List, [], ◌∷◌, ◌++◌, arith,
  Bool-cases, if◌then◌else◌,
}
use zquant_system.Common.Fault.{Outcome, NoFault, outcome, weaken, both, for_all}
use zquant_system.Book.{Ptr, Book, order_at, level_at, is_at}
use zquant_system.Book.Orders.{append_order, unlink_order}
use zquant_system.Book.Ring.{
  has, IsDistinct, head?, erase, Ring, Ring-frame, split, IsDistinct-append, IsDistinct-erase,
}
use zquant_system.Book.Ring.Splice.{Inserted, Taken, Ring-append, Ring-take, head?-erase}

module _ {K I : Type 0} where
  abbrev pub next_order_of : Book K I → ℕ → Ptr
  next_order_of b p = (order_at p b).next_order

  abbrev pub prev_order_of : Book K I → ℕ → Ptr
  prev_order_of b p = (order_at p b).prev_order

  -- The level `l` has the orders `queue`, in this order.
  pub record IsQueue (b : Book K I) (l : ℕ) (queue : List ℕ) : Type 0 where
    pub first : (level_at l b).first_order ≡ head? queue
    pub ring : Ring (next_order_of b) (prev_order_of b) queue
    pub distinct : IsDistinct queue

  -- All of an order but its pointers is the same, and so are the levels but for their first orders.
  pub record Relinked (i : ℕ) (b c : Book K I) : Type 0 where
    pub size : c.order_pool.size ≡ b.order_pool.size
    pub next_free : c.order_pool.next_free_index ≡ b.order_pool.next_free_index
    pub used : (c.order_pool.store i).is_free ≡ (b.order_pool.store i).is_free
    pub key : (order_at i c).key ≡ (order_at i b).key
    pub side : (order_at i c).side ≡ (order_at i b).side
    pub price : (order_at i c).price ≡ (order_at i b).price
    pub qty : (order_at i c).qty ≡ (order_at i b).qty
    pub priority : (order_at i c).priority ≡ (order_at i b).priority
    pub index : c.order_index ≡ b.order_index
    pub bids : c.bids_by_price ≡ b.bids_by_price
    pub asks : c.asks_by_price ≡ b.asks_by_price
    pub table : c.price_orders_at_price ≡ b.price_orders_at_price
    pub levels_size : c.orders_at_price_pool.size ≡ b.orders_at_price_pool.size
    pub levels_next :
        c.orders_at_price_pool.next_free_index ≡ b.orders_at_price_pool.next_free_index
    pub level_used :
        (c.orders_at_price_pool.store i).is_free ≡ (b.orders_at_price_pool.store i).is_free
    pub level_side : (level_at i c).side ≡ (level_at i b).side
    pub level_price : (level_at i c).price ≡ (level_at i b).price
    pub prev_entry : (level_at i c).prev_entry ≡ (level_at i b).prev_entry
    pub next_entry : (level_at i c).next_entry ≡ (level_at i b).next_entry

  pub record Appended (p u w : ℕ) (b c : Book K I) : Type 0 where
    pub relinked : (i : ℕ) → Relinked i b c
    pub firsts : (i : ℕ) → (level_at i c).first_order ≡ (level_at i b).first_order
    pub links :
        Inserted (next_order_of b) (prev_order_of b) (next_order_of c) (prev_order_of c) u p w

  append_order-at :
      (p level u w : ℕ) (b : Book K I)
      → (level_at level b).first_order ≡ some w
      → (order_at w b).prev_order ≡ some u
      → p ≢ w
      → p ≢ u
      → (i : ℕ)
      → Outcome NoFault
          (λ _ c.
            Relinked i b c
            × ((level_at i c).first_order ≡ (level_at i b).first_order)
            × (next_order_of c u ≡ some p)
            × (next_order_of c p ≡ some w)
            × (prev_order_of c p ≡ some u)
            × (prev_order_of c w ≡ some p)
            × (i ≢ u → i ≢ p → next_order_of c i ≡ next_order_of b i)
            × (i ≢ w → i ≢ p → prev_order_of c i ≡ prev_order_of b i))
          (append_order p level b)
  unfolding append_order
  append_order-at p level u w b e f m n i = outcome _ (ground arith)

  pub append_order-Appended :
      (p level u w : ℕ) (b : Book K I)
      → (level_at level b).first_order ≡ some w
      → (order_at w b).prev_order ≡ some u
      → p ≢ w
      → p ≢ u
      → Outcome NoFault (λ _ c. Appended p u w b c) (append_order p level b)
  append_order-Appended p level u w b e f m n =
      weaken (for_all _ (append_order-at p level u w b e f m n)) λ _ c h. record {
        relinked = λ i. (h i).0;
        firsts = λ i. (h i).1;
        links = record {
          next_before = (h 0).2;
          next_new = (h 0).3;
          prev_new = (h 0).4;
          prev_behind = (h 0).5;
          next_others = λ i. (h i).6;
          prev_others = λ i. (h i).7;
        };
      }

  pub record Unlinked (p l u w : ℕ) (b c : Book K I) : Type 0 where
    pub relinked : (i : ℕ) → Relinked i b c
    pub firsts : (i : ℕ) → i ≢ l → (level_at i c).first_order ≡ (level_at i b).first_order
    pub first :
        (level_at l c).first_order
        ≡ (if is_at (level_at l b).first_order p then some w else (level_at l b).first_order)
    pub links : Taken (next_order_of b) (prev_order_of b) (next_order_of c) (prev_order_of c) u p w

  module _ (p l u w : ℕ) (b : Book K I) (e : (order_at p b).prev_order ≡ some u)
      (f : (order_at p b).next_order ≡ some w) (m : p ≢ w) (n : p ≢ u) where
    unlink_order-Relinked :
        (i : ℕ) → Outcome NoFault (λ _ c. Relinked i b c) (unlink_order p (some l) b)
    unfolding unlink_order
    unlink_order-Relinked i = elim (Bool-cases (is_at (level_at l b).first_order p)) [
      | inl t ↦ rw (e, f, t, unlink_order) (outcome _ (ground arith))
      | inr t ↦ rw (e, f, t, unlink_order) (outcome _ (ground arith))
    ]

    unlink_order-firsts :
        (i : ℕ)
        → Outcome NoFault
            (λ _ c.
              (i ≢ l → (level_at i c).first_order ≡ (level_at i b).first_order)
              × ((level_at l c).first_order ≡ (
                  if is_at (level_at l b).first_order p
                  then some w
                  else (level_at l b).first_order)))
            (unlink_order p (some l) b)
    unfolding unlink_order
    unlink_order-firsts i = elim (Bool-cases (is_at (level_at l b).first_order p)) [
      | inl t ↦ rw (e, f, t, unlink_order) (outcome _ (ground arith))
      | inr t ↦ rw (e, f, t, unlink_order) (outcome _ (ground arith))
    ]

    unlink_order-links :
        (i : ℕ)
        → Outcome NoFault
            (λ _ c.
              (next_order_of c u ≡ some w)
              × (prev_order_of c w ≡ some u)
              × (i ≢ u → i ≢ p → next_order_of c i ≡ next_order_of b i)
              × (i ≢ w → i ≢ p → prev_order_of c i ≡ prev_order_of b i))
            (unlink_order p (some l) b)
    unfolding unlink_order
    unlink_order-links i = elim (Bool-cases (is_at (level_at l b).first_order p)) [
      | inl t ↦ rw (e, f, t, unlink_order) (outcome _ (ground arith))
      | inr t ↦ rw (e, f, t, unlink_order) (outcome _ (ground arith))
    ]

    pub unlink_order-Unlinked :
        Outcome NoFault (λ _ c. Unlinked p l u w b c) (unlink_order p (some l) b)
    unlink_order-Unlinked =
        weaken
          (for_all _ (λ i.
            both (unlink_order-Relinked i) (both (unlink_order-firsts i) (unlink_order-links i))))
          λ _ c h. record {
            relinked = λ i. (h i).0;
            firsts = λ i. (h i).1.0.0;
            first = (h 0).1.0.1;
            links = record {
              next_before = (h 0).1.1.0;
              prev_behind = (h 0).1.1.1;
              next_others = λ i. (h i).1.1.2;
              prev_others = λ i. (h i).1.1.3;
            };
          }

  -- Another level's orders stay.
  pub Appended-others :
      (p u w l : ℕ) (queue : List ℕ) (b c : Book K I)
      → Appended p u w b c
      → has u queue ≡ false
      → has p queue ≡ false
      → has w queue ≡ false
      → IsQueue b l queue
      → IsQueue c l queue
  Appended-others p u w l queue b c a hu hp hw q = record {
    first = a.firsts l ∙ q.first;
    ring =
        Ring-frame queue
          (λ y h. (
            a.links.next_others y (ground arith) (ground arith),
            a.links.prev_others y (ground arith) (ground arith),
          ))
          q.ring;
    distinct = q.distinct;
  }

  pub Unlinked-others :
      (p l u w k : ℕ) (queue : List ℕ) (b c : Book K I)
      → Unlinked p l u w b c
      → k ≢ l
      → has u queue ≡ false
      → has p queue ≡ false
      → has w queue ≡ false
      → IsQueue b k queue
      → IsQueue c k queue
  Unlinked-others p l u w k queue b c a ne hu hp hw q = record {
    first = a.firsts k ne ∙ q.first;
    ring =
        Ring-frame queue
          (λ y h. (
            a.links.next_others y (ground arith) (ground arith),
            a.links.prev_others y (ground arith) (ground arith),
          ))
          q.ring;
    distinct = q.distinct;
  }

  pub Appended-IsQueue :
      (p u w l : ℕ) (queue : List ℕ) (b c : Book K I)
      → Appended p u w b c
      → prev_order_of b w ≡ some u
      → has p (w ∷ queue) ≡ false
      → IsQueue b l (w ∷ queue)
      → IsQueue c l (w ∷ queue ++ p ∷ [])
  Appended-IsQueue p u w l queue b c a e h q = record {
    first = a.firsts l ∙ q.first;
    ring = Ring-append _ _ _ _ u p w queue a.links q.distinct h e q.ring;
    distinct = IsDistinct-append (w ∷ queue) p q.distinct h;
  }

  pub Unlinked-IsQueue :
      (p l u w : ℕ) (queue : List ℕ) (b c : Book K I)
      → Unlinked p l u w b c
      → prev_order_of b p ≡ some u
      → next_order_of b p ≡ some w
      → p ≢ u
      → p ≢ w
      → has p queue ≡ true
      → IsQueue b l queue
      → IsQueue c l (erase p queue)
  Unlinked-IsQueue p l u w queue b c a e f n m h q =
      let (front, back, s, out, g) = split p queue h in
      record {
        first =
            a.first
            ∙ ap (λ o. if is_at o p then some w else o) q.first
            ∙ sym (head?-erase _ _ p w queue m f q.ring);
        ring = subst (Ring _ _) (sym g) (
            Ring-take (next_order_of b) (prev_order_of b) _ _ u p w front back a.links
              (subst IsDistinct s q.distinct) e f n (subst (Ring _ _) s q.ring));
        distinct = IsDistinct-erase p queue q.distinct;
      }
