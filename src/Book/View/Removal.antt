-- ===== src/Book/View/Removal.antt =====
-- The two ways in which remove_order() of Book/Orders takes an order out, on the lists that a book
-- stands for.
use zquant_system.Prelude.{
  ℕ, ◌≡◌, ◌≢◌, ◌<◌, sym, ◌∙◌, ap, subst, inl, inr, true, false, not, Option, none, some, [], ◌∷◌,
  ◌==◌, arith, Bool-cases, if◌then◌else◌, concat_map,
}
use zquant_system.Common.Types.{Side, is_buy}
use zquant_system.Common.Fault.{Outcome, NoFault, and_then, outcome}
use zquant_system.Common.MemPool.{deallocate}
use zquant_system.Book.{Ptr, Book, order_at, on_orders}
use zquant_system.Book.Orders.{set_index}
use zquant_system.Book.Ring.{has, has-erase, erase}
use zquant_system.Book.Ladder.Sorted.{is_traded}
use zquant_system.Book.View.{
  View, IsNowhere, Represents, ladder, orders, with_ladder, with_queue, ladder_self, ladder_other,
  queue-with_ladder, same_or_other,
}
use zquant_system.Book.View.Requeue.{apart}
use zquant_system.Book.View.Relevel.{off_side}
use zquant_system.Book.View.Shape.{SameOrder, SameShape, Represents-shape}
use zquant_system.Book.View.Flatten.{
  erase-concat_map_none, concat_map-update, concat_map-erase_order, concat_map-erase_level,
}

-- The lists of orders without `p`, where the level `l` of `side` keeps other orders.
module _ {K I : Type 0} (b : Book K I) (v : View) (r : Represents b v) (side : Side) (p l : ℕ)
    (t : is_traded side ≡ true) (h : has l (ladder side v) ≡ true)
    (inside : has p (v.queue l) ≡ true) where
  absent :
      (s : Side) (k : ℕ)
      → is_traded s ≡ true
      → has k (ladder s v) ≡ true
      → k ≢ l
      → has p (v.queue k) ≡ false
  absent s k hs m ne = apart b v r side s l k p t hs h m ne inside

  other_absent :
      (s : Side)
      → is_traded s ≡ true
      → is_buy s ≡ not (is_buy side)
      → (k : ℕ) → has k (ladder s v) ≡ true
      → has p (v.queue k) ≡ false
  other_absent s hs e k m =
      absent s k hs m (λ same. ground (arith, off_side b v r side s k t hs e m))

  abbrev pub unlinked : View
  unlinked = with_queue l (erase p (v.queue l)) v

  abbrev pub unlevelled : View
  unlevelled = with_ladder side (erase l (ladder side v)) v

  pub orders-unlinked : (s : Side) → is_traded s ≡ true → orders s unlinked ≡ erase p (orders s v)
  orders-unlinked s hs = elim (same_or_other side s t hs) [
    | inl e ↦
        subst (λ s. orders s unlinked ≡ erase p (orders s v)) e
          (concat_map-erase_order v.queue p l (ladder side v) (r.ladders side t).distinct h inside
            (λ k m ne. absent side k t m ne))
    | inr e ↦
        concat_map-update v.queue l (erase p (v.queue l)) (ladder s v) (not_there s hs e)
        ∙ sym (erase-concat_map_none v.queue p (ladder s v) (other_absent s hs e))
  ]
    where
      not_there :
          (s : Side)
          → is_traded s ≡ true
          → is_buy s ≡ not (is_buy side)
          → has l (ladder s v) ≡ false
      not_there s hs e = elim (Bool-cases (has l (ladder s v))) [
        | inl m ↦ absurd (ground (arith, off_side b v r side s l t hs e m))
        | inr out ↦ out
      ]

  pub orders-unlevelled :
      v.queue l ≡ p ∷ []
      → (s : Side) → is_traded s ≡ true
      → orders s unlevelled ≡ erase p (orders s v)
  orders-unlevelled only s hs =
      ap (λ q. concat_map q (ladder s unlevelled))
        (queue-with_ladder side (erase l (ladder side v)) v)
      ∙ elim (same_or_other side s t hs) [
        | inl e ↦
            subst (λ s. concat_map v.queue (ladder s unlevelled) ≡ erase p (orders s v)) e
              (ap (concat_map v.queue) (ladder_self side (erase l (ladder side v)) v)
                ∙ concat_map-erase_level v.queue p l (ladder side v) (r.ladders side t).distinct h
                    only (λ k m ne. absent side k t m ne))
        | inr e ↦
            ap (concat_map v.queue) (ladder_other side s (erase l (ladder side v)) v e)
            ∙ sym (erase-concat_map_none v.queue p (ladder s v) (other_absent s hs e))
      ]

  pub unlinked-IsNowhere : IsNowhere p unlinked
  unlinked-IsNowhere s k hs m = elim (Bool-cases (l == k)) [
    | inl e ↦ rw e (has-erase p p (v.queue l) (r.levels side t l h).orders.distinct ∙ ground arith)
    | inr e ↦ rw e (absent s k hs m (ground arith))
  ]

  not_erased : (k : ℕ) → has k (erase l (ladder side v)) ≡ true → has p (v.queue k) ≡ false
  not_erased k m =
      absent side k t (ground (arith, has-erase k l (ladder side v) (r.ladders side t).distinct))
        (λ same. ground (arith, has-erase k l (ladder side v) (r.ladders side t).distinct))

  pub unlevelled-IsNowhere : IsNowhere p unlevelled
  unlevelled-IsNowhere s k hs m =
      ap (λ q. has p (q k)) (queue-with_ladder side (erase l (ladder side v)) v)
      ∙ elim (same_or_other side s t hs) [
        | inl e ↦
            subst (λ s. has k (ladder s unlevelled) ≡ true → has p (v.queue k) ≡ false) e
              (λ m.
                not_erased k (sym (ap (has k) (ladder_self side (erase l (ladder side v)) v)) ∙ m))
              m
        | inr e ↦
            other_absent s hs e k
              (sym (ap (has k) (ladder_other side s (erase l (ladder side v)) v e)) ∙ m)
      ]

module _ {K I : Type 0} where
  -- The end of removeOrder(): the map forgets the order and its block is free.
  pub record Freed (p i : ℕ) (index : I) (b c : Book K I) : Type 0 where
    pub levels : c.orders_at_price_pool ≡ b.orders_at_price_pool
    pub bids : c.bids_by_price ≡ b.bids_by_price
    pub asks : c.asks_by_price ≡ b.asks_by_price
    pub table : c.price_orders_at_price ≡ b.price_orders_at_price
    pub size : c.order_pool.size ≡ b.order_pool.size
    pub object : order_at i c ≡ order_at i b
    pub used :
        (c.order_pool.store i).is_free ≡ (if p == i then true else (b.order_pool.store i).is_free)
    pub index_is : c.order_index ≡ index

  pub free_order :
      (w : K → Ptr → I → Option I) (p i : ℕ) (index : I) (b : Book K I)
      → w (order_at p b).key none b.order_index ≡ some index
      → p < b.order_pool.size
      → (b.order_pool.store p).is_free ≡ false
      → Outcome NoFault
          (λ _ c. Freed p i index b c)
          (and_then {S = Book K I}
            (set_index w (order_at p b).key none b)
            (λ _. on_orders (deallocate p)))
  unfolding set_index deallocate
  free_order w p i index b e h k = rw (e, set_index) (outcome _ (ground arith))

  -- What removing the order `p` comes to; `index` is the map of the orders without it.
  pub record Gone (p : ℕ) (index : I) (b : Book K I) (v : View) (c : Book K I) : Type 0 where
    pub view : View
    pub represents : Represents c view
    pub orders_are : (s : Side) → is_traded s ≡ true → orders s view ≡ erase p (orders s v)
    pub same : (i : ℕ) → SameOrder i b c
    pub size : c.order_pool.size ≡ b.order_pool.size
    pub used :
        (i : ℕ)
        → (c.order_pool.store i).is_free ≡ (if p == i then true else (b.order_pool.store i).is_free)
    pub index_is : c.order_index ≡ index

  -- Once the rings are without the order.
  pub gone :
      (p : ℕ) (index : I) (b c d : Book K I) (v view : View)
      → Represents c view
      → IsNowhere p view
      → ((s : Side) → is_traded s ≡ true → orders s view ≡ erase p (orders s v))
      → ((i : ℕ) → SameOrder i b c)
      → c.order_pool.size ≡ b.order_pool.size
      → ((i : ℕ) → (c.order_pool.store i).is_free ≡ (b.order_pool.store i).is_free)
      → ((i : ℕ) → Freed p i index c d)
      → Gone p index b v d
  gone p index b c d v view r out eq same size used f = record {
    view = view;
    represents = Represents-shape view c d shape r;
    orders_are = eq;
    same = λ i. record {
      key = ap (λ o. o.key) (f i).object ∙ (same i).key;
      side = ap (λ o. o.side) (f i).object ∙ (same i).side;
      price = ap (λ o. o.price) (f i).object ∙ (same i).price;
      qty = ap (λ o. o.qty) (f i).object ∙ (same i).qty;
      priority = ap (λ o. o.priority) (f i).object ∙ (same i).priority;
    };
    size = (f 0).size ∙ size;
    used = λ i. (f i).used ∙ ap (λ x. if p == i then true else x) (used i);
    index_is = (f 0).index_is;
  }
    where
      shape : SameShape view c d
      shape = record {
        levels = (f 0).levels;
        bids = (f 0).bids;
        asks = (f 0).asks;
        table = (f 0).table;
        size = (f 0).size;
        next = λ i. ap (λ o. o.next_order) (f i).object;
        prev = λ i. ap (λ o. o.prev_order) (f i).object;
        side = λ i. ap (λ o. o.side) (f i).object;
        price = λ i. ap (λ o. o.price) (f i).object;
        used = λ i l s t m k. (f i).used ∙ ground (arith, out s l t m);
      }
