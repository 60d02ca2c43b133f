-- ===== src/Book/View/Relevel.antt =====
-- A change of the levels of one side of a book, and the removal of a level by
-- remove_orders_at_price() of Book/Levels.
use zquant_system.Prelude.{
  ℕ, ◌≡◌, ◌≢◌, ◌<◌, sym, ◌∙◌, ap, subst, fun_ext, inl, inr, Bool, true, false, not, Option, none,
  some, List, ◌==◌, arith, Bool-cases, update, if◌then◌else◌,
}
use zquant_system.Common.Types.{Side, Price, is_buy}
use zquant_system.Common.Fault.{Outcome, NoFault, weaken}
use zquant_system.Book.{Book, level_at, get_orders_at_price, price_to_index}
use zquant_system.Book.Levels.{remove_orders_at_price}
use zquant_system.Book.Ring.{has, erase, Ring-frame, has-erase}
use zquant_system.Book.Queue.{IsQueue, prev_order_of}
use zquant_system.Book.Ladder.{next_entry_of, prev_entry_of}
use zquant_system.Book.Ladder.Sorted.{IsLadder, IsSorted, is_traded}
use zquant_system.Book.Ladder.Link.{other_best}
use zquant_system.Book.Ladder.Drop.{DroppedAt}
use zquant_system.Book.Ladder.Remove.{LevelRemoved, remove_orders_at_price-Shortened}
use zquant_system.Book.View.{
  View, Represents, IsLevel, ladder, with_ladder, ladder_self, ladder_other, queue-with_ladder,
  same_or_other,
}

-- Another entry of the table stays.
slot_kept :
    (table : ℕ → Option ℕ) (x y l k : ℕ)
    → table x ≡ some l
    → table y ≡ some k
    → k ≢ l
    → update table x none y ≡ some k
slot_kept table x y l k e f ne = elim (Bool-cases (x == y)) [
  | inl same ↦ absurd (ne (ground arith))
  | inr other ↦ rw other f
]

-- An entry that was there before.
entry_before :
    (table : ℕ → Option ℕ) (x y k : ℕ)
    → update table x none y ≡ some k
    → (x ≢ y) × (table y ≡ some k)
entry_before table x y k e = ground arith

module _ {K I : Type 0} where
  -- The ladder of the other side, whose levels and best keep their pointers and prices.
  pub IsLadder-other :
      (side other : Side) (ls : List ℕ) (b c : Book K I)
      → is_buy other ≡ not (is_buy side)
      → other_best side c ≡ other_best side b
      → ((i : ℕ) → (level_at i c).price ≡ (level_at i b).price)
      → ((y : ℕ)
          → has y ls ≡ true
          → (next_entry_of c y ≡ next_entry_of b y) × (prev_entry_of c y ≡ prev_entry_of b y))
      → IsLadder other b ls
      → IsLadder other c ls
  IsLadder-other side other ls b c e f g k h = record {
    best = ground (arith, h.best);
    ring = Ring-frame {prev = prev_entry_of b} ls k h.ring;
    distinct = h.distinct;
    sorted = subst (λ f. IsSorted other f ls) (sym (fun_ext g)) h.sorted;
  }

  -- The orders of a level where no order and no first order has changed.
  pub IsQueue-same :
      (l : ℕ) (queue : List ℕ) (b c : Book K I)
      → c.order_pool ≡ b.order_pool
      → (level_at l c).first_order ≡ (level_at l b).first_order
      → IsQueue b l queue
      → IsQueue c l queue
  IsQueue-same l queue b c e f h = record {
    first = f ∙ h.first;
    ring =
        Ring-frame {prev = prev_order_of b} queue
          (λ y _.
            (ap (λ s. (s.store y).object.next_order) e, ap (λ s. (s.store y).object.prev_order) e))
          h.ring;
    distinct = h.distinct;
  }

  IsLevel-dropped :
      (side : Side) (l k : ℕ) (queue : List ℕ) (b c : Book K I)
      → k ≢ l
      → ((i : ℕ) → DroppedAt l (level_at l b).price c.bids_by_price c.asks_by_price i b c)
      → get_orders_at_price (level_at l b).price b ≡ some l
      → IsLevel b side k queue
      → IsLevel c side k queue
  IsLevel-dropped side l k queue b c ne d s h = record {
    used = (d k).used ∙ ground (arith, h.used);
    in_pool = subst (λ n. k < n) (sym (d k).size) h.in_pool;
    side = (d k).side ∙ h.side;
    slot =
        ap get_slot (d k).price
        ∙ ap (λ t. t (price_to_index (level_at k b).price)) (d k).table
        ∙ slot_kept b.price_orders_at_price _ _ l k s h.slot ne;
    orders = IsQueue-same k queue b c (d k).orders (d k).first_order h.orders;
    first = h.first;
    members = λ p m.
        let o = h.members p m in
        record {
          used = ap (λ s. (s.store p).is_free) (d k).orders ∙ o.used;
          in_pool = subst (λ s. p < s.size) (sym (d k).orders) o.in_pool;
          side = ap (λ s. (s.store p).object.side) (d k).orders ∙ o.side ∙ sym (d k).side;
          price = ap (λ s. (s.store p).object.price) (d k).orders ∙ o.price ∙ sym (d k).price;
        };
  }
    where
      get_slot : Price → Option ℕ
      get_slot price = get_orders_at_price price c

  -- The ladder of one side changes.
  pub relevel :
      (side : Side) (ls : List ℕ) (c : Book K I) (v : View)
      → is_traded side ≡ true
      → IsLadder side c ls
      → ((l : ℕ) → has l ls ≡ true → IsLevel c side l (v.queue l))
      → ((other : Side)
          → is_traded other ≡ true
          → is_buy other ≡ not (is_buy side)
          → IsLadder other c (ladder other v)
            × ((l : ℕ) → has l (ladder other v) ≡ true → IsLevel c other l (v.queue l)))
      → ((i l : ℕ)
          → c.price_orders_at_price i ≡ some l
          → (price_to_index (level_at l c).price ≡ i)
            × (s : Side) × (is_traded s ≡ true)
            × (has l (ladder s (with_ladder side ls v)) ≡ true))
      → Represents c (with_ladder side ls v)
  relevel side ls c v t h levels rest table = record {
    ladders = λ s k. elim (same_or_other side s t k) [
      | inl e ↦
          subst (λ s. IsLadder s c (ladder s (with_ladder side ls v))) e
            (rw (ladder_self side ls v) h)
      | inr e ↦ rw (ladder_other side s ls v e) (rest s k e).0
    ];
    levels = λ s k l m. elim (same_or_other side s t k) [
      | inl e ↦
          subst
            (λ s.
              has l (ladder s (with_ladder side ls v)) ≡ true
              → IsLevel c s l ((with_ladder side ls v).queue l))
            e
            (λ m.
              with_queues l side (levels l (subst (λ x. has l x ≡ true) (ladder_self side ls v) m)))
            m
      | inr e ↦
          with_queues l s
            ((rest s k e).1 l (subst (λ x. has l x ≡ true) (ladder_other side s ls v e) m))
    ];
    table = table;
  }
    where
      with_queues :
          (l : ℕ) (s : Side)
          → IsLevel c s l (v.queue l)
          → IsLevel c s l ((with_ladder side ls v).queue l)
      with_queues l s = subst (λ q. IsLevel c s l (q l)) (sym (queue-with_ladder side ls v))

  -- The level of one side is at no other.
  pub off_side :
      (b : Book K I) (v : View) (r : Represents b v) (s t : Side) (l : ℕ)
      → is_traded s ≡ true
      → is_traded t ≡ true
      → is_buy t ≡ not (is_buy s)
      → has l (ladder t v) ≡ true
      → has l (ladder s v) ≡ false
  off_side b v r s t l hs ht e m = elim (Bool-cases (has l (ladder s v))) [
    | inr f ↦ f
    | inl f ↦ absurd (
        differ (is_buy s) (ap is_buy (sym (r.levels s hs l f).side ∙ (r.levels t ht l m).side) ∙ e))
  ]
    where
      differ : (x : Bool) → x ≢ not x
      differ true e = ground arith
      differ false e = ground arith

  -- On a book that stands for lists of orders, the removal of the level `l` of a side meets no fault:
  -- the level leaves the side's list, its block is free and its price has no level.
  pub remove_orders_at_price-Represents :
      (l : ℕ) (side : Side) (b : Book K I) (v : View)
      → Represents b v
      → is_traded side ≡ true
      → has l (ladder side v) ≡ true
      → Outcome NoFault
          (λ _ c.
            Represents c (with_ladder side (erase l (ladder side v)) v)
            × LevelRemoved side l (level_at l b).price (ladder side v) b c)
          (remove_orders_at_price side (level_at l b).price b)
  remove_orders_at_price-Represents l side b v r t h =
      weaken
        (remove_orders_at_price-Shortened side l (level_at l b).price (ladder side v) b
          (r.ladders side t) h level.slot level.in_pool level.used)
        λ _ c s. (
          relevel side (erase l (ladder side v)) c v t s.0
              (λ k m.
                IsLevel-dropped side l k (v.queue k) b c (ground (arith, gone k)) s.1.dropped
                  level.slot (r.levels side t k (ground (arith, gone k))))
              (λ other u e. (
                IsLadder-other side other (ladder other v) b c e s.1.other_best_is
                    (λ i. (s.1.dropped i).price)
                    (λ y m. s.1.others y (off_side b v r side other y t u e m)) (r.ladders other u),
                λ k m.
                    IsLevel-dropped other l k (v.queue k) b c
                      (λ same. ground (arith, off_side b v r side other k t u e m)) s.1.dropped
                      level.slot (r.levels other u k m),
              ))
              (λ i k e.
                let (ne, old) =
                  entry_before b.price_orders_at_price _ i k
                    (sym (ap (λ t. t i) (s.1.dropped i).table) ∙ e) in
                let (f, s', t', h') = r.table i k old in
                (
                  ap price_to_index (s.1.dropped k).price ∙ f,
                  s',
                  t',
                  in_ladder s' k t' h'
                      (λ same. ne (ap (λ x. price_to_index (level_at x b).price) same ∙ f)),
                )),
          s.1,
        )
    where
      level : IsLevel b side l (v.queue l)
      level = r.levels side t l h

      gone :
          (k : ℕ)
          → has k (erase l (ladder side v)) ≡ (if l == k then false else has k (ladder side v))
      gone k = has-erase k l (ladder side v) (r.ladders side t).distinct

      in_ladder :
          (s : Side) (k : ℕ)
          → is_traded s ≡ true
          → has k (ladder s v) ≡ true
          → l ≢ k
          → has k (ladder s (with_ladder side (erase l (ladder side v)) v)) ≡ true
      in_ladder s k hs m ne = elim (same_or_other side s t hs) [
        | inl e ↦
            subst
              (λ s.
                has k (ladder s v) ≡ true
                → has k (ladder s (with_ladder side (erase l (ladder side v)) v)) ≡ true)
              e
              (λ m.
                ap (has k) (ladder_self side (erase l (ladder side v)) v) ∙ ground (arith, gone k))
              m
        | inr e ↦ ap (has k) (ladder_other side s (erase l (ladder side v)) v e) ∙ m
      ]
