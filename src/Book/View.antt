-- ===== src/Book/View.antt =====
-- What the pointers of a book stand for: on each side a list of levels, best price first, and at
-- each level a list of orders, first in first out.
pub mod Requeue
pub mod Relevel
pub mod Flatten
pub mod Shape
pub mod Removal
pub mod RemoveOrder
use zquant_system.Prelude.{
  ℕ, ◌≡◌, ◌<◌, refl, sym, ◌∙◌, ap, subst, fun_ext, ◌⊎◌, inl, inr, Bool, true, false, not, Option,
  none, some, List, [], ◌∷◌, ◌==◌, arith, Bool-cases, if◌then◌else◌, concat_map, update,
}
use zquant_system.Common.Types.{Side, is_buy}
use zquant_system.Book.{Book, order_at, level_at, get_orders_at_price, price_to_index}
use zquant_system.Book.Ring.{has, head?}
use zquant_system.Book.Queue.{IsQueue}
use zquant_system.Book.Ladder.Sorted.{IsLadder, is_traded}

pub record View : Type 0 where
  pub bids : List ℕ
  pub asks : List ℕ
  pub queue : ℕ → List ℕ

-- The levels of a side.
abbrev pub ladder : Side → View → List ℕ
ladder side v = if is_buy side then v.bids else v.asks

abbrev pub with_ladder : Side → List ℕ → View → View
with_ladder side ls v = if is_buy side then record v { bids = ls } else record v { asks = ls }

abbrev pub with_queue : ℕ → List ℕ → View → View
with_queue l ps v = record v { queue = update v.queue l ps }

-- The orders of a side in the order in which they trade: by price, then by time.
abbrev pub orders : Side → View → List ℕ
orders side v = concat_map v.queue (ladder side v)

-- No level has the order `p`.
abbrev pub IsNowhere : ℕ → View → Type 0
IsNowhere p v =
    (side : Side) (k : ℕ)
    → is_traded side ≡ true
    → has k (ladder side v) ≡ true
    → has p (v.queue k) ≡ false

pub ladder_self : (side : Side) (ls : List ℕ) (v : View) → ladder side (with_ladder side ls v) ≡ ls
ladder_self side ls v = elim (Bool-cases (is_buy side)) [ inl e ↦ rw e refl | inr e ↦ rw e refl ]

pub ladder_other :
    (side other : Side) (ls : List ℕ) (v : View)
    → is_buy other ≡ not (is_buy side)
    → ladder other (with_ladder side ls v) ≡ ladder other v
ladder_other side other ls v e = elim (Bool-cases (is_buy side)) [
  | inl f ↦ rw (e, f) refl
  | inr f ↦ rw (e, f) refl
]

pub queue-with_ladder :
    (side : Side) (ls : List ℕ) (v : View) → (with_ladder side ls v).queue ≡ v.queue
queue-with_ladder side ls v = elim (Bool-cases (is_buy side)) [
  | inl e ↦ rw e refl
  | inr e ↦ rw e refl
]

module _ {K I : Type 0} (b : Book K I) where
  pub record IsOrderOf (l p : ℕ) : Type 0 where
    pub used : (b.order_pool.store p).is_free ≡ false
    pub in_pool : p < b.order_pool.size
    pub side : (order_at p b).side ≡ (level_at l b).side
    pub price : (order_at p b).price ≡ (level_at l b).price

  pub record IsLevel (side_of : Side) (l : ℕ) (queue : List ℕ) : Type 0 where
    pub used : (b.orders_at_price_pool.store l).is_free ≡ false
    pub in_pool : l < b.orders_at_price_pool.size
    pub side : (level_at l b).side ≡ side_of
    pub slot : get_orders_at_price (level_at l b).price b ≡ some l
    pub orders : IsQueue b l queue
    pub first : (p : ℕ) × (head? queue ≡ some p)
    pub members : (p : ℕ) → has p queue ≡ true → IsOrderOf l p

  pub record Represents (v : View) : Type 0 where
    pub ladders : (side : Side) → is_traded side ≡ true → IsLadder side b (ladder side v)
    pub levels :
        (side : Side)
        → is_traded side ≡ true
        → (l : ℕ) → has l (ladder side v) ≡ true
        → IsLevel side l (v.queue l)
    -- The table of prices holds these levels and no other.
    pub table :
        (i l : ℕ)
        → b.price_orders_at_price i ≡ some l
        → (price_to_index (level_at l b).price ≡ i)
          × (side : Side) × (is_traded side ≡ true)
          × (has l (ladder side v) ≡ true)

  -- A level that stands in the table for its price.
  pub slot-member :
      (v : View) (r : Represents v) (i l : ℕ)
      → b.price_orders_at_price i ≡ some l
      → (side : Side) × (is_traded side ≡ true)
        × (has l (ladder side v) ≡ true)
        × IsLevel side l (v.queue l)
  slot-member v r i l e = let (f, side, t, h) = r.table i l e in (side, t, h, r.levels side t l h)

pub same_or_other :
    (s t : Side) → is_traded s ≡ true → is_traded t ≡ true → (s ≡ t) ⊎ (is_buy t ≡ not (is_buy s))
same_or_other s t h k = ground arith
