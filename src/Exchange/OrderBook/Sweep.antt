-- ===== src/Exchange/OrderBook/Sweep.antt =====
-- exchange/matcher/me_order_book.cpp, checkForMatch(): a new order against the list of the other
-- side's orders, best price first and first in first out at a price.
pub mod Loop
pub mod Total
mod Examples
use zquant_system.Prelude.{
  ℕ, zero, suc, ◌+◌, ◌-◌, ◌%◌, ◌^◌, min, ◌≡◌, ◌≢◌, refl, sym, ◌∙◌, ap, subst, inl, inr, Bool, true,
  false, not, ◌&&◌, Option, some, none, List, [], ◌∷◌, ◌++◌, append-nil, arith, ltb, leb, ◌==◌,
  Bool-cases, if◌then◌else◌, concat_map,
}
use zquant_system.Prelude.Int.{ltb_ℤ}
use zquant_system.Common.Types.{TickerId, ClientId, OrderId, Price, Qty, Side, is_buy}
use zquant_system.Common.Fault.{
  Fault, Result, Outcome, NoFault, out_of_fuel, returns, stops, bind, weaken,
}
use zquant_system.Book.{Ptr, Book, order_at, level_at, best_of}
use zquant_system.Book.Ring.{has, head?, IsDistinct}
use zquant_system.Book.Ladder.Sorted.{is_traded}
use zquant_system.Book.View.{View, Represents, IsLevel, ladder, orders}
use zquant_system.Book.View.Shape.{SameOrder, SameOrder-trans}
use zquant_system.Messages.{MeClientResponse}
use zquant_system.Exchange.OrderBook.Frame.{append_trans}
use zquant_system.Exchange.OrderBook.{
  MeOrderKey, ClientOrderHashMap, MeOrderBook, match_order, match_loop, check_for_match,
}
use zquant_system.Exchange.OrderBook.MatchOrder.{Fill, fill_responses}
use zquant_system.Exchange.OrderBook.PriceTime.{
  Execution, fill_of, IsFiled, Stepped, match_order-Stepped,
}

-- What a sweep does: its executions, the quantity it leaves, and the orders that stay.
pub record Swept : Type 0 where
  pub executions : List Execution
  pub left : Qty
  pub stay : List ℕ

abbrev pub after : Execution → Swept → Swept
after e r = record r { executions = e ∷ r.executions }

-- The orders one by one, until the quantity is used up or a price stops it. An order that is not
-- used up stays.
unfoldable pub sweep :
    (stops_at : Price → Bool) → Book MeOrderKey ClientOrderHashMap → (leaves : Qty) → List ℕ → Swept
sweep stops_at b leaves [] = record { executions = []; left = leaves; stay = [] }
sweep stops_at b leaves (p ∷ ps) =
    let fill = min leaves (order_at p b).qty in
    let on = sweep stops_at b (leaves - fill) ps in
    if leaves == 0
    then record { executions = []; left = leaves; stay = p ∷ ps }
    else if stops_at (order_at p b).price
    then record { executions = []; left = leaves; stay = p ∷ ps }
    else if (order_at p b).qty - fill == 0
    then after (record { order = p; qty = fill; leaves = leaves - fill }) on
    else record {
      executions = record { order = p; qty = fill; leaves = leaves - fill } ∷ [];
      left = leaves - fill;
      stay = p ∷ ps;
    }

module _ (stops_at : Price → Bool) where
  -- The sweep reads only the orders it passes.
  pub sweep-same :
      (b c : Book MeOrderKey ClientOrderHashMap) (leaves : Qty) (ps : List ℕ)
      → ((i : ℕ) → has i ps ≡ true → SameOrder i b c)
      → sweep stops_at c leaves ps ≡ sweep stops_at b leaves ps
  unfolding sweep
  sweep-same b c leaves [] h = refl
  sweep-same b c leaves (p ∷ ps) h =
      rw
        (
          (h p here).price,
          (h p here).qty,
          sweep-same b c (leaves - min leaves (order_at p b).qty) ps (λ i m. h i (ground arith)),
        )
        refl
    where
      here : has p (p ∷ ps) ≡ true
      here = ground arith

head?-append : (xs ys : List ℕ) (q : ℕ) → head? xs ≡ some q → head? (xs ++ ys) ≡ some q
head?-append [] ys q e = absurd (ground arith)
head?-append (x ∷ xs) ys q e = e

-- A side with a level has its first order.
first_of :
    {K I : Type 0} (b : Book K I) (v : View) (side : Side)
    → Represents b v
    → is_traded side ≡ true
    → (l : ℕ) (ls : List ℕ) → ladder side v ≡ l ∷ ls
    → (p : ℕ) × ((level_at l b).first_order ≡ some p) × (head? (orders side v) ≡ some p)
first_of b v side r t l ls f =
    let level = r.levels side t l (ap (has l) f ∙ ground arith) in
    let (p, e) = level.first in
    (
      p,
      level.orders.first ∙ e,
      ap (λ ls. head? (concat_map v.queue ls)) f
          ∙ head?-append (v.queue l) (concat_map v.queue ls) p e,
    )

-- The first order of the best level.
pub best_first :
    {K I : Type 0} (b : Book K I) (v : View) (side : Side)
    → Represents b v
    → is_traded side ≡ true
    → (p : ℕ) (ps : List ℕ) → orders side v ≡ p ∷ ps
    → (l : ℕ) × (best_of side b ≡ some l) × ((level_at l b).first_order ≡ some p)
best_first b v side r t p ps e = go (ladder side v) refl
  where
    go :
        (ls : List ℕ)
        → ladder side v ≡ ls
        → (l : ℕ) × (best_of side b ≡ some l) × ((level_at l b).first_order ≡ some p)
    go [] f = absurd (ground (arith, sym e ∙ ap (concat_map v.queue) f))
    go (l ∷ ls) f = (
      l,
      (r.ladders side t).best ∙ ap head? f,
      (first_of b v side r t l ls f).1 ∙ sym (first_of b v side r t l ls f).2 ∙ ap head? e,
    )

pub no_first :
    {K I : Type 0} (b : Book K I) (v : View) (side : Side)
    → Represents b v
    → is_traded side ≡ true
    → orders side v ≡ []
    → best_of side b ≡ none
no_first b v side r t e = go (ladder side v) refl
  where
    go : (ls : List ℕ) → ladder side v ≡ ls → best_of side b ≡ none
    go [] f = (r.ladders side t).best ∙ ap head? f
    go (l ∷ ls) f = absurd (ground (arith, sym (first_of b v side r t l ls f).2 ∙ ap head? e))
