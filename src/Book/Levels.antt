-- ===== src/Book/Levels.antt =====
-- The ring of price levels: addOrdersAtPrice(), removeOrdersAtPrice() and getNextPriority().
use zquant_system.Prelude.{
  ℕ, zero, suc, ◌+◌, ◌%◌, ◌^◌, Bool, true, false, none, some, ◌==◌, if◌then◌else◌,
}
use zquant_system.Common.Types.{Side, Price}
use zquant_system.Common.Fault.{
  Result, ok, err, Cmd, pure, reading, ◌>>=◌, ◌>>◌, deref, get, null_pointer, out_of_fuel,
}
use zquant_system.Common.MemPool.{deallocate}
use zquant_system.Book.{
  Book, is_at, goes_after, goes_before, order_at, level_at, set_prev_entry, set_next_entry, best_of,
  set_best, on_levels, get_orders_at_price, set_orders_at_price,
}

module _ {K I : Type 0} where
  -- `while (add_after && target != best) { … }`: where the walk stops, and `add_after` there.
  unfoldable pub walk :
      (fuel : ℕ)
      → Side
      → Price
      → (best target : ℕ) (add_after : Bool) → Book K I
      → Result (ℕ × Bool)
  walk zero side price best target add_after b = err out_of_fuel
  walk (suc fuel) side price best target false b = ok (target, false)
  walk (suc fuel) side price best target true b =
      let stay = walk fuel side price best target false b in
      let on : Result (ℕ × Bool) = elim (level_at target b).next_entry [
        | none ↦ err null_pointer
        | some next ↦ walk fuel side price best next true b
      ] in
      if target == best
      then ok (target, true)
      else if goes_after side price (level_at target b).price
      then on
      else stay

  -- The test of the best level, and of the one behind it, that stand before the loop.
  unfoldable pub find_target : Side → Price → (best : ℕ) → Book K I → Result (ℕ × Bool)
  find_target side price best b =
      let fuel = suc (suc b.orders_at_price_pool.size) in
      let behind : Result (ℕ × Bool) = elim (level_at best b).next_entry [
        | none ↦ err null_pointer
        | some target ↦
            walk fuel side price best target (goes_after side price (level_at target b).price) b
      ] in
      if goes_after side price (level_at best b).price
      then behind
      else walk fuel side price best best false b

  -- The branch `if (add_after)`.
  unfoldable pub link_after : (new best target : ℕ) → Cmd (Book K I) (Unit {0})
  link_after new best stop = do
    b ← get
    target ← (if stop == best then deref (level_at best b).prev_entry else pure stop)
    set_prev_entry new (some target)
    b ← get
    next ← deref (level_at target b).next_entry
    set_prev_entry next (some new)
    b ← get
    set_next_entry new (level_at target b).next_entry
    set_next_entry target (some new)

  -- The branch `else`: the four writes that put the new level before `target`.
  unfoldable pub splice_before : (new target : ℕ) → Cmd (Book K I) (Unit {0})
  splice_before new target = do
    b ← get
    set_prev_entry new (level_at target b).prev_entry
    set_next_entry new (some target)
    prev ← deref (level_at target b).prev_entry
    set_next_entry prev (some new)
    set_prev_entry target (some new)

  -- Its end: the new level becomes the best one if its price is better.
  unfoldable pub take_over : (new best target : ℕ) → Cmd (Book K I) (Unit {0})
  take_over new best target = do
    b ← get
    (if goes_before (level_at new b).side (level_at new b).price (level_at best b).price
        then (do
          set_next_entry target (
              if is_at (level_at target b).next_entry best
              then some new
              else (level_at target b).next_entry)
          set_best (level_at new b).side (some new))
        else pure tt)

  unfoldable pub link_before : (new best target : ℕ) → Cmd (Book K I) (Unit {0})
  link_before new best target = do splice_before new target; take_over new best target

  unfoldable pub link_at : (new best : ℕ) → ℕ × Bool → Cmd (Book K I) (Unit {0})
  link_at new best (target, true) = link_after new best target
  link_at new best (target, false) = link_before new best target

  unfoldable pub add_orders_at_price : (new : ℕ) → Cmd (Book K I) (Unit {0})
  add_orders_at_price new = do
    b ← get
    let side = (level_at new b).side
    let price = (level_at new b).price
    set_orders_at_price price (some new)
    (elim (best_of side b) [
      | none ↦ do
        set_best side (some new)
        set_next_entry new (some new)
        set_prev_entry new (some new)
      | some best ↦ do place ← reading (find_target side price best); link_at new best place
    ])

  -- The branch `else` of removeOrdersAtPrice(): the level has neighbours, which are linked.
  unfoldable pub unlink_level : Side → (level : ℕ) → Cmd (Book K I) (Unit {0})
  unlink_level side level = do
    b ← get
    prev ← deref (level_at level b).prev_entry
    set_next_entry prev (level_at level b).next_entry
    c ← get
    next ← deref (level_at level c).next_entry
    set_prev_entry next (level_at level c).prev_entry
    c ← get
    (if is_at (best_of side b) level then set_best side (level_at level c).next_entry else pure tt)
    set_prev_entry level none
    set_next_entry level none

  unfoldable pub remove_orders_at_price : Side → Price → Cmd (Book K I) (Unit {0})
  remove_orders_at_price side price = do
    b ← get
    level ← deref (get_orders_at_price price b)
    (if is_at (level_at level b).next_entry level
        then set_best side none
        else unlink_level side level)
    set_orders_at_price price none
    on_levels (deallocate level)

  -- Behind the last order of the level, or first at a price without one.
  unfoldable pub get_next_priority : Price → Cmd (Book K I) ℕ
  get_next_priority price = do
    b ← get
    (elim (get_orders_at_price price b) [
      | none ↦ pure 1
      | some level ↦ do
        first ← deref (level_at level b).first_order
        last ← deref (order_at first b).prev_order
        pure (((order_at last b).priority + 1) % 2 ^ 64)
    ])
