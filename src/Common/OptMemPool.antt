-- ===== src/Common/OptMemPool.antt =====
-- common/opt_mem_pool.h: the pool of common/mem_pool.h with its assertions under NDEBUG. `debug` says
-- that NDEBUG is not defined. The fields are those of MemPool.
pub mod Release
mod Examples
use zquant_system.Prelude.{
  ℕ, zero, suc, ◌+◌, Bool, true, false, not, ◌==◌, ltb, update, if◌then◌else◌,
}
use zquant_system.Common.Fault.{
  Result, ok, err, Cmd, pure, ◌>>=◌, ◌>>◌, assert, in_range, get, modify, assertion_failed,
  out_of_fuel,
}
use zquant_system.Common.MemPool.{ObjectBlock, MemPool, next_index, move_to}

module _ (debug : Bool) {T : Type 0} where
  abbrev pub debug_assert : Bool → Cmd (MemPool T) (Unit {0})
  debug_assert b = if debug then assert b else pure tt

  -- The loop of updateNextFreeIndex(), which without the assertion goes round again.
  unfoldable pub find_free : (fuel : ℕ) (store : ℕ → ObjectBlock T) (size initial i : ℕ) → Result ℕ
  unfolding next_index
  find_free zero store size initial i = err out_of_fuel
  find_free (suc fuel) store size initial i =
      let rest = find_free fuel store size initial (next_index size i) in
      if (store i).is_free
      then ok i
      else if initial == next_index size i
      then (if debug then err assertion_failed else rest)
      else rest

  unfoldable pub update_next_free_index : Cmd (MemPool T) (Unit {0})
  update_next_free_index p =
      move_to (find_free (suc p.size) p.store p.size p.next_free_index p.next_free_index) p

  unfoldable pub allocate : T → Cmd (MemPool T) ℕ
  unfolding update_next_free_index
  allocate object = do
    p ← get
    debug_assert (p.store p.next_free_index).is_free
    let block : ObjectBlock T = record { object = object; is_free = false }
    modify (λ q. record q { store = update q.store p.next_free_index block })
    update_next_free_index
    pure p.next_free_index

  -- Without the assertions the write at an index out of range is the fault.
  unfoldable pub deallocate : ℕ → Cmd (MemPool T) (Unit {0})
  deallocate elem = do
    p ← get
    debug_assert (ltb elem p.size)
    debug_assert (not (p.store elem).is_free)
    in_range (ltb elem p.size)
    modify λ q. record q {
      store = update q.store elem (record { object = (p.store elem).object; is_free = true });
    }
