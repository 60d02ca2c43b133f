-- ===== src/Common/MemPool.antt =====
-- common/mem_pool.h: a pool of preallocated blocks. A pointer to an object is the index of its
-- block. `std::vector` is a function of the index with its size.
pub mod Scan
pub mod Usage
use zquant_system.Prelude.{
  ℕ, zero, suc, ◌+◌, Bool, true, false, not, ◌==◌, ltb, update, if◌then◌else◌,
}
use zquant_system.Common.Fault.{
  Result, ok, err, Cmd, pure, fail, ◌>>=◌, ◌>>◌, assert, get, modify, assertion_failed, out_of_fuel,
}

pub record ObjectBlock (T : Type 0) : Type 0 where
  pub object : T
  pub is_free : Bool

pub record MemPool (T : Type 0) : Type 0 where
  pub store : ℕ → ObjectBlock T
  pub size : ℕ
  pub next_free_index : ℕ

-- `++next_free_index_`, back to 0 behind the last block.
unfoldable pub next_index : ℕ → ℕ → ℕ
next_index size i = if (i + 1) == size then 0 else i + 1

module _ {T : Type 0} where
  -- The loop of updateNextFreeIndex(): the index of the next free block, round from `initial`.
  unfoldable pub find_free : (fuel : ℕ) (store : ℕ → ObjectBlock T) (size initial i : ℕ) → Result ℕ
  unfolding next_index
  find_free zero store size initial i = err out_of_fuel
  find_free (suc fuel) store size initial i =
      let rest = find_free fuel store size initial (next_index size i) in
      if (store i).is_free
      then ok i
      else if initial == next_index size i
      then err assertion_failed
      else rest

  abbrev pub move_to : Result ℕ → Cmd (MemPool T) (Unit {0})
  move_to (ok i) p = ok (tt, record p { next_free_index = i })
  move_to (err e) p = err e

  -- The scan looks at each block at most once.
  unfoldable pub update_next_free_index : Cmd (MemPool T) (Unit {0})
  update_next_free_index p =
      move_to (find_free (suc p.size) p.store p.size p.next_free_index p.next_free_index) p

  -- The new object is in the block that was next, and the scan moves on from there.
  unfoldable pub allocate : T → Cmd (MemPool T) ℕ
  unfolding update_next_free_index
  allocate object = do
    p ← get
    assert (p.store p.next_free_index).is_free
    let block : ObjectBlock T = record { object = object; is_free = false }
    modify (λ q. record q { store = update q.store p.next_free_index block })
    update_next_free_index
    pure p.next_free_index

  -- The block is marked free; its object stays as it is.
  unfoldable pub deallocate : ℕ → Cmd (MemPool T) (Unit {0})
  deallocate elem = do
    p ← get
    assert (ltb elem p.size)
    assert (not (p.store elem).is_free)
    modify λ q. record q {
      store = update q.store elem (record { object = (p.store elem).object; is_free = true });
    }
