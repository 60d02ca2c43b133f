-- ===== src/Common/LfQueue.antt =====
-- common/lf_queue.h: the ring queue between two threads. `capacity_` is a power of two and `mask_`
-- one less, so that `x & mask_` is `x % capacity`. The slots are a function of the index.
pub mod Fifo
use Prim.Native.Nat.{bit_or}
use zquant_system.Prelude.{
  ℕ, ◌+◌, ◌-◌, ◌/◌, ◌%◌, ◌^◌, Bool, not, Option, none, some, ◌==◌, ltb, update, if◌then◌else◌,
}

-- The three indices are `std::atomic<size_t>`.
pub record LfQueue (T : Type 0) : Type 0 where
  pub store : ℕ → T
  pub capacity : ℕ
  pub next_write_index : ℕ
  pub next_read_index : ℕ
  pub num_elements : ℕ

-- `v |= v >> k`.
abbrev or_shifted : ℕ → ℕ → ℕ
or_shifted v k = bit_or v (v / 2 ^ k)

unfoldable pub round_up_to_power_of_2 : ℕ → ℕ
round_up_to_power_of_2 v =
    if v == 0
    then 1
    else let v1 = or_shifted (v - 1) 1 in
      let v2 = or_shifted v1 2 in
      let v4 = or_shifted v2 4 in
      let v8 = or_shifted v4 8 in let v16 = or_shifted v8 16 in (or_shifted v16 32 + 1) % 2 ^ 64

module _ {T : Type 0} where
  unfoldable pub make_queue : ℕ → T → LfQueue T
  unfolding round_up_to_power_of_2
  make_queue num_elems default = record {
    store = λ i. default;
    capacity = round_up_to_power_of_2 num_elems;
    next_write_index = 0;
    next_read_index = 0;
    num_elements = 0;
  }

  abbrev pub mask : LfQueue T → ℕ
  mask q = q.capacity - 1

  abbrev pub masked : LfQueue T → ℕ → ℕ
  masked q i = i % q.capacity

  -- `(current_write + 1) & mask_ == current_read & mask_`: `==` binds tighter than `&`, so that
  -- the first operand is masked by the truth value of `mask_ == current_read`, then by `mask_`.
  unfoldable pub is_full : LfQueue T → Bool
  is_full q =
      let first =
        if mask q == q.next_read_index then (q.next_write_index + 1) % 2 ^ 64 % 2 else 0 in
      not (masked q first == 0)

  -- The slot to write to; null where the queue is taken to be full.
  unfoldable pub try_get_next_to_write_to : LfQueue T → Option ℕ
  try_get_next_to_write_to q = if is_full q then none else some (masked q q.next_write_index)

  unfoldable pub update_write_index : LfQueue T → LfQueue T
  update_write_index q = record q {
    next_write_index = (q.next_write_index + 1) % 2 ^ 64;
    num_elements = (q.num_elements + 1) % 2 ^ 64;
  }

  -- `*getNextToWriteTo() = a; updateWriteIndex();`. `none` while the writer has to spin.
  unfoldable pub push : T → LfQueue T → Option (LfQueue T)
  push a q = elim (try_get_next_to_write_to q) [
    | none ↦ none
    | some i ↦ some (update_write_index (record q { store = update q.store i a }))
  ]

  unfoldable pub get_next_to_read : LfQueue T → Option T
  get_next_to_read q =
      if ltb 0 q.num_elements then some (q.store (masked q q.next_read_index)) else none

  unfoldable pub update_read_index : LfQueue T → LfQueue T
  update_read_index q = record q {
    next_read_index = (q.next_read_index + 1) % 2 ^ 64;
    num_elements = (q.num_elements + 2 ^ 64 - 1) % 2 ^ 64;
  }
