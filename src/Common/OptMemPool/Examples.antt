-- ===== src/Common/OptMemPool/Examples.antt =====
-- A pool of two blocks, with one of them in use and with both.
use zquant_system.Prelude.{ℕ, ◌≡◌, refl, true, false, update}
use zquant_system.Common.Fault.{ok}
use zquant_system.Common.MemPool.{
  ObjectBlock, MemPool, next_index, find_free, update_next_free_index, allocate, deallocate,
}
use zquant_system.Common.OptMemPool
use zquant_system.Common.OptMemPool.Release.{allocate-same, deallocate-same}

abbrev empty_pool : MemPool ℕ
empty_pool = record {
  store = λ i. record { object = 0; is_free = true };
  size = 2;
  next_free_index = 0;
}

abbrev one_used : MemPool ℕ
one_used = record {
  store = update empty_pool.store 0 (record { object = 7; is_free = false });
  size = 2;
  next_free_index = 1;
}

allocates : allocate 7 empty_pool ≡ ok (0, one_used)
unfolding allocate update_next_free_index find_free next_index
allocates = refl

allocate-same_example : OptMemPool.allocate false 7 empty_pool ≡ ok (0, one_used)
allocate-same_example = allocate-same false 7 empty_pool one_used 0 allocates

abbrev none_used : MemPool ℕ
none_used = record {
  store = update one_used.store 0 (record { object = 7; is_free = true });
  size = 2;
  next_free_index = 1;
}

deallocates : deallocate 0 one_used ≡ ok (tt, none_used)
unfolding deallocate
deallocates = refl

deallocate-same_example : OptMemPool.deallocate false 0 one_used ≡ ok (tt, none_used)
deallocate-same_example = deallocate-same false 0 one_used none_used deallocates

abbrev full_store : ℕ → ObjectBlock ℕ
full_store i = record { object = i; is_free = false }
