-- ===== src/Common/Examples.antt =====
-- The theorems about common/ at concrete values.
use zquant_system.Prelude.{ℕ, ◌+◌, ◌≡◌, refl, ◌⊎◌, none, some, [], ◌∷◌, ◌++◌, arith, ◌==◌}
use zquant_system.Common.Types.{
  AlgoType, string_to_algo_type, algo_type_to_string, string_to_algo_type-algo_type_to_string,
}
use zquant_system.Common.MemPool.{MemPool}
use zquant_system.Common.MemPool.Usage.{AllocateOutcome, allocate_lem}
use zquant_system.Common.LfQueue.{
  LfQueue, round_up_to_power_of_2, push, get_next_to_read, update_read_index, is_full,
  try_get_next_to_write_to,
}
use zquant_system.Common.LfQueue.Fifo.{
  IsQueue, contents, contents-push, contents-read, push_overwrites, pushed,
}

-- Two blocks, the first of them in use.
abbrev half_used : MemPool ℕ
half_used = record {
  store = λ i. record { object = 9; is_free = 0 == i };
  size = 2;
  next_free_index = 0;
}

allocate_lem_example : AllocateOutcome half_used 5
allocate_lem_example =
    allocate_lem half_used 5 (record { in_range = omega arith; next_is_free = refl })

string_to_algo_type-algo_type_to_string_example :
    string_to_algo_type (algo_type_to_string AlgoType.maker) ≡ AlgoType.maker
string_to_algo_type-algo_type_to_string_example =
    string_to_algo_type-algo_type_to_string AlgoType.maker

rounded : round_up_to_power_of_2 1000 ≡ 1024
unfolding round_up_to_power_of_2
rounded = refl

-- A queue of four slots with two elements, read index 1.
abbrev two_unread : LfQueue ℕ
two_unread = record {
  store = λ i. i + 10;
  capacity = 4;
  next_write_index = 3;
  next_read_index = 1;
  num_elements = 2;
}

two_unread-IsQueue : IsQueue two_unread
two_unread-IsQueue = omega arith

contents-push_example : contents (pushed 7 two_unread) ≡ contents two_unread ++ 7 ∷ []
unfolding push try_get_next_to_write_to is_full pushed
contents-push_example =
    contents-push 7 two_unread (pushed 7 two_unread) two_unread-IsQueue (omega arith) refl

contents-read_example :
    ((contents two_unread ≡ []) × (get_next_to_read two_unread ≡ none))
    ⊎ ((a : ℕ) × (get_next_to_read two_unread ≡ some a)
        × (contents two_unread ≡ a ∷ contents (update_read_index two_unread))
        × IsQueue (update_read_index two_unread))
contents-read_example = contents-read two_unread two_unread-IsQueue

-- The same queue with all four slots unread.
abbrev all_unread : LfQueue ℕ
all_unread = record {
  store = λ i. i + 10;
  capacity = 4;
  next_write_index = 5;
  next_read_index = 1;
  num_elements = 4;
}

push_overwrites_example :
    (t : LfQueue ℕ) × (push 7 all_unread ≡ some t) × (get_next_to_read t ≡ some 7)
push_overwrites_example =
    push_overwrites 7 all_unread (omega arith) refl (λ e. absurd (omega arith))
