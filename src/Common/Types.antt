-- ===== src/Common/Types.antt =====
-- common/types.h: bounds, identifiers with their invalid values, sides and algorithm types.
use Prim.Native.String.{String}
use text.Mathlib.Text.{◌==◌ as str_eq}
use zquant_system.Prelude.{
  ℕ, zero, suc, ◌+◌, ◌-◌, ◌*◌, ◌%◌, ◌^◌, ◌≡◌, refl, Bool, true, false, if◌then◌else◌,
}
use zquant_system.Prelude.Int.{ℤ, pos, negsuc}

abbrev pub me_max_tickers : ℕ
me_max_tickers = 8

abbrev pub me_max_client_updates : ℕ
me_max_client_updates = 256 * 1024

abbrev pub me_max_market_updates : ℕ
me_max_market_updates = 256 * 1024

abbrev pub me_max_num_clients : ℕ
me_max_num_clients = 256

abbrev pub me_max_order_ids : ℕ
me_max_order_ids = 1024 * 1024

abbrev pub me_max_price_levels : ℕ
me_max_price_levels = 256

abbrev pub OrderId : Type 0
OrderId = ℕ

abbrev pub order_id_invalid : OrderId
order_id_invalid = 2 ^ 64 - 1

abbrev pub TickerId : Type 0
TickerId = ℕ

abbrev pub ticker_id_invalid : TickerId
ticker_id_invalid = 2 ^ 32 - 1

abbrev pub ClientId : Type 0
ClientId = ℕ

abbrev pub client_id_invalid : ClientId
client_id_invalid = 2 ^ 32 - 1

-- `int64_t`.
abbrev pub Price : Type 0
Price = ℤ

abbrev pub price_invalid : Price
price_invalid = pos (2 ^ 63 - 1)

abbrev pub Qty : Type 0
Qty = ℕ

abbrev pub qty_invalid : Qty
qty_invalid = 2 ^ 32 - 1

abbrev pub Priority : Type 0
Priority = ℕ

abbrev pub priority_invalid : Priority
priority_invalid = 2 ^ 64 - 1

pub data Side : Type 0 where
  invalid buy sell max : Side

unfoldable pub side_to_string : Side → String
side_to_string Side.buy = "BUY"
side_to_string Side.sell = "SELL"
side_to_string Side.invalid = "INVALID"
side_to_string Side.max = "MAX"

-- `static_cast<int>`.
unfoldable pub side_to_value : Side → ℤ
side_to_value Side.invalid = pos 0
side_to_value Side.buy = pos 1
side_to_value Side.sell = negsuc 0
side_to_value Side.max = pos 2

-- `static_cast<size_t>(side) + 1`: the cast takes -1 to 2 ^ 64 - 1, and the sum wraps.
unfoldable pub side_to_index : Side → ℕ
side_to_index Side.invalid = (0 + 1) % 2 ^ 64
side_to_index Side.buy = (1 + 1) % 2 ^ 64
side_to_index Side.sell = (2 ^ 64 - 1 + 1) % 2 ^ 64
side_to_index Side.max = (2 + 1) % 2 ^ 64

-- `side == Side::BUY`.
abbrev pub is_buy : Side → Bool
is_buy Side.buy = true
is_buy _ = false

abbrev pub is_sell : Side → Bool
is_sell Side.sell = true
is_sell _ = false

-- `side == other`.
abbrev pub same_side : Side → Side → Bool
same_side Side.invalid Side.invalid = true
same_side Side.buy Side.buy = true
same_side Side.sell Side.sell = true
same_side Side.max Side.max = true
same_side _ _ = false

pub data AlgoType : Type 0 where
  invalid random maker taker max : AlgoType

unfoldable pub algo_type_to_string : AlgoType → String
algo_type_to_string AlgoType.random = "RANDOM"
algo_type_to_string AlgoType.maker = "MAKER"
algo_type_to_string AlgoType.taker = "TAKER"
algo_type_to_string AlgoType.invalid = "INVALID"
algo_type_to_string AlgoType.max = "MAX"

-- `static_cast<AlgoType>(i)` of the loop's values, AlgoType::INVALID (0) to AlgoType::MAX (4).
algo_type_of : ℕ → AlgoType
algo_type_of zero = AlgoType.invalid
algo_type_of (suc zero) = AlgoType.random
algo_type_of (suc (suc zero)) = AlgoType.maker
algo_type_of (suc (suc (suc zero))) = AlgoType.taker
algo_type_of (suc (suc (suc (suc i)))) = AlgoType.max

-- The loop over `i`, with the number of values left.
string_to_algo_type_from : ℕ → ℕ → String → AlgoType
unfolding algo_type_of algo_type_to_string
string_to_algo_type_from zero i str = AlgoType.invalid
string_to_algo_type_from (suc left) i str =
    let rest = string_to_algo_type_from left (i + 1) str in
    let algo_type = algo_type_of i in
    if str_eq (algo_type_to_string algo_type) str then algo_type else rest

unfoldable pub string_to_algo_type : String → AlgoType
unfolding string_to_algo_type_from
string_to_algo_type str = string_to_algo_type_from 5 0 str

-- Reading a printed algorithm type gives it back.
pub string_to_algo_type-algo_type_to_string :
    (t : AlgoType) → string_to_algo_type (algo_type_to_string t) ≡ t
unfolding string_to_algo_type
string_to_algo_type-algo_type_to_string AlgoType.invalid = refl
string_to_algo_type-algo_type_to_string AlgoType.random = refl
string_to_algo_type-algo_type_to_string AlgoType.maker = refl
string_to_algo_type-algo_type_to_string AlgoType.taker = refl
string_to_algo_type-algo_type_to_string AlgoType.max = refl
