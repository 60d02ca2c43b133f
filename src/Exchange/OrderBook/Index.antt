-- ===== src/Exchange/OrderBook/Index.antt =====
-- The map from a client's order id to its order, `cid_oid_to_order_`: what add() and cancel() keep.
use zquant_system.Prelude.{ℕ, ◌<◌, ◌≡◌, false, some, arith}
use zquant_system.Common.Types.{me_max_num_clients, me_max_order_ids}
use zquant_system.Common.Fault.{
  Outcome, returns, stops, Result, ok, err, Holds, holds, AnyFault, any_fault, weaken, for_all,
}
use zquant_system.Common.MemPool.{MemPool, allocate}
use zquant_system.Common.MemPool.Usage.{Allocates, allocate-Allocates}
use zquant_system.Book.{Book, order_at, on_orders}
use zquant_system.Book.Orders.{remove_order, add_order}
use zquant_system.Book.Keeps.{Removed, Filed, remove_order-Removed, add_order-Filed}
use zquant_system.Exchange.OrderBook.{MeOrder, MeOrderKey, ClientOrderHashMap, index_write}

abbrev MeBook : Type 0
MeBook = Book MeOrderKey ClientOrderHashMap

-- An entry of the map leads to an order in use that bears the entry's ids.
pub record IsEntry (b : MeBook) (c o p : ℕ) : Type 0 where
  pub client_in_range : c < me_max_num_clients
  pub order_in_range : o < me_max_order_ids
  pub used : (b.order_pool.store p).is_free ≡ false
  pub client : (order_at p b).key.client_id ≡ c
  pub order : (order_at p b).key.client_order_id ≡ o

abbrev pub IsIndexed : MeBook → Type 0
IsIndexed b = (c o p : ℕ) → b.order_index c o ≡ some p → IsEntry b c o p

remove-IsEntry :
    (b d : MeBook) (p c o q : ℕ)
    → IsIndexed b
    → Removed index_write p q b d
    → d.order_index c o ≡ some q
    → IsEntry d c o q
unfolding index_write
remove-IsEntry b d p c o q h r e = ground (arith, h c o q, r.index)

pub remove_order-IsIndexed :
    (p : ℕ) (b : MeBook)
    → IsIndexed b
    → Outcome AnyFault (λ _ d. IsIndexed d) (remove_order index_write p b)
remove_order-IsIndexed p b h =
    weaken (any_fault (for_all _ (λ i. remove_order-Removed index_write p i b)))
      λ _ d r c o q e. remove-IsEntry b d p c o q h (r q) e

file-IsEntry :
    (b d : MeBook) (p c o q : ℕ)
    → IsIndexed b
    → (b.order_pool.store p).is_free ≡ false
    → Filed index_write p q b d
    → d.order_index c o ≡ some q
    → IsEntry d c o q
unfolding index_write
file-IsEntry b d p c o q h u r e = ground (arith, h c o q, r.index)

pub add_order-IsIndexed :
    (p : ℕ) (b : MeBook)
    → IsIndexed b
    → (b.order_pool.store p).is_free ≡ false
    → Outcome AnyFault (λ _ d. IsIndexed d) (add_order index_write p b)
add_order-IsIndexed p b h u =
    weaken (for_all _ (λ i. add_order-Filed index_write p i b))
      λ _ d r c o q e. file-IsEntry b d p c o q h u (r q) e

-- A new order takes a block that no entry leads to.
pub allocate-IsIndexed :
    (b : MeBook) (x : MeOrder)
    → IsIndexed b
    → Outcome AnyFault
        (λ p d. IsIndexed d × ((d.order_pool.store p).is_free ≡ false))
        (on_orders (allocate x) b)
allocate-IsIndexed b x h = go (allocate x b.order_pool) (holds (allocate-Allocates b.order_pool x))
  where
    go :
        (r : Result (ℕ × MemPool MeOrder))
        → Holds AnyFault (Allocates b.order_pool x) r
        → Outcome AnyFault
            (λ p d. IsIndexed d × ((d.order_pool.store p).is_free ≡ false))
            (elim r [ ok (a, pool) ↦ ok (a, record b { order_pool = pool }) | err e ↦ err e ])
    go (ok (i, pool)) a =
        returns ((λ c o q e. ground (arith, h c o q, a.block, a.store)), ground (arith, a.store))
    go (err e) a = stops tt
