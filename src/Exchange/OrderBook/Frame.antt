-- ===== src/Exchange/OrderBook/Frame.antt =====
-- A command on the book, run on the whole order book, changes nothing else.
use zquant_system.Prelude.{◌≡◌, refl, List, [], ◌∷◌, ◌++◌, append_assoc}
use zquant_system.Common.Fault.{Fault, Result, ok, err, Cmd, Outcome, returns, stops, holds, Holds}
use zquant_system.Book.{Book}
use zquant_system.Exchange.OrderBook.{MeOrderKey, ClientOrderHashMap, MeOrderBook, on_book}

abbrev pub OnBook :
    {A : Type 0}
    → (A → Book MeOrderKey ClientOrderHashMap → Type 0)
    → MeOrderBook
    → A
    → MeOrderBook
    → Type 0
OnBook P s a t = (b : Book MeOrderKey ClientOrderHashMap) × (t ≡ record s { book = b }) × P a b

pub on_book-OnBook :
    {A : Type 0} {F : Fault → Type 0} {P : A → Book MeOrderKey ClientOrderHashMap → Type 0}
    (c : Cmd (Book MeOrderKey ClientOrderHashMap) A) (s : MeOrderBook)
    → Outcome F P (c s.book)
    → Outcome F (OnBook P s) (on_book c s)
on_book-OnBook {A} {F} {P} c s h = go (c s.book) (holds h)
  where
    go :
        (r : Result (A × Book MeOrderKey ClientOrderHashMap))
        → Holds F P r
        → Outcome F
            (OnBook P s)
            (elim r [ ok (a, b) ↦ ok (a, record s { book = b }) | err e ↦ err e ])
    go (ok (a, b)) p = returns (b, refl, p)
    go (err e) f = stops f

pub append_twice {ℓ} :
    {A : Type ℓ} (xs : List A) (x y : A) → (xs ++ x ∷ []) ++ y ∷ [] ≡ xs ++ x ∷ y ∷ []
append_twice xs x y = append_assoc xs (x ∷ []) (y ∷ [])

-- What two runs append, one behind the other.
pub append_trans {ℓ} :
    {A : Type ℓ} (xs ys zs ws vs : List A) → ys ≡ xs ++ ws → zs ≡ ys ++ vs → zs ≡ xs ++ (ws ++ vs)
append_trans xs ys zs ws vs p q = cc (append_assoc xs ws vs)
