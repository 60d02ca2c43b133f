-- ===== src/Trading/PositionKeeper/Settled.antt =====
-- What fills and changes of the best bid and offer keep.
use zquant_system.Prelude.{
  ℕ, ◌+◌, ◌%◌, ◌^◌, ◌<◌, ◌≡◌, refl, inl, inr, true, not, ◌&&◌, List, [], ◌∷◌, Bool-cases, arith,
}
use zquant_system.Prelude.Int.{pos}
use zquant_system.Common.Types.{Price, Qty, Side, side_to_index}
use zquant_system.Trading.Doubles.{Doubles}
use zquant_system.Trading.PositionKeeper.{
  PositionInfo, is_zero, is_invalid, count_fill, book_fill, mark_fill, update_total, add_fill,
  update_bbo,
}

pub data Event : Type 0 where
  fill : Side → Price → Qty → Event
  quote : (bid ask : Price) → Event

abbrev pub filled_qty : List Event → ℕ
filled_qty [] = 0
filled_qty (fill side price qty ∷ es) = qty + filled_qty es
filled_qty (quote bid ask ∷ es) = filled_qty es

module _ {Double : Type 0} (ops : Doubles Double) where
  abbrev pub run : List Event → PositionInfo ops → PositionInfo ops
  run [] p = p
  run (fill side price qty ∷ es) p = run es (add_fill ops side price qty p)
  run (quote bid ask ∷ es) p = run es (update_bbo ops bid ask p)

  -- The total is the sum of its parts, and a position of 0 has no open value and no profit to come.
  pub record IsSettled (p : PositionInfo ops) : Type 0 where
    pub total : p.total_pnl ≡ ops.add p.unreal_pnl p.real_pnl
    pub flat_buy :
        is_zero p.position ≡ true → p.open_vwap (side_to_index Side.buy) ≡ ops.of_int (pos 0)
    pub flat_sell :
        is_zero p.position ≡ true → p.open_vwap (side_to_index Side.sell) ≡ ops.of_int (pos 0)
    pub flat_unreal : is_zero p.position ≡ true → p.unreal_pnl ≡ ops.of_int (pos 0)

  mark_fill-IsSettled :
      (price : Price) (p : PositionInfo ops) → IsSettled (update_total ops (mark_fill ops price p))
  unfolding mark_fill side_to_index
  mark_fill-IsSettled price p = elim (Bool-cases (is_zero p.position)) [
    | inl flat ↦ record {
      total = refl;
      flat_buy = λ z. ground arith;
      flat_sell = λ z. ground arith;
      flat_unreal = λ z. ground arith;
    }
    | inr held ↦ record {
      total = refl;
      flat_buy = λ z. ground arith;
      flat_sell = λ z. ground arith;
      flat_unreal = λ z. ground arith;
    }
  ]

  pub add_fill-IsSettled :
      (side : Side) (price : Price) (qty : Qty) (p : PositionInfo ops)
      → IsSettled (add_fill ops side price qty p)
  unfolding add_fill
  add_fill-IsSettled side price qty p =
      mark_fill-IsSettled price
        (book_fill ops p.position side price qty (count_fill ops side qty p))

  pub update_bbo-IsSettled :
      (bid ask : Price) (p : PositionInfo ops) → IsSettled p → IsSettled (update_bbo ops bid ask p)
  unfolding update_bbo
  update_bbo-IsSettled bid ask p h =
      elim (Bool-cases
        (not (is_zero p.position) && (not (is_invalid bid) && not (is_invalid ask)))) [
          | inl marked ↦ record {
            total = ground arith;
            flat_buy = λ z. ground arith;
            flat_sell = λ z. ground arith;
            flat_unreal = λ z. ground arith;
          }
          | inr same ↦ rw same h
        ]

  add_fill-volume :
      (side : Side) (price : Price) (qty : Qty) (p : PositionInfo ops)
      → (add_fill ops side price qty p).volume ≡ (p.volume + qty) % 2 ^ 32
  unfolding add_fill count_fill book_fill mark_fill
  add_fill-volume side price qty p = ground arith

  update_bbo-volume :
      (bid ask : Price) (p : PositionInfo ops) → (update_bbo ops bid ask p).volume ≡ p.volume
  unfolding update_bbo
  update_bbo-volume bid ask p = ground arith

  run-IsSettled : (es : List Event) (p : PositionInfo ops) → IsSettled p → IsSettled (run es p)
  run-IsSettled [] p h = h
  run-IsSettled (fill side price qty ∷ es) p h =
      run-IsSettled es (add_fill ops side price qty p) (add_fill-IsSettled side price qty p)
  run-IsSettled (quote bid ask ∷ es) p h =
      run-IsSettled es (update_bbo ops bid ask p) (update_bbo-IsSettled bid ask p h)

  run-volume :
      (es : List Event) (p : PositionInfo ops)
      → p.volume ≡ p.volume % 2 ^ 32
      → (run es p).volume ≡ (p.volume + filled_qty es) % 2 ^ 32
  run-volume [] p h = omega arith
  run-volume (fill side price qty ∷ es) p h =
      let one = add_fill-volume side price qty p in
      let later = run-volume es (add_fill ops side price qty p) (omega arith) in omega arith
  run-volume (quote bid ask ∷ es) p h =
      let one = update_bbo-volume bid ask p in
      let later = run-volume es (update_bbo ops bid ask p) (omega arith) in omega arith

  -- After any fills and changes of the best bid and offer, the total profit is still the sum of the
  -- realised and the unrealised one, a position of 0 has no open value on either side and no
  -- unrealised profit, and the volume has grown by the quantities filled, modulo 2 ^ 32.
  pub run-settles :
      (es : List Event) (p : PositionInfo ops)
      → IsSettled p
      → p.volume < 2 ^ 32
      → IsSettled (run es p) × ((run es p).volume ≡ (p.volume + filled_qty es) % 2 ^ 32)
  run-settles es p h v = (run-IsSettled es p h, run-volume es p (omega arith))
