-- ===== src/Trading/PositionKeeper.antt =====
-- trading/strategy/position_keeper.h: position, volume and profits of one ticker. The pointer to the
-- best bid and offer, which only toString() reads, is left out. Products of `int64_t` are those of
-- integers, as are those of `int`; where they overflow, the source's are undefined.
pub mod Settled
mod Examples
use zquant_system.Prelude.{
  ℕ, ◌+◌, ◌-◌, ◌%◌, ◌^◌, min, Bool, true, false, not, ◌&&◌, ltb, ◌==◌, update, if◌then◌else◌,
}
use zquant_system.Prelude.Int.{ℤ, pos, negsuc, ◌+ℤ◌, ◌*ℤ◌, ltb_ℤ, abs}
use zquant_system.Common.Types.{
  Price, Qty, Side, is_buy, side_to_index, side_to_value, price_invalid,
}
use zquant_system.Trading.Doubles.{Doubles}
use zquant_system.Trading.RiskManager.{to_int32}

-- The conversion of a sum of 32 bits to `int32_t`.
unfoldable pub wrap_int32 : ℤ → ℤ
unfolding to_int32
wrap_int32 (pos n) = to_int32 (n % 2 ^ 32)
wrap_int32 (negsuc n) = to_int32 (2 ^ 32 - 1 - n % 2 ^ 32)

abbrev pub is_zero : ℤ → Bool
is_zero (pos n) = n == 0
is_zero (negsuc n) = false

abbrev pub is_negative : ℤ → Bool
is_negative (pos n) = false
is_negative (negsuc n) = true

-- `price == Price_INVALID`.
abbrev pub is_invalid : Price → Bool
is_invalid price = not (ltb_ℤ price price_invalid) && not (ltb_ℤ price_invalid price)

-- `side == Side::BUY ? Side::SELL : Side::BUY`.
abbrev pub opposite : Side → Side
opposite side = if is_buy side then Side.sell else Side.buy

module _ {Double : Type 0} (ops : Doubles Double) where
  pub record PositionInfo : Type 0 where
    pub position : ℤ
    pub real_pnl : Double
    pub unreal_pnl : Double
    pub total_pnl : Double
    pub open_vwap : ℕ → Double
    pub volume : Qty

  abbrev zero_double : Double
  zero_double = ops.of_int (pos 0)

  abbrev size_of : ℤ → Double
  size_of position = ops.of_int (abs position)

  -- `position_ += exec_qty * side_value; volume_ += exec_qty`.
  unfoldable pub count_fill : Side → Qty → PositionInfo → PositionInfo
  count_fill side exec_qty p = record p {
    position = wrap_int32 (p.position +ℤ pos exec_qty *ℤ side_to_value side);
    volume = (p.volume + exec_qty) % 2 ^ 32;
  }

  -- The branch of a fill that opens or increases a position, and that of one that reduces or turns
  -- `old`; `p` has the new position.
  unfoldable pub book_fill : (old : ℤ) → Side → Price → Qty → PositionInfo → PositionInfo
  book_fill old side price exec_qty p =
      let i = side_to_index side in
      let opp = side_to_index (opposite side) in
      if not (is_negative (old *ℤ side_to_value side))
      then record p {
        open_vwap =
            update p.open_vwap i (ops.add (p.open_vwap i) (ops.of_int (price *ℤ pos exec_qty)));
      }
      else let opp_side_vwap = ops.div (p.open_vwap opp) (size_of old) in
        let closed = if ltb_ℤ (abs old) (to_int32 exec_qty) then abs old else to_int32 exec_qty in
        let reduced = update p.open_vwap opp (ops.mul opp_side_vwap (size_of p.position)) in
        let turned =
          update (update reduced i (ops.of_int (price *ℤ abs p.position))) opp zero_double in
        record p {
          real_pnl = ops.add p.real_pnl (
              ops.mul (ops.mul (ops.of_int closed) (ops.sub opp_side_vwap (ops.of_int price)))
                (ops.of_int (side_to_value side)));
          open_vwap = if is_negative (p.position *ℤ old) then turned else reduced;
        }

  -- The profit of the position at a price.
  unfoldable pub unrealized : Double → PositionInfo → Double
  unrealized price p =
      let buy_vwap = ops.div (p.open_vwap (side_to_index Side.buy)) (size_of p.position) in
      let sell_vwap = ops.div (p.open_vwap (side_to_index Side.sell)) (size_of p.position) in
      if is_negative p.position
      then ops.mul (ops.sub sell_vwap price) (size_of p.position)
      else ops.mul (ops.sub price buy_vwap) (size_of p.position)

  unfoldable pub mark_fill : Price → PositionInfo → PositionInfo
  unfolding unrealized
  mark_fill price p =
      if is_zero p.position
      then record p {
        open_vwap =
            update (update p.open_vwap (side_to_index Side.sell) zero_double)
              (side_to_index Side.buy) zero_double;
        unreal_pnl = zero_double;
      }
      else record p { unreal_pnl = unrealized (ops.of_int price) p }

  abbrev pub update_total : PositionInfo → PositionInfo
  update_total p = record p { total_pnl = ops.add p.unreal_pnl p.real_pnl }

  unfoldable pub add_fill : Side → Price → Qty → PositionInfo → PositionInfo
  unfolding count_fill book_fill mark_fill
  add_fill side price exec_qty p =
      update_total
        (mark_fill price (book_fill p.position side price exec_qty (count_fill side exec_qty p)))

  unfoldable pub update_bbo : (bid ask : Price) → PositionInfo → PositionInfo
  unfolding unrealized
  update_bbo bid ask p =
      if not (is_zero p.position) && (not (is_invalid bid) && not (is_invalid ask))
      then update_total
          (record p { unreal_pnl = unrealized (ops.mul (ops.of_int (bid +ℤ ask)) ops.half) p })
      else p
