-- ===== src/Trading/PositionKeeper/Examples.antt =====
-- Fills and quotes with integers for the doubles.
use zquant_system.Prelude.{◌+◌, ◌%◌, ◌^◌, ◌≡◌, refl, List, [], ◌∷◌, arith}
use zquant_system.Prelude.Int.{pos, ◌+ℤ◌}
use zquant_system.Common.Types.{Side}
use zquant_system.Trading.Doubles.Whole.{whole}
use zquant_system.Trading.PositionKeeper.{PositionInfo}
use zquant_system.Trading.PositionKeeper.Settled.{
  Event, fill, quote, filled_qty, run, IsSettled, run-settles,
}

abbrev no_position : PositionInfo whole
no_position = record {
  position = pos 0;
  real_pnl = pos 0;
  unreal_pnl = pos 0;
  total_pnl = pos 0;
  open_vwap = λ i. pos 0;
  volume = 0;
}

no_position-IsSettled : IsSettled whole no_position
unfolding ◌+ℤ◌
no_position-IsSettled = record {
  total = refl;
  flat_buy = λ z. refl;
  flat_sell = λ z. refl;
  flat_unreal = λ z. refl;
}

abbrev events : List Event
events = fill Side.buy (pos 100) 10 ∷ quote (pos 99) (pos 101) ∷ fill Side.sell (pos 102) 15 ∷ []

run-settles_example :
    IsSettled whole (run whole events no_position)
    × ((run whole events no_position).volume ≡ (0 + filled_qty events) % 2 ^ 32)
run-settles_example = run-settles whole events no_position no_position-IsSettled (omega arith)
