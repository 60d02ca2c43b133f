-- ===== src/Trading/Doubles/Whole.antt =====
-- Integers in the place of doubles.
use zquant_system.Prelude.{not}
use zquant_system.Prelude.Int.{ℤ, pos, ◌+ℤ◌, ◌-ℤ◌, ◌*ℤ◌, ltb_ℤ}
use zquant_system.Trading.Doubles.{Doubles}

abbrev pub whole : Doubles ℤ
whole = record {
  of_int = λ a. a;
  half = pos 1;
  add = λ a b. a +ℤ b;
  sub = λ a b. a -ℤ b;
  mul = λ a b. a *ℤ b;
  div = λ a b. a;
  less = ltb_ℤ;
  at_least = λ a b. not (ltb_ℤ a b);
}
