-- ===== src/Json/Whole.antt =====
-- Whole numbers in place of `float` and `double`, to run the JSON code on.
use caudio.Prelude.{ℕ, ◌+◌, ◌-◌, ◌*◌, ◌/◌, true, ltb, leb}
use caudio.Engine.{Floats}
use caudio.Json.{Singles, Unsigned}

instance abbrev pub whole : Floats ℕ
whole = record {
  lt = ltb;
  le = leb;
  add = ◌+◌;
  sub = ◌-◌;
  mul = ◌*◌;
  div = ◌/◌;
  is_finite = λ x. true;
  of_int = λ x. x;
  to_int = λ x. x;
  half = 0;
  sixty_percent = 0;
  seconds_of_ns = λ ns. ns / 1_000_000_000;
}

instance abbrev pub whole_singles : Singles ℕ ℕ
whole_singles = record { widen = λ x. x; narrow = λ x. x }

instance abbrev pub whole_unsigned : Unsigned ℕ
whole_unsigned = record { to_uint = λ x. x }
