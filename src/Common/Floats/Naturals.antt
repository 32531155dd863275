-- ===== src/Common/Floats/Naturals.antt =====
-- Numbers whose every time and load is whole: the concrete type of the tests.
use cache_route.Common.{ℕ, ◌+◌, ◌-◌, ◌*◌, ◌/◌, leb, arith}
use cache_route.Common.Floats.{Floats, IsOrdered}

instance abbrev pub whole_numbers : Floats ℕ
whole_numbers = record {
  of_ℕ = λ n. n;
  add = λ a b. a + b;
  sub = λ a b. a - b;
  mul = λ a b. a * b;
  div = λ a b. a / b;
  le = leb;
  trunc = λ n. n;
}

pub whole_numbers-IsOrdered : IsOrdered whole_numbers
whole_numbers-IsOrdered = record {
  le_total = λ a b. ground arith;
  le_trans = λ a b c h h'. ground arith;
  add_grows = λ a b h. ground arith;
}
