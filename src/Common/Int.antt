-- ===== src/Common/Int.antt =====
-- Python's integers, over the native numbers.
use cache_route.Common.{ℕ, suc, ◌+◌, ◌-◌, ltb, if◌then◌else◌}

-- `negsuc n` is -(n + 1).
pub data ℤ : Type 0 where
  pos : ℕ → ℤ
  negsuc : ℕ → ℤ

-- a - b
abbrev pub ℕ-ℤ : ℕ → ℕ → ℤ
ℕ-ℤ a b = if ltb a b then ℤ.negsuc (b - suc a) else ℤ.pos (a - b)

infixl 65 ◌+ℤ◌
abbrev pub ◌+ℤ◌ : ℤ → ℤ → ℤ
ℤ.pos a +ℤ ℤ.pos b = ℤ.pos (a + b)
ℤ.pos a +ℤ ℤ.negsuc b = ℕ-ℤ a (suc b)
ℤ.negsuc a +ℤ ℤ.pos b = ℕ-ℤ b (suc a)
ℤ.negsuc a +ℤ ℤ.negsuc b = ℤ.negsuc (suc (a + b))

-- `v = 0 if v < 0`
abbrev pub clamp : ℤ → ℤ
clamp (ℤ.pos a) = ℤ.pos a
clamp (ℤ.negsuc a) = ℤ.pos 0
