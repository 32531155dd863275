-- ===== src/Common/Floats.antt =====
-- The floating-point operations that the program calls, over any type that has them. The laws
-- that the theorems need are those of Python floats with no NaN among them.
pub mod Naturals
pub mod Order
use cache_route.Common.{
  ℕ, ◌≡◌, ◌⊎◌, Bool, true, not, List, [], ◌∷◌, Option, none, some, if◌then◌else◌,
}

pub record Floats (R : Type 0) : Type 0 where
  pub of_ℕ : ℕ → R
  pub add : R → R → R
  pub sub : R → R → R
  pub mul : R → R → R
  pub div : R → R → R
  pub le : R → R → Bool
  -- `max(0, int(x))`
  pub trunc : R → ℕ

-- The comparison is a total preorder.
pub record IsOrdered {R : Type 0} (f : Floats R) : Type 0 where
  pub le_total : (a b : R) → (f.le a b ≡ true) ⊎ (f.le b a ≡ true)
  pub le_trans : (a b c : R) → f.le a b ≡ true → f.le b c ≡ true → f.le a c ≡ true
  -- Rounding keeps an order, so adding a number that is not negative takes nothing away.
  pub add_grows : (a b : R) → f.le (f.of_ℕ 0) b ≡ true → f.le a (f.add a b) ≡ true

module _ {R : Type 0} ⦃f : Floats R⦄ where
  -- `a < b`
  abbrev pub lt : R → R → Bool
  lt a b = not (f.le b a)

  -- `max(a, b)`
  abbrev pub float_max : R → R → R
  float_max a b = if lt a b then b else a

  -- `sum(xs)`, from the left.
  abbrev pub sum_from : R → List R → R
  sum_from acc [] = acc
  sum_from acc (x ∷ xs) = sum_from (f.add acc x) xs

  abbrev pub sum : List R → R
  sum = sum_from (f.of_ℕ 0)

  -- `min(x, *xs)` and `max(x, *xs)` keep the first of equals.
  abbrev pub min_from : R → List R → R
  min_from m [] = m
  min_from m (x ∷ xs) = min_from (if lt x m then x else m) xs

  abbrev pub max_from : R → List R → R
  max_from m [] = m
  max_from m (x ∷ xs) = max_from (if lt m x then x else m) xs

  -- `min(xs) if xs else None`
  abbrev pub min? : List R → Option R
  min? [] = none
  min? (x ∷ xs) = some (min_from x xs)

  abbrev pub max? : List R → Option R
  max? [] = none
  max? (x ∷ xs) = some (max_from x xs)

  -- `sum(xs) if xs else None`
  abbrev pub sum? : List R → Option R
  sum? [] = none
  sum? (x ∷ xs) = some (sum (x ∷ xs))
