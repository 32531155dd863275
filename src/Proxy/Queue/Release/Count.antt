-- ===== src/Proxy/Queue/Release/Count.antt =====
-- How often a number occurs in a list, and among the keys of a dict.
use cache_route.Common.{
  ℕ, zero, suc, ◌+◌, ◌≡◌, ◌≤◌, ◌<◌, refl, none, some, List, [], ◌∷◌, ◌++◌, ◌==◌, if◌then◌else◌,
  length, arith,
}
use cache_route.Common.Dict.{Dict, lookup, insert, erase}

abbrev pub count : ℕ → List ℕ → ℕ
count n [] = 0
count n (x ∷ xs) = (if n == x then 1 else 0) + count n xs

pub count-append : (n : ℕ) (xs ys : List ℕ) → count n (xs ++ ys) ≡ count n xs + count n ys
count-append n [] ys = omega arith
count-append n (x ∷ xs) ys = ground (arith, count-append n xs ys)

-- 1, 2, …, n.
abbrev pub up_to : ℕ → List ℕ
up_to zero = []
up_to (suc n) = up_to n ++ suc n ∷ []

pub count-up_to_above : (k n : ℕ) → n < k → count k (up_to n) ≡ 0
count-up_to_above k zero h = refl
count-up_to_above k (suc n) h =
    ground (arith, count-append k (up_to n) (suc n ∷ []), count-up_to_above k n)

pub count-up_to : (k n : ℕ) → 0 < k → k ≤ n → count k (up_to n) ≡ 1
count-up_to k zero p h = absurd (omega arith)
count-up_to k (suc n) p h =
    ground (arith, count-append k (up_to n) (suc n ∷ []), count-up_to k n, count-up_to_above k n)

pub count-up_to_zero : (n : ℕ) → count 0 (up_to n) ≡ 0
count-up_to_zero zero = refl
count-up_to_zero (suc n) = ground (arith, count-append 0 (up_to n) (suc n ∷ []), count-up_to_zero n)

pub count-up_to_le : (k n : ℕ) → count k (up_to n) ≤ 1
count-up_to_le k zero = omega arith
count-up_to_le k (suc n) =
    ground (arith, count-append k (up_to n) (suc n ∷ []), count-up_to_le k n, count-up_to_above k n)

module _ {V : Type 0} where
  -- `list(d)`
  abbrev pub keys : Dict V → List ℕ
  keys [] = []
  keys ((k, v) ∷ d) = k ∷ keys d

  pub count-keys_absent : (n : ℕ) (d : Dict V) → lookup n d ≡ none → count n (keys d) ≡ 0
  count-keys_absent n [] h = refl
  count-keys_absent n ((k, v) ∷ d) h = ground (arith, count-keys_absent n d)

  pub lookup_of_count : (n : ℕ) (d : Dict V) → count n (keys d) ≡ 0 → lookup n d ≡ none
  lookup_of_count n [] h = refl
  lookup_of_count n ((k, v) ∷ d) h = ground (arith, lookup_of_count n d)

  pub count-keys-erase :
      (n k : ℕ) (v : V) (d : Dict V)
      → lookup k d ≡ some v
      → count n (keys (erase k d)) + (if n == k then 1 else 0) ≡ count n (keys d)
  count-keys-erase n k v [] h = absurd (cc)
  count-keys-erase n k v ((j, w) ∷ d) h = ground (arith, count-keys-erase n k v d)

  pub length-erase :
      (k : ℕ) (v : V) (d : Dict V) → lookup k d ≡ some v → suc (length (erase k d)) ≡ length d
  length-erase k v [] h = absurd (cc)
  length-erase k v ((j, w) ∷ d) h = ground (arith, length-erase k v d)

  pub count-keys-insert :
      (n k : ℕ) (v : V) (d : Dict V)
      → lookup k d ≡ none
      → count n (keys (insert k v d)) ≡ count n (keys d) + (if n == k then 1 else 0)
  count-keys-insert n k v [] h = ground arith
  count-keys-insert n k v ((j, w) ∷ d) h = ground (arith, count-keys-insert n k v d)
