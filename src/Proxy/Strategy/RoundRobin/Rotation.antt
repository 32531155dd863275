-- ===== src/Proxy/Strategy/RoundRobin/Rotation.antt =====
-- Sequences of calls of the round robin of proxy/strategy/round_robin.py on the same candidates.
use cache_route.Common.{
  ℕ, zero, suc, ◌+◌, ◌*◌, ◌/◌, ◌%◌, ◌-◌, ◌≡◌, ◌≤◌, ◌<◌, refl, ap, sym, ◌∙◌, Option, some, List, [],
  ◌∷◌, ◌++◌, map, length, get_elem?, take, drop, take-all, length-drop, arith,
}
use mathlib.Core.Path.{ap₂}
use mathlib.Core.List.{map-append}
use native.Mathlib.Nat.{mod-eq_of_lt, mul-add-mod_self_right, mod-add-div'}
use cache_route.Proxy.Strategy.RoundRobin.{RoundRobin, select}

module _ {A : Type 0} where
  -- The answers of `n` calls in a row on the same candidates.
  unfoldable pub picks : ℕ → List A → RoundRobin → List (Option A)
  picks zero xs s = []
  picks (suc n) xs s = let (a, s') = select xs s in a ∷ picks n xs s'

  select_lem :
      (xs : List A) (s : RoundRobin)
      → 0 < length xs
      → select xs s ≡ (get_elem? xs (s.idx % length xs), record { idx = s.idx + 1 })
  unfolding select
  select_lem [] s h = absurd (omega arith)
  select_lem (x ∷ xs) s h = refl

  take-drop-suc :
      (k m : ℕ) (xs : List A)
      → k < length xs
      → map some (take (suc m) (drop k xs)) ≡ get_elem? xs k ∷ map some (take m (drop (suc k) xs))
  take-drop-suc k m [] h = absurd (omega arith)
  take-drop-suc zero m (x ∷ xs) h = refl
  take-drop-suc (suc k) m (x ∷ xs) h = take-drop-suc k m xs (omega arith)

  -- Before the counter wraps the candidates come in their order.
  picks_in_order :
      (m k q : ℕ) (xs : List A) (s : RoundRobin)
      → s.idx ≡ q * length xs + k
      → k + m ≤ length xs
      → picks m xs s ≡ map some (take m (drop k xs))
  unfolding picks
  picks_in_order zero k q xs s e h = refl
  picks_in_order (suc m) k q xs s e h = rw (select_lem xs s (omega arith)) (
      ap (λ i. get_elem? xs i ∷ picks m xs (record { idx = s.idx + 1 }))
        (ap (λ i. i % length xs) e
          ∙ mul-add-mod_self_right q (length xs) k
          ∙ mod-eq_of_lt (omega arith))
      ∙ ap (◌∷◌ (get_elem? xs k))
          (picks_in_order m (suc k) q xs (record { idx = s.idx + 1 }) (omega arith) (omega arith))
      ∙ sym (take-drop-suc k m xs (omega arith)))

  picks-append :
      (m n : ℕ) (xs : List A) (s : RoundRobin)
      → 0 < length xs
      → picks (m + n) xs s ≡ picks m xs s ++ picks n xs (record { idx = s.idx + m })
  unfolding picks
  picks-append zero n xs s h =
      let e : 0 + n ≡ n = omega arith in let e' : s.idx + 0 ≡ s.idx = omega arith in rw (e, e') refl
  picks-append (suc m) n xs s h =
      let e : suc m + n ≡ suc (m + n) = omega arith in
      let e' : s.idx + suc m ≡ s.idx + 1 + m = omega arith in
      rw (e, e', select_lem xs s h)
        (ap (◌∷◌ (get_elem? xs (s.idx % length xs)))
          (picks-append m n xs (record { idx = s.idx + 1 }) h))

  -- As many calls as there are candidates take each of them exactly once: from the one that the
  -- counter points at to the last, and then from the first.
  pub picks_round :
      (xs : List A) (s : RoundRobin)
      → 0 < length xs
      → let k = s.idx % length xs in picks (length xs) xs s ≡ map some (drop k xs ++ take k xs)
  picks_round ys s h =
      let n = length ys in
      let k = s.idx % n in
      let low : k < n = omega arith in
      let whole : s.idx % n + s.idx / n * n ≡ s.idx = mod-add-div' s.idx n in
      let split : n ≡ n - k + k = omega arith in
      ap (λ m. picks m ys s) split
      ∙ picks-append (n - k) k ys s h
      ∙ ap₂ ◌++◌
          (picks_in_order (n - k) k (s.idx / n) ys s (omega arith) (omega arith)
            ∙ ap (map some) (take-all (n - k) (drop k ys) (omega (arith, length-drop k ys))))
          (picks_in_order k 0 (s.idx / n + 1) ys (record { idx = s.idx + (n - k) }) (omega arith)
            (omega arith))
      ∙ sym (map-append some (drop k ys) (take k ys))
