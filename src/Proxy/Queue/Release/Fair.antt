-- ===== src/Proxy/Queue/Release/Fair.antt =====
-- What it means that tasks were released in turn, but for those that were released past others.
use cache_route.Common.{
  ℕ, zero, suc, ◌+◌, ◌-◌, ◌≡◌, ◌≤◌, ◌<◌, ap, Bool, true, false, none, some, List, [], ◌∷◌, ◌++◌,
  ◌==◌, map, All, if◌then◌else◌, arith,
}
use mathlib.Core.List.{append-nil, append_assoc}
use cache_route.Proxy.Queue.Task.{ProxyTask}
use cache_route.Proxy.Queue.Release.{ReleaseState, elem, add_seq, is_text}
use cache_route.Proxy.Queue.Release.Count.{up_to}
use cache_route.Proxy.Queue.Release.Conserve.{seq_of, seqs}

All-append_one {ℓ} :
    {A : Type ℓ} (P : A → Type 0) (xs : List A) (x : A) → All P xs → P x → All P (xs ++ x ∷ [])
All-append_one P [] x h p = (p, tt)
All-append_one P (y ∷ xs) x h p = (h.0, All-append_one P xs x h.1 p)

pub All-up_to : (P : ℕ → Type 0) (k : ℕ) → ((i : ℕ) → 0 < i → i ≤ k → P i) → All P (up_to k)
All-up_to P zero h = tt
All-up_to P (suc k) h =
    All-append_one P (up_to k) (suc k) (All-up_to P k (λ i p l. h i p (omega arith)))
      (h (suc k) (omega arith) (omega arith))

pub elem-append : (i : ℕ) (xs ys : List ℕ) → elem i xs ≡ true → elem i (xs ++ ys) ≡ true
elem-append i [] ys h = absurd (cc)
elem-append i (x ∷ xs) ys h = ground (arith, elem-append i xs ys)

pub elem-append_last : (i : ℕ) (xs : List ℕ) → elem i (xs ++ i ∷ []) ≡ true
elem-append_last i [] = ground arith
elem-append_last i (x ∷ xs) = ground (arith, elem-append_last i xs)

module _ {R : Type 0} where
  abbrev pub bypassed : ProxyTask R → Bool
  bypassed t = elim t.released [ none ↦ false | some r ↦ r.bypass ]

  -- How many tasks of the list were released past another.
  abbrev pub bypasses : List (ProxyTask R) → ℕ
  bypasses [] = 0
  bypasses (t ∷ ts) = (if bypassed t then 1 else 0) + bypasses ts

  -- A task that was released past another is a text task; before any other all lower numbers
  -- were released.
  abbrev pub InTurn : List ℕ → ProxyTask R → Type 0
  InTurn before t =
      if bypassed t
      then is_text t ≡ true
      else All (λ i. elem i before ≡ true) (up_to (seq_of t - 1))

  abbrev pub AllInTurn : List ℕ → List (ProxyTask R) → Type 0
  AllInTurn before [] = Unit
  AllInTurn before (t ∷ ts) = InTurn before t × AllInTurn (before ++ seq_of t ∷ []) ts

  pub AllInTurn-append :
      (before : List ℕ) (ts : List (ProxyTask R)) (t : ProxyTask R)
      → AllInTurn before ts
      → InTurn (before ++ map seq_of ts) t
      → AllInTurn before (ts ++ t ∷ [])
  AllInTurn-append before [] t h p = (rw append-nil at p, tt)
  AllInTurn-append before (u ∷ ts) t h p =
      (h.0, AllInTurn-append (before ++ seq_of u ∷ []) ts t h.1 (rw append_assoc p))

  pub bypasses-append :
      (ts : List (ProxyTask R)) (t : ProxyTask R)
      → bypasses (ts ++ t ∷ []) ≡ bypasses ts + (if bypassed t then 1 else 0)
  bypasses-append [] t = omega arith
  bypasses-append (u ∷ ts) t = omega (arith, bypasses-append ts t)

  -- Every number below `n` is released, what is released is in the ready queue, and there every
  -- task is in turn.
  pub record IsFair (n : ℕ) (s : ReleaseState R) : Type 0 where
    pub passed : (i : ℕ) → 0 < i → i < n → elem i s.released ≡ true
    pub out : (i : ℕ) → elem i s.released ≡ true → elem i (seqs s) ≡ true
    pub in_turn : AllInTurn [] s.ready

pub elem-same : (i n : ℕ) (xs : List ℕ) → i ≡ n → elem i xs ≡ elem n xs
elem-same i n xs h = ap (λ j. elem j xs) h

pub elem-add_seq :
    (i n : ℕ) (xs : List ℕ) → elem i (add_seq n xs) ≡ (if i == n then true else elem i xs)
elem-add_seq i n xs = ground (arith, elem-same i n xs)
