-- ===== src/Proxy/Queue/Release/Loop.antt =====
-- The rule of the flush's loop: what each kind of release keeps holds at its end, and the loop
-- ends by its tests, never for want of fuel.
use cache_route.Common.{
  ℕ, zero, suc, ◌≡◌, ◌≤◌, ◌<◌, refl, true, false, none, some, List, [], ◌∷◌, leb, length, keep,
  length-keep, arith, Option-cases, Bool-cases, inl, inr, ap, subst, sym, ◌⊎◌,
}
use cache_route.Common.Dict.{Dict, lookup, IsDict, erase-IsDict}
use cache_route.Common.Floats.{Floats}
use cache_route.Proxy.Queue.Task.{ProxyTask}
use cache_route.Proxy.Queue.Release.{
  ReleaseState, Settings, ReleasePolicy, release, elem, skip_released, first_text, is_text,
  flush_from, flush,
}
use cache_route.Proxy.Queue.Release.Count.{length-erase}

-- The numbers from `n` on.
abbrev from : ℕ → List ℕ → List ℕ
from n = keep (leb n)

from_suc-le : (n : ℕ) (xs : List ℕ) → length (from (suc n) xs) ≤ length (from n xs)
from_suc-le n [] = omega arith
from_suc-le n (x ∷ xs) = ground (arith, from_suc-le n xs)

from_suc-lt :
    (n : ℕ) (xs : List ℕ) → elem n xs ≡ true → length (from (suc n) xs) < length (from n xs)
from_suc-lt n [] h = absurd (cc)
from_suc-lt n (x ∷ xs) h = ground (arith, from_suc-lt n xs, from_suc-le n xs)

skip_released-ends :
    (fuel : ℕ) (xs : List ℕ) (n : ℕ)
    → length (from n xs) ≤ fuel
    → elem (skip_released fuel xs n) xs ≡ false
unfolding skip_released
skip_released-ends zero xs n h = elim (Bool-cases (elem n xs)) [
  | inl e ↦ absurd (omega (arith, from_suc-lt n xs e))
  | inr e ↦ e
]
skip_released-ends (suc fuel) xs n h = elim (Bool-cases (elem n xs)) [
  | inl e ↦
      rw (e, skip_released) (skip_released-ends fuel xs (suc n) (omega (arith, from_suc-lt n xs e)))
  | inr e ↦ rw (e, skip_released) e
]

-- As much fuel as there are released numbers is enough to get past them.
pub skip_released-not_elem :
    (xs : List ℕ) (n : ℕ) → elem (skip_released (length xs) xs n) xs ≡ false
skip_released-not_elem xs n = skip_released-ends (length xs) xs n (length-keep (leb n) xs)

pub skip_released_ge : (fuel : ℕ) (xs : List ℕ) (n : ℕ) → n ≤ skip_released fuel xs n
unfolding skip_released
skip_released_ge zero xs n = omega arith
skip_released_ge (suc fuel) xs n = elim (Bool-cases (elem n xs)) [
  | inl e ↦ rw (e, skip_released) (omega (arith, skip_released_ge fuel xs (suc n)))
  | inr e ↦ rw (e, skip_released) (omega arith)
]

pub skip_released-stay :
    (fuel : ℕ) (xs : List ℕ) (n : ℕ) → elem n xs ≡ false → skip_released fuel xs n ≡ n
unfolding skip_released
skip_released-stay zero xs n h = refl
skip_released-stay (suc fuel) xs n h = rw (h, skip_released)

-- All that is skipped is released.
pub skip_released-elem :
    (fuel : ℕ) (xs : List ℕ) (n m : ℕ) → n ≤ m → m < skip_released fuel xs n → elem m xs ≡ true
unfolding skip_released
skip_released-elem zero xs n m l h = absurd (omega arith)
skip_released-elem (suc fuel) xs n m l h = ground (arith, skip_released-elem fuel xs (suc n) m)

policy-cases : (p : ReleasePolicy) → (p ≡ ReleasePolicy.ordered) ⊎ (p ≡ ReleasePolicy.text_bypass)
policy-cases ReleasePolicy.ordered = inl refl
policy-cases ReleasePolicy.text_bypass = inr refl

module _ {R : Type 0} where
  first_text_sound :
      (n seq : ℕ) (t : ProxyTask R) (buf : Dict (ProxyTask R))
      → IsDict buf
      → first_text n buf ≡ some (seq, t)
      → (n < seq) × (lookup seq buf ≡ some t) × (is_text t ≡ true)
  first_text_sound n seq t [] u h = absurd (cc)
  first_text_sound n seq t ((k, v) ∷ buf) u h = elim (Option-cases (first_text n buf)) [
    | inl e ↦ ground arith
    | inr ((seq', t'), e) ↦
        let (above, found, text) = first_text_sound n seq' t' buf u.1 e in
        ground (arith, ap (λ i. lookup {V = ProxyTask R} i buf) {x = seq'} {y = k})
  ]

module _ {R : Type 0} ⦃f : Floats R⦄ (c : Settings R) where
  -- What the two kinds of release must keep, at the number that the loop has come to and the
  -- count of bypasses so far.
  pub record Rule (P : ℕ → ℕ → ReleaseState R → Type 0) : Type 0 where
    pub skip :
        (b n : ℕ) (s : ReleaseState R)
        → P b n s
        → P b (skip_released (length s.released) s.released n) s
    pub stop : (b n m : ℕ) (s : ReleaseState R) → P b n s → P b n (record s { next_release = m })
    pub in_turn :
        (b n : ℕ) (s : ReleaseState R) (t : ProxyTask R)
        → elem n s.released ≡ false
        → lookup n s.buffer ≡ some t
        → P b n s
        → P b (suc n) (release c n t false none s)
    pub bypass :
        (b n : ℕ) (s : ReleaseState R) (seq : ℕ) (t : ProxyTask R)
        → c.policy ≡ ReleasePolicy.text_bypass
        → b < c.text_bypass_max_per_flush
        → elem n s.released ≡ false
        → lookup n s.buffer ≡ none
        → lookup seq s.buffer ≡ some t
        → n < seq
        → is_text t ≡ true
        → P b n s
        → P (suc b) n (release c seq t true (some n) s)

  -- How a flush ends.
  pub record Ends (P : ℕ → ℕ → ReleaseState R → Type 0) (result : ReleaseState R) : Type 0 where
    pub bypasses : ℕ
    pub holds : P bypasses result.next_release result
    pub unreleased : elem result.next_release result.released ≡ false
    pub unprepared : lookup result.next_release result.buffer ≡ none

  stop :
      (P : ℕ → ℕ → ReleaseState R → Type 0) (b m : ℕ) (s : ReleaseState R)
      → Rule P
      → P b m s
      → elem m s.released ≡ false
      → lookup m s.buffer ≡ none
      → Ends P (record s { next_release = m })
  stop P b m s r q fresh e = record {
    bypasses = b;
    holds = r.stop b m m s q;
    unreleased = fresh;
    unprepared = e;
  }

  flush_from-Ends :
      (P : ℕ → ℕ → ReleaseState R → Type 0)
      → Rule P
      → (fuel b n : ℕ) (s : ReleaseState R) → length s.buffer < fuel
      → IsDict s.buffer
      → P b n s
      → Ends P (flush_from c fuel b n s)
  unfolding flush_from release
  flush_from-Ends P r zero b n s h u p = absurd (omega arith)
  flush_from-Ends P r (suc fuel) b n s h u p =
      let m = skip_released (length s.released) s.released n in
      let fresh = skip_released-not_elem s.released n in
      let q = r.skip b n s p in
      elim (Option-cases (lookup m s.buffer)) [
        | inr (t, e) ↦
            rw (e, flush_from)
              (flush_from-Ends P r fuel b (suc m) (release c m t false none s)
                (omega (arith, length-erase m t s.buffer e)) (erase-IsDict m s.buffer u)
                (r.in_turn b m s t fresh e q))
        | inl e ↦ elim (Option-cases (first_text m s.buffer)) [
          | inl none' ↦ rw (e, none', flush_from) (stop P b m s r q fresh e)
          | inr ((seq, t), e') ↦ elim (policy-cases c.policy) [
            | inl o ↦
                let eq : flush_from c (suc fuel) b n s ≡ record s { next_release = m } =
                  rw (e, e', o, flush_from) in
                subst (Ends P) (sym eq) (stop P b m s r q fresh e)
            | inr o ↦ elim (Bool-cases (leb c.text_bypass_max_per_flush b)) [
              | inl full ↦
                  let eq : flush_from c (suc fuel) b n s ≡ record s { next_release = m } =
                    rw (e, e', o, full, flush_from) in
                  subst (Ends P) (sym eq) (stop P b m s r q fresh e)
              | inr free ↦
                  let (above, found, text) = first_text_sound m seq t s.buffer u e' in
                  let s' = release c seq t true (some m) s in
                  let eq : flush_from c (suc fuel) b n s ≡ flush_from c fuel (suc b) m s' =
                    rw (e, e', o, free, flush_from) in
                  subst (Ends P) (sym eq) (
                    flush_from-Ends P r fuel (suc b) m s'
                      (omega (arith, length-erase seq t s.buffer found))
                      (erase-IsDict seq s.buffer u)
                      (r.bypass b m s seq t o (ground arith) fresh e found above text q))
            ]
          ]
        ]
      ]

  -- The rule for a whole flush.
  pub flush-Ends :
      (P : ℕ → ℕ → ReleaseState R → Type 0) (s : ReleaseState R)
      → Rule P
      → IsDict s.buffer
      → P 0 s.next_release s
      → Ends P (flush c s)
  unfolding flush
  flush-Ends P s r u p =
      flush_from-Ends P r (suc (length s.buffer)) 0 s.next_release s (omega arith) u p
