-- ===== src/Scheduler/CacheRoute/Windows.antt =====
-- The tests by which `_select_proxy` narrows the proxies down: reach, load, GPUs and history.
use cache_route.Common.{
  ◌≡◌, ◌≢◌, refl, sym, subst, Bool, true, Option, none, some, List, [], ◌∷◌, map, keep, All,
  All-Member, Member, Member-map, All-map, Member-nonempty, Member-keep_in, Member-keep_out,
  Bool-cases, inl, inr, arith,
}
use cache_route.Common.Floats.{Floats, IsOrdered, float_max, lt}
use cache_route.Common.Floats.Order.{
  le_refl, min_from-le, min_from-Member, max_from-le, max_from-Member, float_max-le,
}
use cache_route.Scheduler.CacheRoute.{Kdn}
use cache_route.Scheduler.CacheRoute.Proxies.{
  Proxy, Window, zero_f, or_else, load_ratio, proxy_pool, least, greatest, load_safe, gpu_safe,
  same_float, aff_group,
}

module _ {A : Type 0} where
  pub or_else_nonempty : (xs ys : List A) → ys ≢ [] → or_else xs ys ≢ []
  or_else_nonempty [] ys h = h
  or_else_nonempty (x ∷ xs) ys h = λ e. cc

  pub or_else-left : (xs ys : List A) → xs ≢ [] → or_else xs ys ≡ xs
  or_else-left [] ys h = absurd (h refl)
  or_else-left (x ∷ xs) ys h = refl

module _ {R : Type 0} ⦃f : Floats R⦄ (ord : IsOrdered f) where
  pub least-Member :
      (g : Proxy R → R) (ps : List (Proxy R))
      → ps ≢ []
      → (p : Proxy R) × Member p ps × (least g ps ≡ g p)
  least-Member g [] h = absurd (h refl)
  least-Member g (p ∷ ps) h = elim (min_from-Member ord (g p) (map g ps)) [
    | inl e ↦ (p, inl refl, e)
    | inr m ↦ let (q, found, e) = Member-map g (least g (p ∷ ps)) ps m in (q, inr found, e)
  ]

  greatest-Member :
      (g : Proxy R → R) (ps : List (Proxy R))
      → ps ≢ []
      → (p : Proxy R) × Member p ps × (greatest g ps ≡ g p)
  greatest-Member g [] h = absurd (h refl)
  greatest-Member g (p ∷ ps) h = elim (max_from-Member ord (g p) (map g ps)) [
    | inl e ↦ (p, inl refl, e)
    | inr m ↦ let (q, found, e) = Member-map g (greatest g (p ∷ ps)) ps m in (q, inr found, e)
  ]

  pub le-greatest :
      (g : Proxy R → R) (ps : List (Proxy R)) → All (λ q. f.le (g q) (greatest g ps) ≡ true) ps
  le-greatest g [] = tt
  le-greatest g (p ∷ ps) =
      let (h, t) = max_from-le ord (g p) (map g ps) in
      (h, All-map (λ x. f.le x (greatest g (p ∷ ps)) ≡ true) g ps t)

  abbrev pub in_window : Window R → List (Proxy R) → Proxy R → Bool
  in_window w pool p =
      f.le (load_ratio p) (f.add (least load_ratio pool) (float_max zero_f w.load_ratio_delta))

  pub least-le :
      (g : Proxy R → R) (ps : List (Proxy R)) → All (λ q. f.le (least g ps) (g q) ≡ true) ps
  least-le g [] = tt
  least-le g (p ∷ ps) =
      let (h, t) = min_from-le ord (g p) (map g ps) in
      (h, All-map (λ x. f.le (least g (p ∷ ps)) x ≡ true) g ps t)

  pub window_nonempty :
      (w : Window R) (pool : List (Proxy R)) → pool ≢ [] → keep (in_window w pool) pool ≢ []
  window_nonempty w pool h =
      let (p, m, e) = least-Member load_ratio pool h in
      let grows =
        ord.add_grows (least load_ratio pool) (float_max zero_f w.load_ratio_delta)
          (float_max-le ord zero_f w.load_ratio_delta).0 in
      Member-nonempty p _ (
        Member-keep_in (in_window w pool) p pool m (
          subst
            (λ x.
              f.le x (f.add (least load_ratio pool) (float_max zero_f w.load_ratio_delta)) ≡ true)
            e grows))

  pub load_safe_lem :
      (w : Window R) (pool : List (Proxy R))
      → pool ≢ []
      → load_safe w pool ≡ keep (in_window w pool) pool
  unfolding load_safe
  load_safe_lem w pool h = or_else-left _ _ (window_nonempty w pool h)

  pub gpu_safe_nonempty : (w : Window R) (safe : List (Proxy R)) → safe ≢ [] → gpu_safe w safe ≢ []
  unfolding gpu_safe
  gpu_safe_nonempty w safe h = elim (Bool-cases (lt zero_f w.gpu_delta)) [
    | inl e ↦ rw e (or_else_nonempty _ safe h)
    | inr e ↦ rw e h
  ]

  pub aff_group_nonempty :
      (score : Proxy R → R) (ps : List (Proxy R)) → ps ≢ [] → aff_group score ps ≢ []
  unfolding aff_group
  aff_group_nonempty score ps h =
      let (p, m, e) = greatest-Member score ps h in
      let self : same_float (score p) (greatest score ps) ≡ true =
        subst (λ x. same_float (score p) x ≡ true) (sym e)
          (ground (arith, le_refl ord (score p))) in
      Member-nonempty p _
        (Member-keep_in (λ q. same_float (score q) (greatest score ps)) p ps m self)

  pub Member-aff_group :
      (score : Proxy R → R) (ps : List (Proxy R)) (p : Proxy R)
      → Member p (aff_group score ps)
      → Member p ps × All (λ q. f.le (score q) (score p) ≡ true) ps
  unfolding aff_group
  Member-aff_group score ps p m =
      let (found, same) = Member-keep_out (λ q. same_float (score q) (greatest score ps)) p ps m in
      let above : f.le (greatest score ps) (score p) ≡ true = ground arith in
      (
        found,
        All-imp ps (λ q h. ord.le_trans (score q) (greatest score ps) (score p) h above)
            (le-greatest score ps),
      )
    where
      All-imp :
          (qs : List (Proxy R))
          → ((q : Proxy R)
              → f.le (score q) (greatest score ps) ≡ true
              → f.le (score q) (score p) ≡ true)
          → All (λ q. f.le (score q) (greatest score ps) ≡ true) qs
          → All (λ q. f.le (score q) (score p) ≡ true) qs
      All-imp [] i h = tt
      All-imp (q ∷ qs) i h = (i q h.0, All-imp qs i h.1)

  -- Who has as much affinity as one of the group is in the group.
  pub Member-aff_group_in :
      (score : Proxy R → R) (ps : List (Proxy R)) (p q : Proxy R)
      → Member p (aff_group score ps)
      → Member q ps
      → f.le (score p) (score q) ≡ true
      → Member q (aff_group score ps)
  unfolding aff_group
  Member-aff_group_in score ps p q m m' h =
      let (found, same) = Member-keep_out (λ q. same_float (score q) (greatest score ps)) p ps m in
      let below =
        All-Member (λ q. f.le (score q) (greatest score ps) ≡ true) ps q (le-greatest score ps)
          m' in
      let above = ord.le_trans (greatest score ps) (score p) (score q) (ground arith) h in
      Member-keep_in (λ q. same_float (score q) (greatest score ps)) q ps m'
        (ground (arith, below, above))

  pub proxy_pool_nonempty :
      (k : Option (Kdn R)) (proxies : List (Proxy R)) → proxies ≢ [] → proxy_pool k proxies ≢ []
  unfolding proxy_pool
  proxy_pool_nonempty none proxies h = h
  proxy_pool_nonempty (some k) proxies h = or_else_nonempty _ proxies h
