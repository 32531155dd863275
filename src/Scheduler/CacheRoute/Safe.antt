-- ===== src/Scheduler/CacheRoute/Safe.antt =====
-- What `_select_proxy` asks of a proxy, said without its lists: reach, load, GPUs and preference.
use cache_route.Common.{
  ℕ, ◌≡◌, ◌≢◌, ◌<◌, ◌⊎◌, refl, sym, subst, Bool, true, false, Option, none, some, List, [], ◌∷◌,
  keep, All, All-Member, Member, leb, Member-nonempty, Member-keep_in, Member-keep_out, Bool-cases,
  inl, inr, ◌↔◌, if◌then◌else◌, arith,
}
use cache_route.Common.Floats.{Floats, IsOrdered, float_max, lt}
use cache_route.Common.Floats.Order.{float_max-le}
use cache_route.Scheduler.CacheRoute.{Kdn}
use cache_route.Scheduler.CacheRoute.Proxies.{
  Proxy, Window, zero_f, or_else, link, load_ratio, proxy_pool, least, load_safe, gpu_safe,
  same_float, better,
}
use cache_route.Scheduler.CacheRoute.Windows.{
  or_else-left, in_window, load_safe_lem, least-Member, least-le,
}

module _ {A : Type 0} where
  nothing_kept : (t : A → Bool) (xs : List A) → keep t xs ≡ [] → All (λ a. t a ≡ false) xs
  nothing_kept t [] e = tt
  nothing_kept t (x ∷ xs) e = elim (Bool-cases (t x)) [
    | inl h ↦ absurd (ground arith)
    | inr h ↦ (h, nothing_kept t xs (ground arith))
  ]

  none_kept : (t : A → Bool) (xs : List A) → All (λ a. t a ≡ false) xs → keep t xs ≡ []
  none_kept t [] h = refl
  none_kept t (x ∷ xs) h = rw h.0 (none_kept t xs h.1)

  empty_or : (xs : List A) → (xs ≡ []) ⊎ (xs ≢ [])
  empty_or [] = inl refl
  empty_or (x ∷ xs) = inr (λ e. cc)

  -- What passes, or everything if nothing passes.
  Member-or_else-keep :
      (t : A → Bool) (a : A) (xs : List A)
      → Member a (or_else (keep t xs) xs)
        ↔ (Member a xs × ((t a ≡ true) ⊎ All (λ b. t b ≡ false) xs))
  Member-or_else-keep t a xs = elim (empty_or (keep t xs)) [
    | inl e ↦ (
      λ m. (let m' : Member a (or_else [] xs) = rw e at m in m', inr (nothing_kept t xs e)),
      λ (m, h). rw e m,
    )
    | inr ne ↦
        let eq = or_else-left (keep t xs) xs ne in
        (
          λ m. let (m', h) = Member-keep_out t a xs (subst (Member a) eq m) in (m', inl h),
          λ (m, h). elim h [
            | inl e ↦ subst (Member a) (sym eq) (Member-keep_in t a xs m e)
            | inr nothing ↦ absurd (ne (none_kept t xs nothing))
          ],
        )
  ]

module _ {R : Type 0} ⦃f : Floats R⦄ where
  -- One of the proxies, and one that the KDN reaches, that is, with a bandwidth above zero, if it
  -- reaches any.
  abbrev pub InReach : Option (Kdn R) → List (Proxy R) → Proxy R → Type 0
  InReach none proxies p = Member p proxies
  InReach (some k) proxies p =
      Member p proxies
      × ((lt zero_f (link (some k) p).0 ≡ true)
          ⊎ All (λ q. lt zero_f (link (some k) q).0 ≡ false) proxies)

  pub Member-proxy_pool_iff :
      (k : Option (Kdn R)) (proxies : List (Proxy R)) (p : Proxy R)
      → Member p (proxy_pool k proxies) ↔ InReach k proxies p
  unfolding proxy_pool
  Member-proxy_pool_iff none proxies p = (λ m. m, λ m. m)
  Member-proxy_pool_iff (some k) proxies p =
      Member-or_else-keep (λ q. lt zero_f (link (some k) q).0) p proxies

  -- Its load ratio is at most the allowed difference above that of the proxy `lowest`.
  abbrev pub IsNearLoad : Window R → Proxy R → Proxy R → Type 0
  IsNearLoad w lowest p =
      f.le (load_ratio p) (f.add (load_ratio lowest) (float_max zero_f w.load_ratio_delta)) ≡ true

  -- The GPUs do not count, or its use of them is at most the allowed difference above that of the
  -- proxy `coolest`.
  abbrev pub IsNearGpu : Window R → Proxy R → Proxy R → Type 0
  IsNearGpu w coolest p =
      (lt zero_f w.gpu_delta ≡ false)
      ⊎ (f.le p.gpu_util (f.add coolest.gpu_util w.gpu_delta) ≡ true)

  -- It is in reach, and within both windows.
  abbrev pub InWindows :
      Window R → Option (Kdn R) → List (Proxy R) → Proxy R → Proxy R → Proxy R → Type 0
  InWindows w k proxies lowest coolest p =
      InReach k proxies p × IsNearLoad w lowest p × IsNearGpu w coolest p

  -- The first number is smaller, or they are the same and the rest decides.
  abbrev pub IsLessOr : R → R → Type 0 → Type 0
  IsLessOr a b Rest = (lt a b ≡ true) ⊎ ((same_float a b ≡ true) × Rest)

  -- More bandwidth; with the same, less latency; and then a lower load ratio, fewer requests in
  -- flight, fewer queries, and less use of the GPUs, each where those before are the same.
  abbrev pub IsPreferred : Option (Kdn R) → Proxy R → Proxy R → Type 0
  IsPreferred k p q = IsLessOr (link k q).0 (link k p).0 (
      IsLessOr (link k p).1 (link k q).1 (
        IsLessOr (load_ratio p) (load_ratio q) (
          (p.inflight < q.inflight)
          ⊎ ((p.inflight ≡ q.inflight)
              × IsLessOr p.qps_1m q.qps_1m (f.le p.gpu_util q.gpu_util ≡ true)))))

module _ {R : Type 0} ⦃f : Floats R⦄ (ord : IsOrdered f) where
  -- A proxy of least value, and the test by that value.
  lowest_of :
      (g : Proxy R → R) (ps : List (Proxy R))
      → ps ≢ []
      → (low : Proxy R) × Member low ps
        × (least g ps ≡ g low)
        × ((p : Proxy R) → Member p ps → f.le (g low) (g p) ≡ true)
  lowest_of g ps ne =
      let (low, m, e) = least-Member ord g ps ne in
      (
        low,
        m,
        e,
        λ p m'.
            subst (λ x. f.le x (g p) ≡ true) e
              (All-Member (λ q. f.le (least g ps) (g q) ≡ true) ps p (least-le ord g ps) m'),
      )

  gpu_safe_on :
      (w : Window R) (safe : List (Proxy R))
      → safe ≢ []
      → lt zero_f w.gpu_delta ≡ true
      → gpu_safe w safe
        ≡ keep (λ p. f.le p.gpu_util (f.add (least (λ q. q.gpu_util) safe) w.gpu_delta)) safe
  unfolding gpu_safe
  gpu_safe_on w safe ne h =
      let lowest = least (λ q. q.gpu_util) safe in
      let (coolest, m, e) = least-Member ord (λ q. q.gpu_util) safe ne in
      let above : f.le zero_f w.gpu_delta ≡ true =
        ground (arith, ord.le_total zero_f w.gpu_delta) in
      let within =
        subst (λ x. f.le x (f.add lowest w.gpu_delta) ≡ true) e
          (ord.add_grows lowest w.gpu_delta above) in
      rw h (
        or_else-left _ safe (
          Member-nonempty coolest _ (
            Member-keep_in (λ p. f.le p.gpu_util (f.add lowest w.gpu_delta)) coolest safe m
              within)))

  -- The GPU window, around a proxy of least use.
  pub Member-gpu_safe_iff :
      (w : Window R) (safe : List (Proxy R))
      → safe ≢ []
      → (coolest : Proxy R) × Member coolest safe
        × ((p : Proxy R) → Member p safe → f.le coolest.gpu_util p.gpu_util ≡ true)
        × ((p : Proxy R) → Member p (gpu_safe w safe) ↔ (Member p safe × IsNearGpu w coolest p))
  unfolding gpu_safe
  Member-gpu_safe_iff w safe ne =
      let (coolest, m, e, low) = lowest_of (λ p. p.gpu_util) safe ne in
      (
        coolest,
        m,
        low,
        λ p. elim (Bool-cases (lt zero_f w.gpu_delta)) [
          | inl h ↦
              let eq = gpu_safe_on w safe ne h in
              (
                λ m'.
                    let (found, t) = Member-keep_out _ p safe (subst (Member p) eq m') in
                    (found, inr (subst (λ x. f.le p.gpu_util (f.add x w.gpu_delta) ≡ true) e t)),
                λ (found, t). elim t [
                  | inl off ↦ absurd (cc)
                  | inr near ↦ subst (Member p) (sym eq) (
                      Member-keep_in _ p safe found
                        (subst (λ x. f.le p.gpu_util (f.add x w.gpu_delta) ≡ true) (sym e) near))
                ],
              )
          | inr h ↦ (
            λ m'. (let found : Member p safe = rw h at m' in found, inl h),
            λ (found, t). rw h found,
          )
        ],
      )

  pub near_itself : (w : Window R) (p : Proxy R) → IsNearLoad w p p
  near_itself w p =
      ord.add_grows (load_ratio p) (float_max zero_f w.load_ratio_delta)
        (float_max-le ord zero_f w.load_ratio_delta).0

  -- The load window, around a proxy of the least load ratio.
  pub Member-load_safe_iff :
      (w : Window R) (pool : List (Proxy R))
      → pool ≢ []
      → (lowest : Proxy R) × Member lowest pool
        × ((p : Proxy R) → Member p pool → f.le (load_ratio lowest) (load_ratio p) ≡ true)
        × ((p : Proxy R) → Member p (load_safe w pool) ↔ (Member p pool × IsNearLoad w lowest p))
  Member-load_safe_iff w pool ne =
      let (lowest, m, e, low) = lowest_of load_ratio pool ne in
      let eq = load_safe_lem ord w pool ne in
      let delta = float_max zero_f w.load_ratio_delta in
      (
        lowest,
        m,
        low,
        λ p. (
          λ m'.
              let (found, t) =
                Member-keep_out (in_window ord w pool) p pool (subst (Member p) eq m') in
              (found, subst (λ x. f.le (load_ratio p) (f.add x delta) ≡ true) e t),
          λ (found, near). subst (Member p) (sym eq) (
              Member-keep_in (in_window ord w pool) p pool found
                (subst (λ x. f.le (load_ratio p) (f.add x delta) ≡ true) (sym e) near)),
        ),
      )

fewer_or :
    {Rest : Type 0} (a b : ℕ) (rest : Bool)
    → (rest ≡ true → Rest)
    → (if leb b a then (if leb a b then rest else false) else true) ≡ true
    → (a < b) ⊎ ((a ≡ b) × Rest)
fewer_or a b rest next h = elim (Bool-cases (leb b a)) [
  | inl e ↦ inr (ground arith, next (ground arith))
  | inr e ↦ inl (ground arith)
]

module _ {R : Type 0} ⦃f : Floats R⦄ where
  less_or :
      {Rest : Type 0} (a b : R) (rest : Bool)
      → (rest ≡ true → Rest)
      → (if f.le b a then (if f.le a b then rest else false) else true) ≡ true
      → IsLessOr a b Rest
  less_or a b rest next h = elim (Bool-cases (f.le b a)) [
    | inl e ↦ inr (ground arith, next (ground arith))
    | inr e ↦ inl (ground arith)
  ]

  pub better-IsPreferred :
      (k : Option (Kdn R)) (p q : Proxy R) → better k p q ≡ true → IsPreferred k p q
  better-IsPreferred k p q = less_or (link k q).0 (link k p).0 _ (
      less_or (link k p).1 (link k q).1 _ (
        less_or (load_ratio p) (load_ratio q) _
          (fewer_or p.inflight q.inflight _ (less_or p.qps_1m q.qps_1m _ (λ h. h)))))
