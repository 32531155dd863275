-- ===== src/Scheduler/RoundRobin/Independent.antt =====
-- The rotation of proxies over a sequence of requests, by way of the round robin of proxy/strategy.
use cache_route.Common.{
  ℕ, ◌%◌, ◌≡◌, ◌<◌, refl, ap, ◌∙◌, Option, some, List, [], ◌∷◌, ◌++◌, map, length, take, drop,
}
use cache_route.Proxy.Strategy
use cache_route.Proxy.Strategy.RoundRobin.Rotation.{picks, picks_round}
use cache_route.Scheduler.RoundRobin.{RoundRobin, turn, select}

-- One list's turn is a call of the proxy's strategy.
turn-select :
    {A : Type 0} (xs : List A) (cursor : ℕ)
    → turn xs cursor
      ≡ let (a, s) = Strategy.RoundRobin.select xs (record { idx = cursor }) in (a, s.idx)
unfolding turn Strategy.RoundRobin.select
turn-select [] cursor = refl
turn-select (x ∷ xs) cursor = refl

module _ {K P : Type 0} where
  -- The proxies chosen for requests that each see other KDNs.
  pub chosen_proxies : List (List K) → List P → RoundRobin → List (Option P)
  chosen_proxies [] proxies s = []
  chosen_proxies (kdns ∷ requests) proxies s =
      let (chosen, s') = select kdns proxies s in chosen.1 ∷ chosen_proxies requests proxies s'

  chosen_proxies-picks :
      (requests : List (List K)) (proxies : List P) (s : RoundRobin)
      → chosen_proxies requests proxies s
        ≡ picks (length requests) proxies (record { idx = s.proxy_cursor })
  unfolding chosen_proxies select picks
  chosen_proxies-picks [] proxies s = refl
  chosen_proxies-picks (kdns ∷ requests) proxies s =
      let (chosen, s') = Strategy.RoundRobin.select proxies (record { idx = s.proxy_cursor }) in
      let cursor = (turn kdns s.kdn_cursor).1 in
      rw (turn-select proxies s.proxy_cursor) (
        ap (◌∷◌ chosen) (
          chosen_proxies-picks requests proxies
            (record { kdn_cursor = cursor; proxy_cursor = s'.idx })))

  -- As many requests as there are proxies are spread over all of them, each once and in turn, from
  -- the one that the cursor points at, whichever KDNs each request sees.
  pub chosen_proxies_round :
      (requests : List (List K)) (proxies : List P) (s : RoundRobin)
      → 0 < length proxies
      → length requests ≡ length proxies
      → let k = s.proxy_cursor % length proxies in
        chosen_proxies requests proxies s ≡ map some (drop k proxies ++ take k proxies)
  chosen_proxies_round requests proxies s pos e =
      chosen_proxies-picks requests proxies s
      ∙ ap (λ n. picks n proxies (record { idx = s.proxy_cursor })) e
      ∙ picks_round proxies (record { idx = s.proxy_cursor }) pos
