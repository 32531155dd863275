-- ===== src/Scheduler/CacheRoute/Ranking.antt =====
-- The ranking of the last candidates by `_select_proxy`, and the choice among the tied ones.
use cache_route.Common.{
  false, leb, ap, ◌∙◌, ℕ, ◌%◌, ◌≡◌, ◌≢◌, ◌<◌, ◌⊎◌, refl, sym, subst, Bool, true, ◌&&◌, Option, some,
  List, [], ◌∷◌, keep, All, Member, ltb, length, get_elem?-Member, Member-keep_out, Bool-cases, inl,
  inr, arith,
}
use cache_route.Common.Floats.{Floats, IsOrdered}
use cache_route.Common.Sort.{sort, Member-sort}
use cache_route.Scheduler.CacheRoute.{Kdn}
use cache_route.Scheduler.CacheRoute.Proxies.{
  link, Proxy, load_ratio, least, better, ranks, choose_ranked,
}
use cache_route.Common.Sort.{first-sort}
use cache_route.Common.Lex.{IsPreorder, lex-IsPreorder, ascending-IsPreorder, lex}

&&-left : (a b : Bool) → a && b ≡ true → a ≡ true
&&-left a b h = ground arith

module _ {R : Type 0} ⦃f : Floats R⦄ (ord : IsOrdered f) where
  float-IsPreorder : (g : Proxy R → R) → IsPreorder (λ a b. f.le (g a) (g b))
  float-IsPreorder g = record {
    total = λ a b. ord.le_total (g a) (g b);
    trans = λ a b c. ord.le_trans (g a) (g b) (g c);
  }

  float_down-IsPreorder : (g : Proxy R → R) → IsPreorder (λ a b. f.le (g b) (g a))
  float_down-IsPreorder g = record {
    total = λ a b. ord.le_total (g b) (g a);
    trans = λ a b c h h'. ord.le_trans (g c) (g b) (g a) h' h;
  }

  better-IsPreorder : (k : Option (Kdn R)) → IsPreorder (better k)
  better-IsPreorder k = lex-IsPreorder _ _ (float_down-IsPreorder (λ p. (link k p).0)) (
      lex-IsPreorder _ _ (float-IsPreorder (λ p. (link k p).1)) (
        lex-IsPreorder _ _ (float-IsPreorder load_ratio) (
          lex-IsPreorder _ _ (ascending-IsPreorder (λ p. p.inflight)) (
            lex-IsPreorder _ _ (float-IsPreorder (λ p. p.qps_1m))
              (float-IsPreorder (λ p. p.gpu_util))))))

  ranks-IsPreorder : (k : Option (Kdn R)) → IsPreorder (ranks k)
  ranks-IsPreorder k =
      lex-IsPreorder _ _ (better-IsPreorder k) (ascending-IsPreorder (λ p. p.proxy_id))

  lex-left :
      {A : Type 0} (le le' : A → A → Bool) (a b : A)
      → lex le le' a b ≡ true
      → (le a b ≡ true) ⊎ (le b a ≡ false)
  lex-left le le' a b h = ground arith

  ranks-better : (k : Option (Kdn R)) (a b : Proxy R) → ranks k a b ≡ true → better k a b ≡ true
  ranks-better k a b h = elim (lex-left (better k) (λ a b. leb a.proxy_id b.proxy_id) a b h) [
    | inl e ↦ e
    | inr e ↦ elim ((better-IsPreorder k).total a b) [
      | inl e' ↦ e'
      | inr e' ↦ absurd (ground (arith, e, e'))
    ]
  ]

  choose_ranked_lem :
      (k : Option (Kdn R)) (best : Proxy R) (others : List (Proxy R)) (cursor : ℕ)
      → (p : Proxy R) × ((choose_ranked k (best ∷ others) cursor).0 ≡ some p)
        × Member p (best ∷ others)
        × (better k p best ≡ true)
  unfolding choose_ranked
  choose_ranked_lem k best others cursor =
      let tied = keep (λ p. better k p best && better k best p) (best ∷ others) in
      elim (Bool-cases (ltb 1 (length tied))) [
        | inl e ↦
            let low : cursor % length tied < length tied = ground arith in
            let (p, got, m) = get_elem?-Member tied (cursor % length tied) low in
            let (found, same) =
              Member-keep_out (λ p. better k p best && better k best p) p (best ∷ others) m in
            (p, rw e got, found, &&-left _ _ same)
        | inr e ↦ (best, rw e refl, inl refl, reflexive)
      ]
    where
      reflexive : better k best best ≡ true
      reflexive = elim ((better-IsPreorder k).total best best) [ inl e ↦ e | inr e ↦ e ]

  better-All :
      (k : Option (Kdn R)) (p best : Proxy R) (ps : List (Proxy R))
      → better k p best ≡ true
      → All (λ q. ranks k best q ≡ true) ps
      → All (λ q. better k p q ≡ true) ps
  better-All k p best [] h hs = tt
  better-All k p best (q ∷ qs) h hs = (
    (better-IsPreorder k).trans p best q h (ranks-better k best q hs.0),
    better-All k p best qs h hs.1,
  )

  -- From candidates that are not empty, one is chosen to which none is preferred by its link or its
  -- load.
  pub choose_ranked-better :
      (k : Option (Kdn R)) (ps : List (Proxy R)) (cursor : ℕ)
      → ps ≢ []
      → (p : Proxy R) × ((choose_ranked k (sort (ranks k) ps) cursor).0 ≡ some p)
        × Member p ps
        × All (λ q. better k p q ≡ true) ps
  choose_ranked-better k ps cursor ne =
      let (best, rest, sorted, m, least) = first-sort (ranks k) ps (ranks-IsPreorder k) ne in
      let (p, e, found, h) = choose_ranked_lem k best rest cursor in
      (
        p,
        ap (λ ranked. (choose_ranked k ranked cursor).0) sorted ∙ e,
        Member-sort (ranks k) p ps (subst (Member p) (sym sorted) found),
        better-All k p best ps h least,
      )
