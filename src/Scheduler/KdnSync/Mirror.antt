-- ===== src/Scheduler/KdnSync/Mirror.antt =====
-- The table of knowledge as a mirror of the snapshots, and what a failed refresh does to it.
use cache_route.Common.{
  ℕ, ◌≡◌, ◌⊎◌, refl, sym, ap, subst, ◌∙◌, true, false, Option, none, some, List, [], ◌∷◌, ◌++◌, ◌+◌,
  ◌%◌, get_elem?, length, Option-cases, inl, inr,
}
use cache_route.Common.Table.{IsTable}
use cache_route.Common.Text.{Text, contains}
use cache_route.Cacheroute.State.{Result, Result-cases}
use cache_route.Store.KnowledgeTable.{KnowledgeTable, normal}
use cache_route.Scheduler.KdnSync.{
  MetaItem, Diff, FullItem, SyncState, RefreshError, RefreshResult, diff_kdn_meta, base_table,
  is_none, fetched, update_table,
}
use cache_route.Scheduler.KdnSync.Refresh.{
  Kdn, addresses, index_from, refresh_from, kdn_refresh_once,
}
use cache_route.Scheduler.KdnSync.Applied.{
  delivered, contains-normal, kids-IsKid, IsKid, units_of, update_table-has, base_table-units,
}
use cache_route.Scheduler.KdnSync.Comparison.{IsDiff, diff_kdn_meta-IsDiff}
use cache_route.Scheduler.KdnSync.Scanned.{kids, has}

module _ {R : Type 0} where
  -- The units are those of the cache: each has the same kids, once and in normal form.
  pub record IsMirror (s : SyncState R) : Type 0 where
    pub cache_unique : IsTable s.meta_cache
    pub units_unique : IsTable (units_of s.knowledge_table)
    pub kid_normal : (k : Text) → has k s.meta_cache ≡ true → normal k ≡ k
    pub same_kids : (k : Text) → has k (units_of s.knowledge_table) ≡ has k s.meta_cache

  -- What is fetched has an embedding for each kid that is asked for, and only those.
  abbrev pub IsHonest : (List Text → Option (List (FullItem R))) → Type 0
  IsHonest fetch =
      (ks : List Text) (full : List (FullItem R)) (k : Text)
      → fetch ks ≡ some full
      → ((j : Text) → contains j ks ≡ true → IsKid j)
      → contains k (delivered full) ≡ contains k ks

  fetched-delivered :
      (fetch : List Text → Option (List (FullItem R))) (ks : List Text) (full : List (FullItem R))
      (k : Text)
      → IsHonest fetch
      → fetched ks fetch ≡ some full
      → ((j : Text) → contains j ks ≡ true → IsKid j)
      → contains k (delivered full) ≡ contains k ks
  fetched-delivered fetch [] full k honest e h =
      let nothing : full ≡ [] = cc in ap (λ x. contains k (delivered x)) nothing
  fetched-delivered fetch (j ∷ ks) full k honest e h = honest (j ∷ ks) full k e h

  -- The units after the steps of a refresh.
  updated-has :
      (k : Text) (items : List MetaItem) (alive : List Text)
      (fetch : List Text → Option (List (FullItem R))) (s : SyncState R) (t t' : KnowledgeTable R)
      (full : List (FullItem R))
      → IsHonest fetch
      → IsMirror s
      → let d = diff_kdn_meta items s.meta_cache in
        base_table s ≡ some t
        → fetched (d.diff_added ++ d.diff_updated) fetch ≡ some full
        → update_table d alive full (is_none s.knowledge_table) t ≡ Result.ok t'
        → (has k t'.units ≡ contains k (kids items)) × IsTable t'.units
  updated-has k items alive fetch s t t' full honest h based got ok =
      let d = diff_kdn_meta items s.meta_cache in
      let units = base_table-units s t based in
      let (now, unique) =
        update_table-has k d alive full (is_none s.knowledge_table) t t'
          (subst IsTable (sym units) h.units_unique) ok in
      let gone = contains-normal k d.removed (λ j e.
        h.kid_normal j
          ((diff_kdn_meta-IsDiff j items s.meta_cache h.cache_unique).removed_known e)) in
      let came = fetched-delivered fetch (d.diff_added ++ d.diff_updated) full k honest got (λ j e.
        kids-IsKid j items
          ((diff_kdn_meta-IsDiff j items s.meta_cache h.cache_unique).asked_listed e)) in
      let was = ap (has k) units ∙ h.same_kids k in
      let diff = diff_kdn_meta-IsDiff k items s.meta_cache h.cache_unique in
      (now ∙ rw (was, came, gone) diff.applied, unique)

  -- A refresh that succeeds keeps the table a mirror, and what it mirrors is the snapshot.
  pub refresh_from-IsMirror :
      (items : List MetaItem) (alive : List Text) (fetch : List Text → Option (List (FullItem R)))
      (s s' : SyncState R) (r : RefreshResult)
      → IsHonest fetch
      → IsMirror s
      → refresh_from items alive fetch s ≡ (s', Result.ok r)
      → ((k : Text) → has k (units_of s'.knowledge_table) ≡ contains k (kids items)) × IsMirror s'
  unfolding refresh_from
  refresh_from-IsMirror items alive fetch s s' r honest h e = elim (Option-cases (base_table s)) [
    | inl nothing ↦ let e' = rw (refresh_from, nothing) at e in absurd (cc)
    | inr (t, based) ↦ elim (Option-cases (fetched (d.diff_added ++ d.diff_updated) fetch)) [
      | inl lost ↦ let e' = rw (refresh_from, based, lost) at e in absurd (cc)
      | inr (full, got) ↦
          elim (Result-cases (update_table d alive full (is_none s.knowledge_table) t)) [
            | inl (x, failed) ↦ let e' = rw (refresh_from, based, got, failed) at e in absurd (cc)
            | inr (t', ok) ↦
                let e' = rw (refresh_from, based, got, ok) at e in
                let now =
                  λ (k : Text). updated-has k items alive fetch s t t' full honest h based got ok in
                subst
                  (λ x.
                    ((k : Text) → has k (units_of x.knowledge_table) ≡ contains k (kids items))
                    × IsMirror x)
                  (ap (λ x. x.0) e')
                  (
                    λ k. (now k).0,
                    record {
                      cache_unique = (diff []).unique;
                      units_unique = (now []).1;
                      kid_normal =
                          λ k cached. (kids-IsKid k items (sym (diff k).now_cached ∙ cached)).0;
                      same_kids = λ k. (now k).0 ∙ sym (diff k).now_cached;
                    },
                  )
          ]
    ]
  ]
    where
      d : Diff
      d = diff_kdn_meta items s.meta_cache

      diff : (k : Text) → IsDiff k items s.meta_cache d
      diff k = diff_kdn_meta-IsDiff k items s.meta_cache h.cache_unique

  -- If a refresh fails once it has a snapshot, all but the cache stays as it was, whatever the table
  -- has; yet the cache has exactly the snapshot's kids from then on, each once again, so that none of
  -- them is among the new ones of the next comparison. The cache is a dict, with each kid once before.
  pub refresh_from-failed :
      (items : List MetaItem) (alive : List Text) (fetch : List Text → Option (List (FullItem R)))
      (s s' : SyncState R) (x : RefreshError)
      → IsTable s.meta_cache
      → refresh_from items alive fetch s ≡ (s', Result.failed x)
      → (s' ≡ record s { meta_cache = s'.meta_cache })
        × IsTable s'.meta_cache
        × ((k : Text) → has k s'.meta_cache ≡ contains k (kids items))
        × ((k : Text) (later : List MetaItem)
            → contains k (kids items) ≡ true
            → contains k (diff_kdn_meta later s'.meta_cache).diff_added ≡ false)
  unfolding refresh_from
  refresh_from-failed items alive fetch s s' x u e =
      subst
        (λ x.
          (x ≡ record s { meta_cache = x.meta_cache })
          × IsTable x.meta_cache
          × ((k : Text) → has k x.meta_cache ≡ contains k (kids items))
          × ((k : Text) (later : List MetaItem)
              → contains k (kids items) ≡ true
              → contains k (diff_kdn_meta later x.meta_cache).diff_added ≡ false))
        (same (Option-cases (base_table s)))
        (
          refl,
          (diff []).unique,
          (λ k. (diff k).now_cached),
          λ k later known.
              (diff_kdn_meta-IsDiff k later d.new_cache (diff k).unique).added_unknown
                ((diff k).now_cached ∙ known),
        )
    where
      d : Diff
      d = diff_kdn_meta items s.meta_cache

      diff : (k : Text) → IsDiff k items s.meta_cache d
      diff k = diff_kdn_meta-IsDiff k items s.meta_cache u

      same :
          (base_table s ≡ none) ⊎ ((t : KnowledgeTable R) × (base_table s ≡ some t))
          → record s { meta_cache = d.new_cache } ≡ s'
      same (inl nothing) = let e' = rw (refresh_from, nothing) at e in ap (λ x. x.0) e'
      same (inr (t, based)) = elim (Option-cases (fetched (d.diff_added ++ d.diff_updated) fetch)) [
        | inl lost ↦ let e' = rw (refresh_from, based, lost) at e in ap (λ x. x.0) e'
        | inr (full, got) ↦
            elim (Result-cases (update_table d alive full (is_none s.knowledge_table) t)) [
              | inl (y, failed) ↦
                  let e' = rw (refresh_from, based, got, failed) at e in ap (λ x. x.0) e'
              | inr (t', ok) ↦ let e' = rw (refresh_from, based, got, ok) at e in absurd (cc)
            ]
      ]

  -- If the table had the kids of the cache, and a server answers a fetch with an item with an
  -- embedding for each kid that it was asked for, and with none for another, then a refresh that
  -- succeeds and is not skipped takes the snapshot of the server whose turn it is among those that
  -- its second listing gives, and afterwards the table's kids are exactly that snapshot's, each
  -- once, and they are the cache's kids again. What the first listing and the answers for the index
  -- were does not matter.
  pub kdn_refresh_once-IsMirror :
      (listed : List Kdn) (indexed : Text → Option (List MetaItem)) (alive : List Kdn)
      (snapshot : Text → Option (List MetaItem))
      (fetch : Text → List Text → Option (List (FullItem R))) (s s' : SyncState R)
      (added updated removed entries : ℕ)
      → ((addr : Text) → IsHonest (fetch addr))
      → IsMirror s
      → kdn_refresh_once listed indexed alive snapshot fetch s
        ≡ (s', Result.ok (RefreshResult.refreshed added updated removed entries))
      → (chosen : Kdn) × (items : List MetaItem) × (get_elem? alive (s.kdn_rr_idx % length alive)
          ≡ some chosen)
        × (snapshot chosen.kdn_addr ≡ some items)
        × ((k : Text) → has k (units_of s'.knowledge_table) ≡ contains k (kids items))
        × IsMirror s'
  unfolding kdn_refresh_once
  kdn_refresh_once-IsMirror listed indexed alive snapshot fetch s s' added updated removed entries
        honest h e =
      elim (Option-cases (index_from listed indexed [])) [
        | inl lost ↦ let e' = rw (kdn_refresh_once, lost) at e in absurd (cc)
        | inr (index, made) ↦ elim (Option-cases (get_elem? alive (s.kdn_rr_idx % length alive))) [
          | inl nobody ↦ let e' = rw (kdn_refresh_once, made, nobody) at e in absurd (cc)
          | inr (chosen, turn) ↦ elim (Option-cases (snapshot chosen.kdn_addr)) [
            | inl lost ↦ let e' = rw (kdn_refresh_once, made, turn, lost) at e in absurd (cc)
            | inr (items, got) ↦
                let e' = rw (kdn_refresh_once, made, turn, got) at e in
                let (now, mirror) =
                  refresh_from-IsMirror items (addresses alive) (fetch chosen.kdn_addr)
                    (record s { knowledge_index = index; kdn_rr_idx = s.kdn_rr_idx + 1 }) s'
                    (RefreshResult.refreshed added updated removed entries) (honest chosen.kdn_addr)
                    (record {
                      cache_unique = h.cache_unique;
                      units_unique = h.units_unique;
                      kid_normal = h.kid_normal;
                      same_kids = h.same_kids;
                    })
                    e' in
                (chosen, items, turn, got, now, mirror)
          ]
        ]
      ]
