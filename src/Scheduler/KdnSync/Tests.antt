-- ===== src/Scheduler/KdnSync/Tests.antt =====
-- A refresh run on a server with two kids, from an empty table and one that fails.
use cache_route.Common.{
  ℕ, ◌≡◌, refl, ap, ◌%◌, get_elem?, true, false, Option, none, some, List, [], ◌∷◌, map, arith,
  ◌||◌, ◌∙◌,
}
use cache_route.Common.Table.{IsTable}
use cache_route.Common.Text.{Text, lower, strip, text_eq, text_eq_iff, codes, contains}
use cache_route.Store.KnowledgeTable.{
  upsert_kid, new_table, register_kid, kid_to_int64, build_faiss_index,
}
use cache_route.Scheduler.KdnSync.{MetaItem, FullItem, SyncState, RefreshError, diff_kdn_meta}
use cache_route.Scheduler.KdnSync.Refresh.{Kdn, refresh_from, kdn_refresh_once}
use cache_route.Scheduler.KdnSync.Scanned.{kids, has}
use cache_route.Scheduler.KdnSync.Applied.{delivered, IsKid, units_of}
use cache_route.Scheduler.KdnSync.Mirror.{
  IsMirror, IsHonest, refresh_from-failed, kdn_refresh_once-IsMirror,
}

abbrev server : Kdn
server = record { kdn_id = codes "k1"; kdn_addr = codes "kdn://h:1" }

abbrev listed : Text → MetaItem
listed kid = record {
  kid = kid;
  signature = record {
    embed_dim = some 1;
    item_length = some 5;
    kv_ready = some 1;
    kv_updated_at = none;
    kv_dumped_keys = none;
  };
}

abbrev full_item : Text → FullItem ℕ
full_item kid = record {
  full_kid = kid;
  embedding = some (7 ∷ []);
  item_length = 5;
  content = codes "text";
  full_kv_ready = 1;
  kv_rel_dir = none;
  full_kv_dumped_keys = none;
  full_kv_updated_at = none;
}

-- A server that has all that it is asked for.
abbrev answer : List Text → Option (List (FullItem ℕ))
answer ks = some (map full_item ks)

-- A server that does not answer.
abbrev silent : List Text → Option (List (FullItem ℕ))
silent ks = none

abbrev empty_state : SyncState ℕ
empty_state = record {
  meta_cache = [];
  knowledge_table = none;
  embedder_dim = some 1;
  knowledge_index = [];
  kdn_rr_idx = 4;
  last_refresh_ok = none;
}

empty_state-IsMirror : IsMirror empty_state
empty_state-IsMirror = record {
  cache_unique = tt;
  units_unique = tt;
  kid_normal = λ k e. absurd (cc);
  same_kids = λ k. refl;
}

delivered-answer :
    (k : Text) (ks : List Text)
    → ((j : Text) → contains j ks ≡ true → IsKid j)
    → contains k (delivered (map full_item ks)) ≡ contains k ks
unfolding contains
delivered-answer k [] h = refl
delivered-answer k (j ∷ ks) h =
    let (same, kept) = h j (ground (arith, text_eq_iff j j)) in
    let rest = delivered-answer k ks (λ i e. h i (ground arith)) in
    rw (same, kept) (ap (λ x. text_eq k j || x) rest)

answer-IsHonest : IsHonest answer
answer-IsHonest ks full k e h =
    let same : full ≡ map full_item ks = cc in
    ap (λ x. contains k (delivered x)) same ∙ delivered-answer k ks h

abbrev two_kids : List MetaItem
two_kids = listed (codes "0a") ∷ listed (codes " 1B ") ∷ listed [] ∷ []

abbrev after : SyncState ℕ
after =
    (kdn_refresh_once (server ∷ []) (λ addr. some []) (server ∷ []) (λ addr. some two_kids)
      (λ addr. answer) empty_state).0

kdn_refresh_once-IsMirror_example :
    (chosen : Kdn) × (items : List MetaItem) × (get_elem? (server ∷ []) (4 % 1) ≡ some chosen)
    × (some two_kids ≡ some items)
    × ((k : Text) → has k (units_of after.knowledge_table) ≡ contains k (kids items))
    × IsMirror after
unfolding kdn_refresh_once diff_kdn_meta lower strip text_eq upsert_kid new_table register_kid
    kid_to_int64 build_faiss_index
kdn_refresh_once-IsMirror_example =
    kdn_refresh_once-IsMirror (server ∷ []) (λ addr. some []) (server ∷ []) (λ addr. some two_kids)
      (λ addr. answer) empty_state after 2 0 0 2 (λ addr. answer-IsHonest) empty_state-IsMirror refl

abbrev forgotten : SyncState ℕ
forgotten = (refresh_from two_kids [] silent empty_state).0

refresh_from-failed_example :
    (forgotten ≡ record empty_state { meta_cache = forgotten.meta_cache })
    × IsTable forgotten.meta_cache
    × ((k : Text) → has k forgotten.meta_cache ≡ contains k (kids two_kids))
    × ((k : Text) (later : List MetaItem)
        → contains k (kids two_kids) ≡ true
        → contains k (diff_kdn_meta later forgotten.meta_cache).diff_added ≡ false)
unfolding refresh_from diff_kdn_meta lower strip text_eq
refresh_from-failed_example =
    refresh_from-failed two_kids [] silent empty_state forgotten RefreshError.fetch_failed tt refl
