-- ===== src/Scheduler/KdnSync/Refresh.antt =====
-- `refresh_kdn_knowledge_index`, `select_kdn_base_url` and `kdn_refresh_once` of
-- scheduler/knowledge/kdn_sync.py. A refresh runs under its lock, so it is one step.
use cache_route.Common.{
  ◌+◌, ◌%◌, true, false, Option, none, some, List, [], ◌∷◌, ◌++◌, length, get_elem?, or_default,
  if◌then◌else◌,
}
use cache_route.Common.Table.{Table}
use cache_route.Common.Table
use cache_route.Common.Text.{Text}
use cache_route.Cacheroute.State.{Result}
use cache_route.Store.KnowledgeTable.{normal, is_empty}
use cache_route.Scheduler.KdnSync.{
  MetaItem, FullItem, IndexEntry, SyncState, RefreshError, RefreshResult, diff_kdn_meta, base_table,
  is_none, fetched, update_table,
}

-- A live KDN in the pool's order: its identifier and its `kdn://host:port`.
pub record Kdn : Type 0 where
  pub kdn_id : Text
  pub kdn_addr : Text

-- `meta_by_kid`
unfoldable pub meta_by_kid : List MetaItem → Table IndexEntry → Table IndexEntry
meta_by_kid [] index = index
meta_by_kid (it ∷ items) index = meta_by_kid items (
    if is_empty (normal it.kid)
    then index
    else Table.insert (normal it.kid)
        (record {
          entry_length = or_default it.signature.item_length 0;
          entry_kv_ready = or_default it.signature.kv_ready 0;
        })
        index)

-- `refresh_kdn_knowledge_index`
unfoldable pub index_from :
    List Kdn
    → (Text → Option (List MetaItem))
    → Table (Table IndexEntry)
    → Option (Table (Table IndexEntry))
unfolding meta_by_kid
index_from [] snapshot index = some index
index_from (k ∷ kdns) snapshot index = elim (snapshot k.kdn_addr) [
  | none ↦ none
  | some items ↦
      let m = meta_by_kid items [] in
      index_from kdns snapshot (Table.insert k.kdn_addr m (Table.insert k.kdn_id m index))
]

-- `[_format_kdn_addr(x.host, x.port) for x in alive]`
abbrev pub addresses : List Kdn → List Text
addresses [] = []
addresses (k ∷ kdns) = k.kdn_addr ∷ addresses kdns

module _ {R : Type 0} where
  -- The refresh once the metadata is there.
  unfoldable pub refresh_from :
      List MetaItem
      → List Text
      → (List Text → Option (List (FullItem R)))
      → SyncState R
      → SyncState R × Result RefreshError RefreshResult
  unfolding base_table update_table
  refresh_from items alive fetch s =
      let d = diff_kdn_meta items s.meta_cache in
      let s' = record s { meta_cache = d.new_cache } in
      elim (base_table s) [
        | none ↦ (s', Result.failed RefreshError.no_embedder)
        | some t ↦ elim (fetched (d.diff_added ++ d.diff_updated) fetch) [
          | none ↦ (s', Result.failed RefreshError.fetch_failed)
          | some full ↦ elim (update_table d alive full (is_none s.knowledge_table) t) [
            | Result.failed e ↦ (s', Result.failed (RefreshError.table_error e))
            | Result.ok t' ↦ (
              record s' { knowledge_table = some t'; last_refresh_ok = some true },
              Result.ok (
                  RefreshResult.refreshed (length d.diff_added) (length d.diff_updated)
                    (length d.removed) (length t'.units)),
            )
          ]
        ]
      ]

  -- `kdn_refresh_once`. The pool is listed twice: `listed` are the servers whose answers `indexed` go
  -- into the index, `alive` those of which one is asked again, in turn, and answers `snapshot`.
  unfoldable pub kdn_refresh_once :
      List Kdn
      → (Text → Option (List MetaItem))
      → List Kdn
      → (Text → Option (List MetaItem))
      → (Text → List Text → Option (List (FullItem R)))
      → SyncState R
      → SyncState R × Result RefreshError RefreshResult
  unfolding index_from refresh_from
  kdn_refresh_once listed indexed alive snapshot fetch s = elim (index_from listed indexed []) [
    | none ↦ (s, Result.failed RefreshError.fetch_failed)
    | some index ↦
        let s' = record s { knowledge_index = index } in
        elim (get_elem? alive (s.kdn_rr_idx % length alive)) [
          | none ↦ (record s' { last_refresh_ok = some false }, Result.ok RefreshResult.no_alive)
          | some chosen ↦
              let s'' = record s' { kdn_rr_idx = s.kdn_rr_idx + 1 } in
              elim (snapshot chosen.kdn_addr) [
                | none ↦ (s'', Result.failed RefreshError.fetch_failed)
                | some items ↦ refresh_from items (addresses alive) (fetch chosen.kdn_addr) s''
              ]
        ]
  ]
