-- ===== src/Scheduler/KdnSync.antt =====
-- scheduler/knowledge/kdn_sync.py: the refresh of the scheduler's table of knowledge from a
-- knowledge server (KDN). What the servers answer is an argument, and a request that fails, which
-- raises, is `none`. The numbers of a record are not negative.
pub mod Refresh
pub mod Comparison
pub mod Scanned
pub mod Applied
pub mod Mirror
mod Tests
use cache_route.Common.{
  ℕ, ◌+◌, ◌%◌, Bool, true, false, not, ◌&&◌, ◌||◌, Option, none, some, List, [], ◌∷◌, ◌++◌, ◌==◌,
  length, get_elem?, if◌then◌else◌, or_default, map,
}
use cache_route.Common.Table.{Table}
use cache_route.Common.Table
use cache_route.Common.Text.{Text, text_eq, contains}
use cache_route.Cacheroute.State.{Result}
use cache_route.Store.KnowledgeTable.{
  KnowledgeTable, KnowledgeUnit, TableError, normal, is_empty, upsert_kid, delete_kids,
  clone_without_index, new_table, build_faiss_index,
}

-- A signature in `_kdn_meta_cache`.
pub record Signature : Type 0 where
  pub embed_dim : Option ℕ
  pub item_length : Option ℕ
  pub kv_ready : Option ℕ
  pub kv_updated_at : Option ℕ
  pub kv_dumped_keys : Option ℕ

-- An item of the metadata snapshot; a missing kid is the empty text.
pub record MetaItem : Type 0 where
  pub kid : Text
  pub signature : Signature

abbrev pub same_value : Option ℕ → Option ℕ → Bool
same_value none none = true
same_value (some m) (some n) = m == n
same_value m n = false

abbrev pub same_signature : Signature → Signature → Bool
same_signature a b =
    same_value a.embed_dim b.embed_dim
    && same_value a.item_length b.item_length
    && same_value a.kv_ready b.kv_ready
    && same_value a.kv_updated_at b.kv_updated_at
    && same_value a.kv_dumped_keys b.kv_dumped_keys

-- The variables of the loop in `diff_kdn_meta`.
pub record Scan : Type 0 where
  pub cache : Table Signature
  pub seen : List Text
  pub added : List Text
  pub updated : List Text

-- One item whose kid is normal and not empty.
abbrev pub scan_kid : Text → Signature → Option Signature → Scan → Scan
scan_kid kid sig none s = record {
  cache = Table.insert kid sig s.cache;
  seen = kid ∷ s.seen;
  added = s.added ++ kid ∷ [];
  updated = s.updated;
}
scan_kid kid sig (some old) s =
    if same_signature old sig then record s { seen = kid ∷ s.seen } else record s {
      cache = Table.insert kid sig s.cache;
      seen = kid ∷ s.seen;
      updated = s.updated ++ kid ∷ [];
    }

abbrev pub scan_item : MetaItem → Scan → Scan
scan_item it s =
    if is_empty (normal it.kid)
    then s
    else scan_kid (normal it.kid) it.signature (Table.lookup (normal it.kid) s.cache) s

unfoldable pub scan_items : List MetaItem → Scan → Scan
scan_items [] s = s
scan_items (it ∷ items) s = scan_items items (scan_item it s)

-- The keys that were not seen.
unfoldable pub unseen : List Text → Table Signature → List Text
unfolding contains
unseen seen [] = []
unseen seen ((k, sig) ∷ cache) =
    if contains k seen then unseen seen cache else k ∷ unseen seen cache

unfoldable pub pop_all : List Text → Table Signature → Table Signature
pop_all [] cache = cache
pop_all (k ∷ ks) cache = pop_all ks (Table.erase k cache)

pub record Diff : Type 0 where
  pub diff_added : List Text
  pub diff_updated : List Text
  pub removed : List Text
  pub new_cache : Table Signature

-- `diff_kdn_meta`
unfoldable pub diff_kdn_meta : List MetaItem → Table Signature → Diff
unfolding scan_items unseen pop_all
diff_kdn_meta items cache =
    let s = scan_items items (record { cache = cache; seen = []; added = []; updated = [] }) in
    record {
      diff_added = s.added;
      diff_updated = s.updated;
      removed = unseen s.seen s.cache;
      new_cache = pop_all (unseen s.seen s.cache) s.cache;
    }

-- An item with its content; without an embedding it is `none` there.
pub record FullItem (R : Type 0) : Type 0 where
  pub full_kid : Text
  pub embedding : Option (List R)
  pub item_length : ℕ
  pub content : Text
  pub full_kv_ready : ℕ
  pub kv_rel_dir : Option Text
  pub full_kv_dumped_keys : Option ℕ
  pub full_kv_updated_at : Option ℕ

-- What `kdn_knowledge_index` says of a kid.
pub record IndexEntry : Type 0 where
  pub entry_length : ℕ
  pub entry_kv_ready : ℕ

-- The scheduler's state that a refresh reads and writes, with the module's cache.
pub record SyncState (R : Type 0) : Type 0 where
  pub meta_cache : Table Signature
  pub knowledge_table : Option (KnowledgeTable R)
  pub embedder_dim : Option ℕ
  pub knowledge_index : Table (Table IndexEntry)
  pub kdn_rr_idx : ℕ
  pub last_refresh_ok : Option Bool

pub data RefreshError : Type 0 where
  fetch_failed no_embedder : RefreshError
  table_error : TableError → RefreshError

-- What a refresh returns; `no_alive` is the answer that it was skipped.
pub data RefreshResult : Type 0 where
  no_alive : RefreshResult
  refreshed : ℕ → ℕ → ℕ → ℕ → RefreshResult

abbrev pub nonempty_list : List Text → Bool
nonempty_list [] = false
nonempty_list (x ∷ xs) = true

module _ {R : Type 0} where
  abbrev pub unit_of : FullItem R → List R → List Text → KnowledgeUnit R
  unit_of it embedding alive = record {
    embedding = embedding;
    unit_length = it.item_length;
    avail_llm_systems = [];
    avail_kdn_servers = alive;
    text_abstract = some it.content;
    default_servers = [];
    kv_ready = it.full_kv_ready;
    kv_rel_dir = it.kv_rel_dir;
    kv_dumped_keys = it.full_kv_dumped_keys;
    kv_updated_at = it.full_kv_updated_at;
    full_content = some it.content;
  }

  -- Step B on one item; whether anything changed goes with the table.
  abbrev pub apply_item :
      FullItem R → List Text → KnowledgeTable R × Bool → Result TableError (KnowledgeTable R × Bool)
  apply_item it alive (t, changed) =
      if is_empty (normal it.full_kid) then Result.ok (t, changed) else elim it.embedding [
        | none ↦ Result.ok (t, changed)
        | some embedding ↦ elim (upsert_kid (normal it.full_kid) (unit_of it embedding alive) t) [
          | Result.failed e ↦ Result.failed e
          | Result.ok t' ↦ Result.ok (t', true)
        ]
      ]

  unfoldable pub apply_items :
      List (FullItem R)
      → List Text
      → KnowledgeTable R × Bool
      → Result TableError (KnowledgeTable R × Bool)
  apply_items [] alive t = Result.ok t
  apply_items (it ∷ items) alive t = elim (apply_item it alive t) [
    | Result.failed e ↦ Result.failed e
    | Result.ok t' ↦ apply_items items alive t'
  ]

  -- The table that changes are applied to.
  unfoldable pub base_table : SyncState R → Option (KnowledgeTable R)
  base_table s = elim s.knowledge_table [
    | some t ↦ some (clone_without_index t)
    | none ↦ elim s.embedder_dim [ none ↦ none | some dim ↦ some (new_table dim) ]
  ]

  abbrev pub is_none : Option (KnowledgeTable R) → Bool
  is_none none = true
  is_none (some t) = false

  -- What is fetched: nothing is asked for where nothing is needed.
  abbrev pub fetched :
      List Text → (List Text → Option (List (FullItem R))) → Option (List (FullItem R))
  fetched [] fetch = some []
  fetched (k ∷ ks) fetch = fetch (k ∷ ks)

  -- Steps B to D on the base table.
  unfoldable pub update_table :
      Diff
      → List Text
      → List (FullItem R)
      → Bool
      → KnowledgeTable R
      → Result TableError (KnowledgeTable R)
  unfolding apply_items
  update_table d alive items first t = elim (apply_items items alive (t, false)) [
    | Result.failed e ↦ Result.failed e
    | Result.ok (t', changed) ↦
        let t'' = if nonempty_list d.removed then delete_kids d.removed t' else t' in
        if first || changed || nonempty_list d.removed then build_faiss_index t'' else Result.ok t''
  ]
