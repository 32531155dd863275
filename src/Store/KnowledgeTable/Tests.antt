-- ===== src/Store/KnowledgeTable/Tests.antt =====
-- The table of knowledge with two kids whose first 16 digits are the same.
use cache_route.Common.{ℕ, ◌≡◌, ◌≢◌, refl, true, false, none, some, List, [], ◌∷◌}
use cache_route.Common.Table
use cache_route.Common.Text.{Text, codes, lower, strip, text_eq, text_eq_iff}
use cache_route.Store.KnowledgeTable.{
  KnowledgeTable, KnowledgeUnit, build_faiss_index, upsert_kid, register_kid, kid_to_int64,
  kid_tail_int64, new_table, delete_kids, clone_without_index,
}
use cache_route.Store.KnowledgeTable.Changes.{Change, run, run-distinct}
use cache_route.Store.KnowledgeTable.Index.{owners, keys, build_faiss_index-owners}

abbrev unit : KnowledgeUnit ℕ
unit = record {
  embedding = 7 ∷ [];
  unit_length = 5;
  avail_llm_systems = [];
  avail_kdn_servers = [];
  text_abstract = none;
  default_servers = [];
  kv_ready = 0;
  kv_rel_dir = none;
  kv_dumped_keys = none;
  kv_updated_at = none;
  full_content = none;
}

abbrev first_kid : Text
first_kid = codes "00000000000000aa01"

abbrev second_kid : Text
second_kid = codes "00000000000000aa02"

abbrev changes : List (Change ℕ)
changes =
    Change.upsert_one first_kid unit
    ∷ Change.upsert_one (codes "0b") unit
    ∷ Change.upsert_one second_kid unit
    ∷ Change.delete_all (codes "0b" ∷ [])
    ∷ Change.clone
    ∷ []

first_kid-second_kid : first_kid ≢ second_kid
unfolding text_eq
first_kid-second_kid e =
    let same : false ≡ true = (text_eq_iff first_kid second_kid).1 e in absurd (cc)

run-distinct_example :
    (m : ℕ) × (n : ℕ) × (Table.lookup first_kid (run changes (new_table 1)).kid_to_i64 ≡ some m)
    × (Table.lookup second_kid (run changes (new_table 1)).kid_to_i64 ≡ some n)
    × (m ≢ n)
unfolding run clone_without_index delete_kids upsert_kid lower strip new_table register_kid
    kid_to_int64 text_eq kid_tail_int64
run-distinct_example = run-distinct 1 changes first_kid second_kid refl refl first_kid-second_kid

abbrev built : KnowledgeTable ℕ
built = record (run changes (new_table 1)) { faiss_index = some (170 ∷ 43522 ∷ []) }

build_faiss_index-owners_example :
    owners (170 ∷ 43522 ∷ []) built ≡ keys (run changes (new_table 1)).units
unfolding run build_faiss_index clone_without_index delete_kids upsert_kid lower strip new_table
    register_kid kid_to_int64 text_eq kid_tail_int64
build_faiss_index-owners_example =
    build_faiss_index-owners 1 changes built (170 ∷ 43522 ∷ []) refl refl
