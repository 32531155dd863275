-- ===== src/Store/KnowledgeTable.antt =====
-- `KnowledgeTable` of store/knowledge_base.py, as the refresh from the knowledge servers uses it. The
-- vector index of the faiss library is the list of the numbers that it is built with. A kid is read
-- as hexadecimal by its digits alone; what else Python's int takes does not occur in kids.

pub mod Changes
pub mod Index
pub mod Numbers
pub mod Units
mod Tests
use cache_route.Common.{
  ℕ, zero, suc, ◌+◌, ◌-◌, ◌*◌, ◌%◌, Bool, true, false, not, ◌&&◌, Option, none, some, List, [], ◌∷◌,
  ◌==◌, leb, length, take, drop, if◌then◌else◌, is_some,
}
use cache_route.Common.Dict.{Dict}
use cache_route.Common.Dict
use cache_route.Common.Table.{Table}
use cache_route.Common.Table
use cache_route.Common.Text.{Text, strip, lower, text_eq}
use cache_route.Cacheroute.State.{Result}

pub record KnowledgeUnit (R : Type 0) : Type 0 where
  pub embedding : List R
  pub unit_length : ℕ
  pub avail_llm_systems : List Text
  pub avail_kdn_servers : List Text
  pub text_abstract : Option Text
  pub default_servers : List Text
  pub kv_ready : ℕ
  pub kv_rel_dir : Option Text
  pub kv_dumped_keys : Option ℕ
  pub kv_updated_at : Option ℕ
  pub full_content : Option Text

pub record KnowledgeTable (R : Type 0) : Type 0 where
  pub dim : ℕ
  pub units : Table (KnowledgeUnit R)
  pub next_id : ℕ
  pub default_servers : List Text
  pub kid_to_i64 : Table ℕ
  pub i64_to_kid : Dict Text
  pub faiss_index : Option (List ℕ)

pub data TableError : Type 0 where
  empty_kid dim_mismatch not_hexadecimal collision : TableError

-- The value of a hexadecimal digit.
digit : ℕ → Option ℕ
digit c =
    if leb b'0' c && leb c b'9'
    then some (c - b'0')
    else if leb b'a' c && leb c b'f'
    then some (c - b'a' + 10)
    else none

-- `int(s, 16)` after the digits already read.
hex_from : ℕ → Text → Option ℕ
unfolding digit
hex_from n [] = some n
hex_from n (c ∷ s) = elim (digit c) [ none ↦ none | some d ↦ hex_from (n * 16 + d) s ]

hex : Text → Option ℕ
unfolding hex_from
hex [] = none
hex (c ∷ s) = hex_from 0 (c ∷ s)

-- `x & 0x7fffffffffffffff`
abbrev pub cleared : Option ℕ → Option ℕ
cleared none = none
cleared (some n) = some (n % 9_223_372_036_854_775_808)

-- `_kid_to_int64`, of a kid that is stripped and in lower case.
unfoldable pub kid_to_int64 : Text → Option ℕ
unfolding hex
kid_to_int64 kid = cleared (hex (take 16 kid))

-- The same of `kid[-16:]`.
unfoldable pub kid_tail_int64 : Text → Option ℕ
unfolding hex
kid_tail_int64 kid = cleared (hex (drop (length kid - 16) kid))

abbrev pub normal : Text → Text
normal kid = lower (strip kid)

abbrev pub is_empty : Text → Bool
is_empty [] = true
is_empty (c ∷ s) = false

-- The number belongs to another kid.
abbrev pub taken_from : Option Text → Text → Bool
taken_from none kid = false
taken_from (some owner) kid = not (text_eq owner kid)

abbrev pub forget : Option ℕ → Dict Text → Dict Text
forget none d = d
forget (some i64) d = Dict.erase i64 d

module _ {R : Type 0} where
  abbrev pub enter : Text → ℕ → KnowledgeTable R → KnowledgeTable R
  enter kid i64 t = record t {
    kid_to_i64 = Table.insert kid i64 t.kid_to_i64;
    i64_to_kid = Dict.insert i64 kid t.i64_to_kid;
  }

  -- The second number, if the first is another kid's.
  unfoldable pub register_tail :
      Text → Option ℕ → KnowledgeTable R → Result TableError (KnowledgeTable R)
  register_tail kid none t = Result.failed TableError.not_hexadecimal
  register_tail kid (some i64) t =
      if taken_from (Dict.lookup i64 t.i64_to_kid) kid
      then Result.failed TableError.collision
      else Result.ok (enter kid i64 t)

  unfoldable pub register_head :
      Text → Option ℕ → KnowledgeTable R → Result TableError (KnowledgeTable R)
  unfolding register_tail
  register_head kid none t = Result.failed TableError.not_hexadecimal
  register_head kid (some i64) t =
      if taken_from (Dict.lookup i64 t.i64_to_kid) kid
      then register_tail kid (kid_tail_int64 kid) t
      else Result.ok (enter kid i64 t)

  -- `_register_kid`
  unfoldable pub register_kid : Text → KnowledgeTable R → Result TableError (KnowledgeTable R)
  unfolding register_head
  register_kid kid t = register_head (normal kid) (kid_to_int64 (normal kid)) t

  -- `upsert_kid`
  unfoldable pub upsert_kid :
      Text → KnowledgeUnit R → KnowledgeTable R → Result TableError (KnowledgeTable R)
  upsert_kid kid unit t =
      if is_empty (normal kid)
      then Result.failed TableError.empty_kid
      else if not (length unit.embedding == t.dim)
      then Result.failed TableError.dim_mismatch
      else elim (register_kid (normal kid) t) [
        | Result.failed e ↦ Result.failed e
        | Result.ok t' ↦ Result.ok (record t' { units = Table.insert (normal kid) unit t'.units })
      ]

  abbrev pub delete_kid : Text → KnowledgeTable R → KnowledgeTable R
  delete_kid kid t =
      if is_some (Table.lookup kid t.units)
      then record t {
        units = Table.erase kid t.units;
        kid_to_i64 = Table.erase kid t.kid_to_i64;
        i64_to_kid = forget (Table.lookup kid t.kid_to_i64) t.i64_to_kid;
      }
      else t

  -- `delete_kids`
  unfoldable pub delete_kids : List Text → KnowledgeTable R → KnowledgeTable R
  delete_kids [] t = t
  delete_kids (kid ∷ kids) t = delete_kids kids (delete_kid (normal kid) t)

  -- `clone_without_index`
  unfoldable pub clone_without_index : KnowledgeTable R → KnowledgeTable R
  clone_without_index t = record t { faiss_index = none }

  -- `KnowledgeTable(dim=dim)`
  unfoldable pub new_table : ℕ → KnowledgeTable R
  new_table dim = record {
    dim = dim;
    units = [];
    next_id = 0;
    default_servers = [];
    kid_to_i64 = [];
    i64_to_kid = [];
    faiss_index = none;
  }

  registered : Text → KnowledgeTable R → Result TableError (ℕ × KnowledgeTable R)
  registered kid t = elim (register_kid kid t) [
    | Result.failed e ↦ Result.failed e
    | Result.ok t' ↦ elim (Table.lookup (normal kid) t'.kid_to_i64) [
      | none ↦ Result.failed TableError.not_hexadecimal
      | some i ↦ Result.ok (i, t')
    ]
  ]

  -- A kid that has no number, or 0, is registered again.
  kid_number : Text → Option ℕ → KnowledgeTable R → Result TableError (ℕ × KnowledgeTable R)
  unfolding registered
  kid_number kid none t = registered kid t
  kid_number kid (some zero) t = registered kid t
  kid_number kid (some (suc i)) t = Result.ok (suc i, t)

  -- The numbers of the units' kids.
  numbers :
      Table (KnowledgeUnit R) → KnowledgeTable R → Result TableError (List ℕ × KnowledgeTable R)
  unfolding kid_number
  numbers [] t = Result.ok ([], t)
  numbers ((kid, unit) ∷ units) t = elim (kid_number kid (Table.lookup kid t.kid_to_i64) t) [
    | Result.failed e ↦ Result.failed e
    | Result.ok (i, t') ↦ elim (numbers units t') [
      | Result.failed e ↦ Result.failed e
      | Result.ok (ids, t'') ↦ Result.ok (i ∷ ids, t'')
    ]
  ]

  -- The table with an index of these units.
  indexed : Table (KnowledgeUnit R) → KnowledgeTable R → Result TableError (KnowledgeTable R)
  unfolding numbers
  indexed [] t = Result.ok (record t { faiss_index = none })
  indexed (entry ∷ units) t = elim (numbers (entry ∷ units) t) [
    | Result.failed e ↦ Result.failed e
    | Result.ok (ids, t') ↦ Result.ok (record t' { faiss_index = some ids })
  ]

  -- `build_faiss_index`, with the faiss library installed.
  unfoldable pub build_faiss_index : KnowledgeTable R → Result TableError (KnowledgeTable R)
  unfolding indexed
  build_faiss_index t = indexed t.units t
