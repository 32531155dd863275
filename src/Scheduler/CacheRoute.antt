-- ===== src/Scheduler/CacheRoute.antt =====
-- scheduler/strategy/cacheroute.py: the choice of a knowledge server (KDN) by `CacheRouteStrategy`.
-- Identifiers are numbers in the order of their texts. What the strategy logs and counts for its
-- debug page is left out.
pub mod Choice
pub mod Proxies
pub mod Ranking
pub mod Windows
pub mod Safe
pub mod Selection
mod Tests
use cache_route.Common.{
  ℕ, ◌+◌, Bool, true, false, not, ◌&&◌, ◌||◌, Option, none, some, List, [], ◌∷◌, ◌==◌, ltb, leb,
  if◌then◌else◌, or_default, keep,
}
use cache_route.Common.Dict.{Dict, lookup}
use cache_route.Common.Floats.{Floats, lt}
use cache_route.Common.Lex.{lex}
use cache_route.Common.Sort.{sort}

-- A KDN as the scheduler hands it on, with its `meta`; a key that is missing is `none`.
pub record Kdn (R : Type 0) : Type 0 where
  pub kdn_id : ℕ
  pub kdn_addr : ℕ
  pub items : ℕ
  pub qps_1m : R
  pub pending_transfers : Option ℕ
  pub active_transfers : Option ℕ
  pub network_queue_ms_ema : Option R
  pub meta_overloaded : Bool
  pub meta_pending_transfers : Option ℕ
  pub meta_active_transfers : Option ℕ
  pub meta_network_queue_ms_ema : Option R

-- The thresholds; zero turns one off.
pub record Thresholds (R : Type 0) : Type 0 where
  pub qps : R
  pub items : ℕ
  pub pending : ℕ
  pub active : ℕ
  pub queue_ms : R

-- What a KDN's index says of a piece of knowledge.
pub record KnowledgeMeta : Type 0 where
  pub kv_ready : ℕ
  pub length : ℕ

abbrev pub KnowledgeIndex : Type 0
KnowledgeIndex = Dict (Dict KnowledgeMeta)

-- What a KDN has of the wanted knowledge.
pub record Coverage : Type 0 where
  pub text_full : Bool
  pub kv_cover_len : ℕ
  pub missing_count : ℕ

-- `kdn.get(key, meta.get(key, 0))`
abbrev pub get_or {ℓ} : {A : Type ℓ} → Option A → Option A → A → A
get_or (some a) m d = a
get_or none (some a) d = a
get_or none none d = d

-- `xs[0] if xs else None`
abbrev pub head? {ℓ} : {A : Type ℓ} → List A → Option A
head? [] = none
head? (x ∷ xs) = some x

-- `th > 0 and value >= th`
abbrev pub reaches : ℕ → ℕ → Bool
reaches value th = ltb 0 th && leb th value

-- `knowledge_index.get(kdn_id) or knowledge_index.get(kdn_addr) or {}`
unfoldable pub meta_by_kid : KnowledgeIndex → ℕ → ℕ → Dict KnowledgeMeta
meta_by_kid index kdn_id kdn_addr = elim (lookup kdn_id index) [
  | some (entry ∷ entries) ↦ entry ∷ entries
  | _ ↦ or_default (lookup kdn_addr index) []
]

-- The loop over `knowledge_list`.
unfoldable pub coverage : Dict KnowledgeMeta → List ℕ → Coverage
coverage known [] = record { text_full = true; kv_cover_len = 0; missing_count = 0 }
coverage known (kid ∷ kids) =
    let rest = coverage known kids in
    elim (lookup kid known) [
      | none ↦ record {
        text_full = false;
        kv_cover_len = rest.kv_cover_len;
        missing_count = rest.missing_count + 1;
      }
      | some item ↦ record rest {
        kv_cover_len = (if item.kv_ready == 1 then item.length else 0) + rest.kv_cover_len;
      }
    ]

module _ {R : Type 0} ⦃f : Floats R⦄ where
  abbrev pub reaches_float : R → R → Bool
  reaches_float value th = lt (f.of_ℕ 0) th && f.le th value

  -- `_is_overloaded_by_threshold`
  unfoldable pub is_overloaded : Thresholds R → Kdn R → Bool
  is_overloaded th k =
      k.meta_overloaded
      || reaches_float k.qps_1m th.qps
      || reaches k.items th.items
      || reaches (get_or k.pending_transfers k.meta_pending_transfers 0) th.pending
      || reaches (get_or k.active_transfers k.meta_active_transfers 0) th.active
      || reaches_float (get_or k.network_queue_ms_ema k.meta_network_queue_ms_ema (f.of_ℕ 0))
          th.queue_ms

  -- `(qps, items, kdn_id)`, which ends each of the three keys.
  abbrev pub lighter : Kdn R → Kdn R → Bool
  lighter =
      lex (λ a b. f.le a.qps_1m b.qps_1m)
        (lex (λ a b. leb a.items b.items) (λ a b. leb a.kdn_id b.kdn_id))

module _ {R : Type 0} ⦃f : Floats R⦄ (th : Thresholds R) (index : KnowledgeIndex)
    (kids : List ℕ) where
  unfoldable pub coverage_of : Kdn R → Coverage
  unfolding coverage meta_by_kid
  coverage_of k = coverage (meta_by_kid index k.kdn_id k.kdn_addr) kids

  -- `False` sorts before `True`.
  abbrev pub overloaded_code : Kdn R → ℕ
  overloaded_code k = if is_overloaded th k then 1 else 0

  abbrev pub text_code : Kdn R → ℕ
  text_code k = if (coverage_of k).text_full then 0 else 1

  -- The key of the fallback without knowledge, as a comparison.
  abbrev pub least_loaded : Kdn R → Kdn R → Bool
  least_loaded = lex (λ a b. leb (overloaded_code a) (overloaded_code b)) lighter

  -- `usable_key`
  abbrev pub usable_first : Kdn R → Kdn R → Bool
  usable_first = lex (λ a b. leb (coverage_of b).kv_cover_len (coverage_of a).kv_cover_len) lighter

  -- `key`
  abbrev pub ranked_first : Kdn R → Kdn R → Bool
  ranked_first =
      lex (λ a b. leb (text_code a) (text_code b))
        (lex (λ a b. leb (overloaded_code a) (overloaded_code b))
          (lex (λ a b. leb (coverage_of b).kv_cover_len (coverage_of a).kv_cover_len)
            (lex (λ a b. leb (coverage_of a).missing_count (coverage_of b).missing_count) lighter)))

  -- Complete text coverage, and not overloaded.
  abbrev pub is_usable : Kdn R → Bool
  is_usable k = (coverage_of k).text_full && not (is_overloaded th k)

  -- From `usable_rows` if there are any, and else from all.
  abbrev pub choose_from : List (Kdn R) → List (Kdn R) → Option (Kdn R)
  choose_from kdns [] = head? (sort ranked_first kdns)
  choose_from kdns (k ∷ ks) = head? (sort usable_first (k ∷ ks))

  -- The case of some wanted knowledge.
  abbrev pub select_for_knowledge : List (Kdn R) → Option (Kdn R)
  select_for_knowledge kdns = choose_from kdns (keep is_usable kdns)

  -- `_select_kdn`
  unfoldable pub select_kdn : List (Kdn R) → Option (Kdn R)
  select_kdn kdns = elim kids [
    | [] ↦ head? (sort least_loaded kdns)
    | kid ∷ rest ↦ select_for_knowledge kdns
  ]
