-- ===== src/Scheduler/KdnSync/Comparison.antt =====
-- What the comparison of a snapshot with the cache finds.
use cache_route.Common.{
  ◌≡◌, refl, ap, true, false, not, ◌&&◌, ◌||◌, List, [], ◌∷◌, ◌++◌, arith, Bool-cases, inl, inr,
}
use cache_route.Common.Table.{
  Table, IsTable, lookup-insert, insert-IsTable, erase-IsTable, lookup-erase_ne, lookup-erase_self,
}
use cache_route.Common.Table
use cache_route.Common.Text.{Text, contains, text_eq, text_eq_iff}
use cache_route.Scheduler.KdnSync.{
  MetaItem, Signature, Diff, Scan, scan_items, unseen, pop_all, diff_kdn_meta,
}
use cache_route.Scheduler.KdnSync.Scanned.{
  kids, has, contains-append, scan_items-IsScanned, scan_items-IsTable, scan_items-seen,
}

-- What is popped are the entries that were not seen.
contains-unseen :
    (k : Text) (seen : List Text) (cache : Table Signature)
    → contains k (unseen seen cache) ≡ (has k cache && not (contains k seen))
unfolding unseen contains
contains-unseen k seen [] = refl
contains-unseen k seen ((j, sig) ∷ cache) = ground (
  arith,
  text_eq_iff k j,
  contains-unseen k seen cache,
  ap (λ x. contains x seen) {x = k} {y = j},
)

has-erase :
    {V : Type 0} (k j : Text) (d : Table V)
    → IsTable d
    → has k (Table.erase j d) ≡ (has k d && not (text_eq k j))
has-erase k j d u = elim (Bool-cases (text_eq k j)) [
  | inl e ↦ ground (
    arith,
    text_eq_iff k j,
    ap (λ x. Table.lookup x (Table.erase j d)) {x = k} {y = j},
    lookup-erase_self j d u,
  )
  | inr e ↦ ground (arith, text_eq_iff k j, lookup-erase_ne k j d)
]

has-pop_all :
    (k : Text) (ks : List Text) (cache : Table Signature)
    → IsTable cache
    → (has k (pop_all ks cache) ≡ (has k cache && not (contains k ks)))
unfolding pop_all contains
has-pop_all k [] cache u = ground arith
has-pop_all k (j ∷ ks) cache u =
    ground (
      arith,
      has-pop_all k ks (Table.erase j cache) (erase-IsTable j cache u),
      has-erase k j cache u,
    )

pop_all-IsTable :
    (ks : List Text) (cache : Table Signature) → IsTable cache → IsTable (pop_all ks cache)
unfolding pop_all
pop_all-IsTable [] cache u = u
pop_all-IsTable (k ∷ ks) cache u =
    pop_all-IsTable ks (Table.erase k cache) (erase-IsTable k cache u)

-- What a comparison finds, at the kid `k`.
pub record IsDiff (k : Text) (items : List MetaItem) (cache : Table Signature) (d : Diff)
    : Type 0 where
  pub now_cached : has k d.new_cache ≡ contains k (kids items)
  pub applied :
      ((has k cache || contains k (d.diff_added ++ d.diff_updated)) && not (contains k d.removed))
      ≡ contains k (kids items)
  pub removed_known : contains k d.removed ≡ true → has k cache ≡ true
  pub asked_listed :
      contains k (d.diff_added ++ d.diff_updated) ≡ true → contains k (kids items) ≡ true
  pub added_unknown : has k cache ≡ true → contains k d.diff_added ≡ false
  pub unique : IsTable d.new_cache

pub diff_kdn_meta-IsDiff :
    (k : Text) (items : List MetaItem) (cache : Table Signature)
    → IsTable cache
    → IsDiff k items cache (diff_kdn_meta items cache)
unfolding diff_kdn_meta contains
diff_kdn_meta-IsDiff k items cache u =
    let s0 : Scan = record { cache = cache; seen = []; added = []; updated = [] } in
    let s = scan_items items s0 in
    let h = scan_items-IsScanned k cache items s0 (record {
      cached = ground arith;
      was_there = λ e. absurd (cc);
      changed_seen = λ e. absurd (cc);
      added_new = λ e. refl;
      seen_cached = λ e. absurd (cc);
    }) in
    let u' = scan_items-IsTable items s0 u in
    let seen = scan_items-seen k items s0 in
    let gone = contains-unseen k s.seen s.cache in
    let left = has-pop_all k (unseen s.seen s.cache) s.cache u' in
    let both = contains-append k s.added s.updated in
    record {
      now_cached = ground (arith, seen, gone, left);
      applied = ground (arith, seen, gone, both);
      removed_known = λ e. ground (arith, gone);
      asked_listed = λ e. ground (arith, seen, both, h.changed_seen);
      added_unknown = h.added_new;
      unique = pop_all-IsTable (unseen s.seen s.cache) s.cache u';
    }
