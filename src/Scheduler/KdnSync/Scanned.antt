-- ===== src/Scheduler/KdnSync/Scanned.antt =====
-- What the scan of a snapshot does to the cache.
use cache_route.Common.{
  ◌≡◌, ◌⊎◌, refl, ap, ◌∙◌, Bool, true, false, ◌||◌, Option, none, some, List, [], ◌∷◌, ◌++◌,
  is_some, arith, Bool-cases, Option-cases, inl, inr, if◌then◌else◌,
}
use cache_route.Common.Table.{
  Table, IsTable, lookup-insert, insert-IsTable, erase-IsTable, lookup-erase_ne, lookup-erase_self,
}
use cache_route.Common.Table
use cache_route.Common.Text.{Text, contains, text_eq_iff}
use cache_route.Store.KnowledgeTable.{normal, is_empty}
use cache_route.Scheduler.KdnSync.{
  MetaItem, Signature, Scan, same_signature, scan_kid, scan_item, scan_items,
}

-- The kids of a snapshot, in normal form.
abbrev pub kids : List MetaItem → List Text
kids [] = []
kids (it ∷ items) = if is_empty (normal it.kid) then kids items else normal it.kid ∷ kids items

-- Whether the table has an entry for the kid.
abbrev pub has {ℓ} : {V : Type ℓ} → Text → Table V → Bool
has k d = is_some (Table.lookup k d)

pub contains-append :
    (k : Text) (xs ys : List Text) → contains k (xs ++ ys) ≡ (contains k xs || contains k ys)
unfolding contains
contains-append k [] ys = refl
contains-append k (x ∷ xs) ys = ground (arith, contains-append k xs ys)

-- What the scan has done since the cache was `old`, at the kid `k`.
pub record IsScanned (k : Text) (old : Table Signature) (s : Scan) : Type 0 where
  pub cached : has k s.cache ≡ (has k old || contains k s.added)
  pub was_there : contains k s.updated ≡ true → has k s.cache ≡ true
  pub changed_seen : (contains k s.added || contains k s.updated) ≡ true → contains k s.seen ≡ true
  pub added_new : has k old ≡ true → contains k s.added ≡ false
  pub seen_cached : contains k s.seen ≡ true → has k s.cache ≡ true

scan_new-IsScanned :
    (k : Text) (old : Table Signature) (kid : Text) (sig : Signature) (s : Scan)
    → Table.lookup kid s.cache ≡ none
    → IsScanned k old s
    → IsScanned k old (scan_kid kid sig none s)
unfolding contains
scan_new-IsScanned k old kid sig s e h = ground (
  arith,
  text_eq_iff k kid,
  lookup-insert k kid sig s.cache,
  contains-append k s.added (kid ∷ []),
)

scan_known-IsScanned :
    (k : Text) (old : Table Signature) (kid : Text) (sig known : Signature) (s : Scan)
    → Table.lookup kid s.cache ≡ some known
    → IsScanned k old s
    → IsScanned k old (scan_kid kid sig (some known) s)
unfolding contains
scan_known-IsScanned k old kid sig known s e h = elim (Bool-cases (same_signature known sig)) [
  | inl same ↦ rw same (ground (arith, text_eq_iff k kid))
  | inr other ↦ rw other (
      ground (
        arith,
        text_eq_iff k kid,
        lookup-insert k kid sig s.cache,
        contains-append k s.updated (kid ∷ []),
      ))
]

scan_kid-cases :
    (P : Scan → Type 0) (kid : Text) (sig : Signature) (s : Scan)
    → (Table.lookup kid s.cache ≡ none → P (scan_kid kid sig none s))
    → ((known : Signature)
        → Table.lookup kid s.cache ≡ some known
        → P (scan_kid kid sig (some known) s))
    → P (scan_kid kid sig (Table.lookup kid s.cache) s)
scan_kid-cases P kid sig s new again = elim (Option-cases (Table.lookup kid s.cache)) [
  | inl e ↦ rw e (new e)
  | inr (known, e) ↦ rw e (again known e)
]

pub scan_items-IsScanned :
    (k : Text) (old : Table Signature) (items : List MetaItem) (s : Scan)
    → IsScanned k old s
    → IsScanned k old (scan_items items s)
unfolding scan_items
scan_items-IsScanned k old [] s h = h
scan_items-IsScanned k old (it ∷ items) s h =
    scan_items-IsScanned k old items (scan_item it s) (one (Bool-cases (is_empty (normal it.kid))))
  where
    one :
        (is_empty (normal it.kid) ≡ true) ⊎ (is_empty (normal it.kid) ≡ false)
        → IsScanned k old (scan_item it s)
    one (inl e) = rw e h
    one (inr e) = rw e (
        scan_kid-cases (IsScanned k old) (normal it.kid) it.signature s
          (λ e'. scan_new-IsScanned k old (normal it.kid) it.signature s e' h)
          (λ known e'. scan_known-IsScanned k old (normal it.kid) it.signature known s e' h))

scan_kid-IsTable :
    (kid : Text) (sig : Signature) (known : Option Signature) (s : Scan)
    → IsTable s.cache
    → IsTable (scan_kid kid sig known s).cache
scan_kid-IsTable kid sig none s u = insert-IsTable kid sig s.cache u
scan_kid-IsTable kid sig (some known) s u = elim (Bool-cases (same_signature known sig)) [
  | inl same ↦ rw same u
  | inr other ↦ rw other (insert-IsTable kid sig s.cache u)
]

scan_kid-seen :
    (kid : Text) (sig : Signature) (known : Option Signature) (s : Scan)
    → (scan_kid kid sig known s).seen ≡ kid ∷ s.seen
scan_kid-seen kid sig none s = refl
scan_kid-seen kid sig (some known) s = ground (arith)

pub scan_items-IsTable :
    (items : List MetaItem) (s : Scan) → IsTable s.cache → IsTable (scan_items items s).cache
unfolding scan_items
scan_items-IsTable [] s u = u
scan_items-IsTable (it ∷ items) s u =
    scan_items-IsTable items (scan_item it s) (one (Bool-cases (is_empty (normal it.kid))))
  where
    one :
        (is_empty (normal it.kid) ≡ true) ⊎ (is_empty (normal it.kid) ≡ false)
        → IsTable (scan_item it s).cache
    one (inl e) = rw e u
    one (inr e) =
        rw e
          (scan_kid-IsTable (normal it.kid) it.signature (Table.lookup (normal it.kid) s.cache) s u)

scan_item-seen :
    (it : MetaItem) (s : Scan)
    → (scan_item it s).seen ≡ (if is_empty (normal it.kid) then s.seen else normal it.kid ∷ s.seen)
scan_item-seen it s = elim (Bool-cases (is_empty (normal it.kid))) [
  | inl e ↦ rw e refl
  | inr e ↦
      rw e (scan_kid-seen (normal it.kid) it.signature (Table.lookup (normal it.kid) s.cache) s)
]

-- All kids of the snapshot are seen, and no others.
pub scan_items-seen :
    (k : Text) (items : List MetaItem) (s : Scan)
    → contains k (scan_items items s).seen ≡ (contains k (kids items) || contains k s.seen)
unfolding scan_items contains
scan_items-seen k [] s = refl
scan_items-seen k (it ∷ items) s =
    scan_items-seen k items (scan_item it s)
    ∙ ap (λ x. contains k (kids items) || contains k x) (scan_item-seen it s)
    ∙ order (is_empty (normal it.kid))
  where
    order :
        (b : Bool)
        → (contains k (kids items) || contains k (if b then s.seen else normal it.kid ∷ s.seen))
          ≡ (contains k (if b then kids items else normal it.kid ∷ kids items) || contains k s.seen)
    order true = refl
    order false = ground arith
