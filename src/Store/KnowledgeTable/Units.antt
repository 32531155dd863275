-- ===== src/Store/KnowledgeTable/Units.antt =====
-- What the operations of the table of knowledge do to its units.
use cache_route.Common.{
  ℕ, zero, suc, ◌≡◌, sym, ap, not, ◌&&◌, Option, none, some, List, [], ◌∷◌, map, arith, Bool-cases,
  Option-cases, inl, inr,
}
use cache_route.Common.Table.{
  Table, IsTable, lookup-insert, insert-IsTable, erase-IsTable, lookup-erase_ne, lookup-erase_self,
}
use cache_route.Common.Table
use cache_route.Common.Dict
use cache_route.Common.Text.{Text, text_eq, text_eq_iff, contains}
use cache_route.Cacheroute.State.{Result, Result-cases}
use cache_route.Store.KnowledgeTable.{
  KnowledgeTable, KnowledgeUnit, normal, register_kid, register_head, register_tail, upsert_kid,
  delete_kids, delete_kid, build_faiss_index, numbers, kid_to_int64, kid_tail_int64, enter,
  taken_from, registered, kid_number, indexed,
}

module _ {R : Type 0} where
  register_tail-units :
      (kid : Text) (i : Option ℕ) (t t' : KnowledgeTable R)
      → register_tail kid i t ≡ Result.ok t'
      → t'.units ≡ t.units
  unfolding register_tail
  register_tail-units kid none t t' e = absurd (cc)
  register_tail-units kid (some i) t t' e =
      elim (Bool-cases (taken_from (Dict.lookup i t.i64_to_kid) kid)) [
        | inl other ↦ let e' = rw other at e in absurd (cc)
        | inr own ↦
            let e' : Result.ok (enter kid i t) ≡ Result.ok t' = rw own at e in
            let same : enter kid i t ≡ t' = cc in sym (ap (λ x. x.units) same)
      ]

  register_head-units :
      (kid : Text) (i : Option ℕ) (t t' : KnowledgeTable R)
      → register_head kid i t ≡ Result.ok t'
      → t'.units ≡ t.units
  unfolding register_head
  register_head-units kid none t t' e = absurd (cc)
  register_head-units kid (some i) t t' e =
      elim (Bool-cases (taken_from (Dict.lookup i t.i64_to_kid) kid)) [
        | inl other ↦ register_tail-units kid (kid_tail_int64 kid) t t' (rw other at e)
        | inr own ↦
            let e' : Result.ok (enter kid i t) ≡ Result.ok t' = rw own at e in
            let same : enter kid i t ≡ t' = cc in sym (ap (λ x. x.units) same)
      ]

  register_kid-units :
      (kid : Text) (t t' : KnowledgeTable R)
      → register_kid kid t ≡ Result.ok t'
      → t'.units ≡ t.units
  unfolding register_kid
  register_kid-units kid t t' e =
      register_head-units (normal kid) (kid_to_int64 (normal kid)) t t' e

  pub upsert_kid-units :
      (kid : Text) (unit : KnowledgeUnit R) (t t' : KnowledgeTable R)
      → upsert_kid kid unit t ≡ Result.ok t'
      → t'.units ≡ Table.insert (normal kid) unit t.units
  unfolding upsert_kid
  upsert_kid-units kid unit t t' e = elim (Result-cases (register_kid (normal kid) t)) [
    | inl (x, failed) ↦ absurd (ground (arith, failed))
    | inr (t1, ok) ↦ ground (arith, ok, register_kid-units (normal kid) t t1 ok)
  ]

  registered-units :
      (kid : Text) (t t' : KnowledgeTable R) (i : ℕ)
      → registered kid t ≡ Result.ok (i, t')
      → t'.units ≡ t.units
  unfolding registered
  registered-units kid t t' i e = elim (Result-cases (register_kid kid t)) [
    | inl (x, failed) ↦ absurd (ground (arith, failed))
    | inr (t1, ok) ↦ ground (
      arith,
      ok,
      register_kid-units kid t t1 ok,
      Option-cases (Table.lookup (normal kid) t1.kid_to_i64),
    )
  ]

  kid_number-units :
      (kid : Text) (found : Option ℕ) (t t' : KnowledgeTable R) (i : ℕ)
      → kid_number kid found t ≡ Result.ok (i, t')
      → t'.units ≡ t.units
  unfolding kid_number
  kid_number-units kid none t t' i e = registered-units kid t t' i e
  kid_number-units kid (some zero) t t' i e = registered-units kid t t' i e
  kid_number-units kid (some (suc j)) t t' i e = ground arith

  numbers-units :
      (units : Table (KnowledgeUnit R)) (t t' : KnowledgeTable R) (ids : List ℕ)
      → numbers units t ≡ Result.ok (ids, t')
      → t'.units ≡ t.units
  unfolding numbers
  numbers-units [] t t' ids e = ground arith
  numbers-units ((kid, unit) ∷ units) t t' ids e =
      elim (Result-cases (kid_number kid (Table.lookup kid t.kid_to_i64) t)) [
        | inl (x, failed) ↦ absurd (ground (arith, failed))
        | inr ((i, t1), ok) ↦ elim (Result-cases (numbers units t1)) [
          | inl (x, failed) ↦ absurd (ground (arith, failed, ok))
          | inr ((js, t2), ok2) ↦
              let first = kid_number-units kid (Table.lookup kid t.kid_to_i64) t t1 i ok in
              let rest = numbers-units units t1 t2 js ok2 in ground (arith, ok, ok2, first, rest)
        ]
      ]

  indexed-units :
      (units : Table (KnowledgeUnit R)) (t t' : KnowledgeTable R)
      → indexed units t ≡ Result.ok t'
      → t'.units ≡ t.units
  unfolding indexed
  indexed-units [] t t' e = ground arith
  indexed-units (entry ∷ units) t t' e = elim (Result-cases (numbers (entry ∷ units) t)) [
    | inl (x, failed) ↦ absurd (ground (arith, failed))
    | inr ((ids, t1), ok) ↦ ground (arith, ok, numbers-units (entry ∷ units) t t1 ids ok)
  ]

  pub build_faiss_index-units :
      (t t' : KnowledgeTable R) → build_faiss_index t ≡ Result.ok t' → t'.units ≡ t.units
  unfolding build_faiss_index
  build_faiss_index-units t t' e = indexed-units t.units t t' e

  delete_kid-has :
      (k kid : Text) (t : KnowledgeTable R)
      → IsTable t.units
      → (Table.contains k (delete_kid kid t).units
          ≡ (Table.contains k t.units && not (text_eq k kid)))
        × IsTable (delete_kid kid t).units
  delete_kid-has k kid t u = ground (
    arith,
    text_eq_iff k kid,
    lookup-erase_ne k kid t.units,
    lookup-erase_self kid t.units u,
    erase-IsTable kid t.units u,
  )

  pub delete_kids-has :
      (k : Text) (ks : List Text) (t : KnowledgeTable R)
      → IsTable t.units
      → (Table.contains k (delete_kids ks t).units
          ≡ (Table.contains k t.units && not (contains k (map normal ks))))
        × IsTable (delete_kids ks t).units
  unfolding delete_kids contains
  delete_kids-has k [] t u = (ground arith, u)
  delete_kids-has k (kid ∷ ks) t u =
      let (one, u') = delete_kid-has k (normal kid) t u in
      let (rest, u'') = delete_kids-has k ks (delete_kid (normal kid) t) u' in
      (ground (arith, one, rest), u'')
