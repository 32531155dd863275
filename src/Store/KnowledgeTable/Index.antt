-- ===== src/Store/KnowledgeTable/Index.antt =====
-- The numbers that an index is built with lead back to the kids of the units.
use cache_route.Common.{
  zero, suc, map, ◌==◌, ℕ, ◌≡◌, refl, sym, ap, subst, ◌∙◌, true, false, Option, none, some, List,
  [], ◌∷◌, arith, Bool-cases, Option-cases, inl, inr,
}
use cache_route.Common.Table.{
  Table, lookup-insert, lookup-insert-cases, IsTable, insert-IsTable, erase-IsTable,
  lookup-erase_ne, lookup-erase_self,
}
use cache_route.Common.Table
use cache_route.Common.Dict
use cache_route.Common.Text.{Text, text_eq_iff}
use cache_route.Cacheroute.State.{Result, Result-cases}
use cache_route.Store.KnowledgeTable.{
  KnowledgeTable, KnowledgeUnit, TableError, normal, register_kid, register_head, register_tail,
  build_faiss_index, numbers, kid_number, registered, indexed, new_table, kid_to_int64,
  kid_tail_int64, enter, taken_from,
}
use cache_route.Store.KnowledgeTable.Numbers.{IsNumbered, register_head-Registers}
use cache_route.Store.KnowledgeTable.Changes.{Change, run, run-IsNumbered, new_table-IsNumbered}

module _ {R : Type 0} where
  -- The kid of a number stays its kid.
  abbrev Keeps : KnowledgeTable R → KnowledgeTable R → Type 0
  Keeps t t' =
      (i : ℕ) (k : Text)
      → Dict.lookup i t.i64_to_kid ≡ some k
      → Dict.lookup i t'.i64_to_kid ≡ some k

  enter-Keeps :
      (kid : Text) (i : ℕ) (t : KnowledgeTable R)
      → taken_from (Dict.lookup i t.i64_to_kid) kid ≡ false
      → Keeps t (enter kid i t)
  enter-Keeps kid i t free j k e = elim (Bool-cases (j == i)) [
    | inl same ↦
        let number : j ≡ i = ground arith in
        let owner = rw number at e in
        let own : k ≡ kid = ground (arith, free, text_eq_iff k kid) in
        ground (arith, Dict.lookup-insert j i kid t.i64_to_kid)
    | inr ne ↦ ground (arith, Dict.lookup-insert j i kid t.i64_to_kid)
  ]

  register_tail-Keeps :
      (kid : Text) (i : Option ℕ) (t t' : KnowledgeTable R)
      → register_tail kid i t ≡ Result.ok t'
      → Keeps t t'
  unfolding register_tail
  register_tail-Keeps kid none t t' e = absurd (cc)
  register_tail-Keeps kid (some i) t t' e =
      elim (Bool-cases (taken_from (Dict.lookup i t.i64_to_kid) kid)) [
        | inl other ↦ let e' = rw other at e in absurd (cc)
        | inr free ↦
            let e' : Result.ok (enter kid i t) ≡ Result.ok t' = rw free at e in
            let same : enter kid i t ≡ t' = cc in subst (Keeps t) same (enter-Keeps kid i t free)
      ]

  register_head-Keeps :
      (kid : Text) (i : Option ℕ) (t t' : KnowledgeTable R)
      → register_head kid i t ≡ Result.ok t'
      → Keeps t t'
  unfolding register_head
  register_head-Keeps kid none t t' e = absurd (cc)
  register_head-Keeps kid (some i) t t' e =
      elim (Bool-cases (taken_from (Dict.lookup i t.i64_to_kid) kid)) [
        | inl other ↦ register_tail-Keeps kid (kid_tail_int64 kid) t t' (rw other at e)
        | inr free ↦
            let e' : Result.ok (enter kid i t) ≡ Result.ok t' = rw free at e in
            let same : enter kid i t ≡ t' = cc in subst (Keeps t) same (enter-Keeps kid i t free)
      ]

  -- A kid in normal form gets a number that leads back to it, and no other kid loses its own.
  abbrev IsFound : Text → KnowledgeTable R → Result TableError (ℕ × KnowledgeTable R) → Type 0
  IsFound kid t r =
      (i : ℕ) (t' : KnowledgeTable R)
      → r ≡ Result.ok (i, t')
      → IsNumbered t' × Keeps t t' × (Dict.lookup i t'.i64_to_kid ≡ some kid)

  registered-IsFound :
      (kid : Text) (t : KnowledgeTable R)
      → normal kid ≡ kid
      → IsNumbered t
      → IsFound kid t (registered kid t)
  unfolding registered register_kid
  registered-IsFound kid t normed h i t' e = elim (Result-cases (register_kid kid t)) [
    | inl (x, failed) ↦ let e' = rw (registered, failed) at e in absurd (cc)
    | inr (t1, ok) ↦ elim (Option-cases (Table.lookup (normal kid) t1.kid_to_i64)) [
      | inl nothing ↦ let e' = rw (registered, ok, nothing) at e in absurd (cc)
      | inr (j, number) ↦
          let e' = rw (registered, ok, number) at e in
          let (h1, has) =
            register_head-Registers (normal kid) (kid_to_int64 (normal kid)) t h t1 ok in
          let keeps = register_head-Keeps (normal kid) (kid_to_int64 (normal kid)) t t1 ok in
          let found : Dict.lookup j t1.i64_to_kid ≡ some kid =
            h1.back kid j (rw normed at number) in
          let tables : t1 ≡ t' = cc in
          let same : j ≡ i = cc in rw (sym tables, sym same) (h1, keeps, found)
    ]
  ]

  kid_number-IsFound :
      (kid : Text) (t : KnowledgeTable R)
      → normal kid ≡ kid
      → IsNumbered t
      → IsFound kid t (kid_number kid (Table.lookup kid t.kid_to_i64) t)
  unfolding kid_number
  kid_number-IsFound kid t normed h = number (Table.lookup kid t.kid_to_i64) refl
    where
      number :
          (found : Option ℕ)
          → Table.lookup kid t.kid_to_i64 ≡ found
          → IsFound kid t (kid_number kid found t)
      number none e i t' e' = registered-IsFound kid t normed h i t' e'
      number (some zero) e i t' e' = registered-IsFound kid t normed h i t' e'
      number (some (suc j)) e i t' e' =
          let tables : t ≡ t' = cc in
          let same : suc j ≡ i = cc in
          rw (sym tables, sym same) (h, (λ i k own. own), h.back kid (suc j) e)

  -- The kids that the numbers lead to.
  abbrev pub owners : List ℕ → KnowledgeTable R → List (Option Text)
  owners ids t = map (λ i. Dict.lookup i t.i64_to_kid) ids

  abbrev pub keys : Table (KnowledgeUnit R) → List (Option Text)
  keys units = map (λ e. some (e.0)) units

  numbers-owners :
      (units : Table (KnowledgeUnit R)) (t t' : KnowledgeTable R) (ids : List ℕ)
      → ((k : Text) → Table.contains k units ≡ true → normal k ≡ k)
      → IsNumbered t
      → numbers units t ≡ Result.ok (ids, t')
      → (owners ids t' ≡ keys units) × IsNumbered t' × Keeps t t'
  unfolding numbers
  numbers-owners [] t t' ids normed h e =
      let tables : t ≡ t' = ground arith in
      let same : ids ≡ [] = ground arith in rw (sym tables, same) (refl, h, λ i k own. own)
  numbers-owners ((kid, unit) ∷ units) t t' ids normed h e =
      elim (Result-cases (kid_number kid (Table.lookup kid t.kid_to_i64) t)) [
        | inl (x, failed) ↦ let e' = rw (numbers, failed) at e in absurd (cc)
        | inr ((i, t1), ok) ↦ elim (Result-cases (numbers units t1)) [
          | inl (x, failed) ↦ let e' = rw (numbers, ok, failed) at e in absurd (cc)
          | inr ((js, t2), ok2) ↦
              let e' = rw (numbers, ok, ok2) at e in
              let first_normal = normed kid (ground (arith, text_eq_iff kid kid)) in
              let (h1, keeps1, found) = kid_number-IsFound kid t first_normal h i t1 ok in
              let (rest, h2, keeps2) =
                numbers-owners units t1 t2 js (λ k c. normed k (ground arith)) h1 ok2 in
              let tables : t2 ≡ t' = cc in
              let same : ids ≡ i ∷ js = cc in
              rw (sym tables, same)
                (let first = keeps2 i kid found in cc, h2, λ j k own. keeps2 j k (keeps1 j k own))
        ]
      ]

  -- After any changes of a new table, an index is built with one number for each unit, in the
  -- units' order, and each number leads back to the kid of its unit.
  pub build_faiss_index-owners :
      (dim : ℕ) (cs : List (Change R)) (t' : KnowledgeTable R) (ids : List ℕ)
      → build_faiss_index (run cs (new_table dim)) ≡ Result.ok t'
      → t'.faiss_index ≡ some ids
      → owners ids t' ≡ keys (run cs (new_table dim)).units
  unfolding build_faiss_index indexed
  build_faiss_index-owners dim cs t' ids e built = index t.units refl e
    where
      t : KnowledgeTable R
      t = run cs (new_table dim)

      h : IsNumbered t
      h = run-IsNumbered cs (new_table dim) (new_table-IsNumbered dim)

      index :
          (units : Table (KnowledgeUnit R))
          → t.units ≡ units
          → indexed units t ≡ Result.ok t'
          → owners ids t' ≡ keys units
      index [] same e =
          let tables : record t { faiss_index = none } ≡ t' = cc in
          let empty = ap (λ x. x.faiss_index) tables ∙ built in absurd (cc)
      index (entry ∷ units) same e = elim (Result-cases (numbers (entry ∷ units) t)) [
        | inl (x, failed) ↦ let e' = rw (indexed, failed) at e in absurd (cc)
        | inr ((js, t1), ok) ↦
            let e' = rw (indexed, ok) at e in
            let normed =
              subst (λ u. (k : Text) → Table.contains k u ≡ true → normal k ≡ k) same
                h.kid_normal in
            let (lead, kept, keeps) = numbers-owners (entry ∷ units) t t1 js normed h ok in
            let tables : record t1 { faiss_index = some js } ≡ t' = cc in
            let same_ids = ap (λ x. x.faiss_index) tables ∙ built in
            let listed : js ≡ ids = cc in
            subst (λ x. owners ids x ≡ keys (entry ∷ units)) tables
              (subst (λ x. owners x t1 ≡ keys (entry ∷ units)) listed lead)
      ]
