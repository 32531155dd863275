-- ===== src/Store/KnowledgeTable/Changes.antt =====
-- Sequences of changes of a table of knowledge, and what they keep.
use cache_route.Common.{
  ℕ, ◌≡◌, ◌≢◌, sym, ap, ◌∙◌, true, some, List, [], ◌∷◌, arith, Option-cases, inl, inr,
}
use cache_route.Common.Table.{
  Table, lookup-insert, lookup-insert-cases, IsTable, insert-IsTable, erase-IsTable,
  lookup-erase_ne, lookup-erase_self,
}
use cache_route.Common.Table
use cache_route.Common.Dict
use cache_route.Common.Text.{Text}
use cache_route.Cacheroute.State.{Result, Result-cases}
use cache_route.Store.KnowledgeTable.{
  KnowledgeTable, KnowledgeUnit, TableError, upsert_kid, delete_kids, clone_without_index,
  new_table,
}
use cache_route.Store.KnowledgeTable.Numbers.{
  IsNumbered, upsert_kid-IsNumbered, delete_kids-IsNumbered,
}

-- What changes a table; an insertion that is refused changes nothing.
pub data Change (R : Type 0) : Type 0 where
  upsert_one : Text → KnowledgeUnit R → Change R
  delete_all : List Text → Change R
  clone : Change R

module _ {R : Type 0} where
  abbrev pub kept : Result TableError (KnowledgeTable R) → KnowledgeTable R → KnowledgeTable R
  kept (Result.failed e) t = t
  kept (Result.ok t') t = t'

  unfoldable pub change : Change R → KnowledgeTable R → KnowledgeTable R
  change (upsert_one kid unit) t = kept (upsert_kid kid unit t) t
  change (delete_all ks) t = delete_kids ks t
  change clone t = clone_without_index t

  unfoldable pub run : List (Change R) → KnowledgeTable R → KnowledgeTable R
  unfolding change
  run [] t = t
  run (c ∷ cs) t = run cs (change c t)

  change-IsNumbered : (c : Change R) (t : KnowledgeTable R) → IsNumbered t → IsNumbered (change c t)
  unfolding change clone_without_index
  change-IsNumbered (upsert_one kid unit) t h = elim (Result-cases (upsert_kid kid unit t)) [
    | inl (x, failed) ↦ rw failed h
    | inr (t', ok) ↦ rw ok (upsert_kid-IsNumbered kid unit t t' h ok)
  ]
  change-IsNumbered (delete_all ks) t h = delete_kids-IsNumbered ks t h
  change-IsNumbered clone t h = record {
    back = h.back;
    numbered = h.numbered;
    unique = h.unique;
    units_unique = h.units_unique;
    kid_normal = h.kid_normal;
  }

  pub run-IsNumbered :
      (cs : List (Change R)) (t : KnowledgeTable R) → IsNumbered t → IsNumbered (run cs t)
  unfolding run
  run-IsNumbered [] t h = h
  run-IsNumbered (c ∷ cs) t h = run-IsNumbered cs (change c t) (change-IsNumbered c t h)

  pub new_table-IsNumbered : (dim : ℕ) → IsNumbered (new_table {R = R} dim)
  unfolding new_table
  new_table-IsNumbered dim = record {
    back = λ k i e. absurd (cc);
    numbered = λ k e. absurd (cc);
    unique = tt;
    units_unique = tt;
    kid_normal = λ k e. absurd (cc);
  }

  -- After any changes of a new table, two different kids with units have different numbers.
  pub run-distinct :
      (dim : ℕ) (cs : List (Change R)) (j k : Text)
      → let t = run cs (new_table {R = R} dim) in
        Table.contains j t.units ≡ true
        → Table.contains k t.units ≡ true
        → j ≢ k
        → (m : ℕ) × (n : ℕ) × (Table.lookup j t.kid_to_i64 ≡ some m)
          × (Table.lookup k t.kid_to_i64 ≡ some n)
          × (m ≢ n)
  run-distinct dim cs j k a b ne =
      let t = run cs (new_table dim) in
      let h = run-IsNumbered cs (new_table dim) (new_table-IsNumbered dim) in
      elim (Option-cases (Table.lookup j t.kid_to_i64)) [
        | inl nothing ↦ absurd (ground (arith, h.numbered j a))
        | inr (m, mine) ↦ elim (Option-cases (Table.lookup k t.kid_to_i64)) [
          | inl nothing ↦ absurd (ground (arith, h.numbered k b))
          | inr (n, other) ↦ (
            m,
            n,
            mine,
            other,
            λ e. ne (
                both (
                  sym (h.back j m mine)
                  ∙ ap (λ x. Dict.lookup x t.i64_to_kid) e
                  ∙ h.back k n other)),
          )
        ]
      ]
    where
      both : {x y : Text} → some x ≡ some y → x ≡ y
      both e = cc
