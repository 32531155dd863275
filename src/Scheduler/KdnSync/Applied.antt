-- ===== src/Scheduler/KdnSync/Applied.antt =====
-- What the steps of a refresh do to the units of the table.
use cache_route.Common.{
  ℕ, ◌≡◌, refl, sym, ap, subst, ◌∙◌, Bool, true, false, not, ◌&&◌, ◌||◌, Option, none, some, List,
  [], ◌∷◌, ◌++◌, map, arith, Bool-cases, Option-cases, inl, inr, if◌then◌else◌,
}
use cache_route.Common.Table.{Table, IsTable, lookup-insert, insert-IsTable}
use cache_route.Common.Text.{Text, text_eq, text_eq_iff, contains}
use cache_route.Common.Text.Normal.{normal_twice}
use cache_route.Cacheroute.State.{Result, Result-cases}
use cache_route.Store.KnowledgeTable.{
  KnowledgeTable, KnowledgeUnit, normal, is_empty, upsert_kid, delete_kids, clone_without_index,
  new_table, build_faiss_index,
}
use cache_route.Store.KnowledgeTable.Units.{
  upsert_kid-units, build_faiss_index-units, delete_kids-has,
}
use cache_route.Scheduler.KdnSync.{
  MetaItem, Diff, FullItem, SyncState, apply_item, apply_items, base_table, update_table,
  nonempty_list, unit_of,
}
use cache_route.Scheduler.KdnSync.Scanned.{contains-append, kids, has}

-- The kid of an item that is kept: it has an embedding.
abbrev pub delivered_kid : {R : Type 0} → FullItem R → List Text
delivered_kid it =
    if is_empty (normal it.full_kid)
    then []
    else elim it.embedding [ none ↦ [] | some e ↦ normal it.full_kid ∷ [] ]

abbrev pub delivered : {R : Type 0} → List (FullItem R) → List Text
delivered [] = []
delivered (it ∷ items) = delivered_kid it ++ delivered items

pub contains-normal :
    (k : Text) (ks : List Text)
    → ((j : Text) → contains j ks ≡ true → normal j ≡ j)
    → contains k (map normal ks) ≡ contains k ks
unfolding contains
contains-normal k [] h = refl
contains-normal k (j ∷ ks) h =
    let first = h j (ground (arith, text_eq_iff j j)) in
    let rest = contains-normal k ks (λ i e. h i (ground arith)) in rw (first, rest) refl

-- A kid as the scheduler asks for it.
abbrev pub IsKid : Text → Type 0
IsKid k = (normal k ≡ k) × (is_empty k ≡ false)

pub kids-IsKid : (k : Text) (items : List MetaItem) → contains k (kids items) ≡ true → IsKid k
unfolding contains
kids-IsKid k [] e = absurd (cc)
kids-IsKid k (it ∷ items) e = elim (Bool-cases (is_empty (normal it.kid))) [
  | inl empty ↦ kids-IsKid k items (rw empty at e)
  | inr kept ↦ elim (Bool-cases (text_eq k (normal it.kid))) [
    | inl same ↦
        let it_is : k ≡ normal it.kid = ground (arith, text_eq_iff k (normal it.kid)) in
        subst IsKid (sym it_is) (normal_twice it.kid, kept)
    | inr other ↦ kids-IsKid k items (rw (kept, other) at e)
  ]
]

module _ {R : Type 0} where
  apply_item-has :
      (k : Text) (it : FullItem R) (alive : List Text) (t t' : KnowledgeTable R) (c c' : Bool)
      → IsTable t.units
      → apply_item it alive (t, c) ≡ Result.ok (t', c')
      → (has k t'.units ≡ (has k t.units || contains k (delivered_kid it))) × IsTable t'.units
  unfolding contains
  apply_item-has k it alive t t' c c' u e = elim (Bool-cases (is_empty (normal it.full_kid))) [
    | inl empty ↦ rw empty (ground arith)
    | inr kept ↦ elim (Option-cases it.embedding) [
      | inl bare ↦ rw (kept, bare) (ground arith)
      | inr (v, full) ↦
          elim (Result-cases (upsert_kid (normal it.full_kid) (unit_of it v alive) t)) [
            | inl (x, failed) ↦ let e' = rw (kept, full, failed) at e in absurd (cc)
            | inr (t1, ok) ↦
                let key = normal_twice it.full_kid in
                let put =
                  rw key at (upsert_kid-units (normal it.full_kid) (unit_of it v alive) t t1 ok) in
                let e' = rw (kept, full, ok) at e in
                let same : t1 ≡ t' = cc in
                let units = ap (λ x. x.units) (sym same) ∙ put in
                let found = lookup-insert k (normal it.full_kid) (unit_of it v alive) t.units in
                let kept_unique =
                  insert-IsTable (normal it.full_kid) (unit_of it v alive) t.units u in
                rw (kept, full, units) (ground (arith, found), kept_unique)
          ]
    ]
  ]

  apply_items-has :
      (k : Text) (items : List (FullItem R)) (alive : List Text) (t t' : KnowledgeTable R)
      (c c' : Bool)
      → IsTable t.units
      → apply_items items alive (t, c) ≡ Result.ok (t', c')
      → (has k t'.units ≡ (has k t.units || contains k (delivered items))) × IsTable t'.units
  unfolding apply_items contains
  apply_items-has k [] alive t t' c c' u e = ground arith
  apply_items-has k (it ∷ items) alive t t' c c' u e =
      elim (Result-cases (apply_item it alive (t, c))) [
        | inl (x, failed) ↦ let e' = rw (apply_items, failed) at e in absurd (cc)
        | inr ((t1, c1), ok) ↦
            let (one, u1) = apply_item-has k it alive t t1 c c1 u ok in
            let (rest, u') =
              apply_items-has k items alive t1 t' c1 c' u1 (rw (apply_items, ok) at e) in
            (ground (arith, one, rest, contains-append k (delivered_kid it) (delivered items)), u')
      ]

  abbrev pub units_of : Option (KnowledgeTable R) → Table (KnowledgeUnit R)
  units_of none = []
  units_of (some t) = t.units

  pub base_table-units :
      (s : SyncState R) (t : KnowledgeTable R)
      → base_table s ≡ some t
      → t.units ≡ units_of s.knowledge_table
  unfolding base_table clone_without_index new_table
  base_table-units s t e = base s.knowledge_table s.embedder_dim e
    where
      base :
          (o : Option (KnowledgeTable R)) (dim : Option ℕ)
          → (elim o [
            | some t ↦ some (clone_without_index t)
            | none ↦ elim dim [ none ↦ none | some dim ↦ some (new_table dim) ]
          ])
            ≡ some t
          → t.units ≡ units_of o
      base (some t1) dim e = ground arith
      base none none e = absurd (cc)
      base none (some dim) e = ground arith

  delete_any :
      (ks : List Text) (t : KnowledgeTable R)
      → (if nonempty_list ks then delete_kids ks t else t) ≡ delete_kids ks t
  unfolding delete_kids
  delete_any [] t = refl
  delete_any (k ∷ ks) t = refl

  rebuilt-units :
      (again : Bool) (t t' : KnowledgeTable R)
      → (if again then build_faiss_index t else Result.ok t) ≡ Result.ok t'
      → t'.units ≡ t.units
  rebuilt-units true t t' e = build_faiss_index-units t t' e
  rebuilt-units false t t' e = ground arith

  pub update_table-has :
      (k : Text) (d : Diff) (alive : List Text) (full : List (FullItem R)) (first : Bool)
      (t t' : KnowledgeTable R)
      → IsTable t.units
      → update_table d alive full first t ≡ Result.ok t'
      → (has k t'.units ≡ (
          (has k t.units || contains k (delivered full))
          && not (contains k (map normal d.removed))))
        × IsTable t'.units
  unfolding update_table
  update_table-has k d alive full first t t' u e =
      elim (Result-cases (apply_items full alive (t, false))) [
        | inl (x, failed) ↦ let e' = rw (update_table, failed) at e in absurd (cc)
        | inr ((t1, c1), ok) ↦
            let (one, u1) = apply_items-has k full alive t t1 false c1 u ok in
            let (two, u2) = delete_kids-has k d.removed t1 u1 in
            let e' = rw (update_table, ok, delete_any d.removed t1) at e in
            let units =
              rebuilt-units (first || c1 || nonempty_list d.removed) (delete_kids d.removed t1) t'
                e' in
            (rw (units, two, one) refl, subst IsTable (sym units) u2)
      ]
