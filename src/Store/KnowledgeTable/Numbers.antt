-- ===== src/Store/KnowledgeTable/Numbers.antt =====
-- The numbers that the kids have in the index: no two kids share one.
use cache_route.Common.{
  ◌==◌, ℕ, ◌≡◌, ◌≢◌, sym, subst, ◌∙◌, true, false, Option, none, some, List, [], ◌∷◌, is_some,
  arith, Bool-cases, Option-cases, inl, inr,
}
use cache_route.Common.Table.{
  Table, lookup-insert, lookup-insert-cases, IsTable, insert-IsTable, erase-IsTable,
  lookup-erase_ne, lookup-erase_self,
}
use cache_route.Common.Table
use cache_route.Common.Dict
use cache_route.Common.Text.{Text, text_eq, text_eq_iff}
use cache_route.Common.Text.Normal.{normal_twice}
use cache_route.Cacheroute.State.{Result, Result-cases}
use cache_route.Store.KnowledgeTable.{
  KnowledgeTable, KnowledgeUnit, TableError, normal, register_kid, register_head, register_tail,
  upsert_kid, delete_kids, delete_kid, kid_to_int64, kid_tail_int64, enter, taken_from, forget,
}

module _ {R : Type 0} where
  -- A kid's number leads back to the kid, and each unit has a number.
  pub record IsNumbered (t : KnowledgeTable R) : Type 0 where
    pub back :
        (k : Text) (i : ℕ)
        → Table.lookup k t.kid_to_i64 ≡ some i
        → Dict.lookup i t.i64_to_kid ≡ some k
    pub numbered :
        (k : Text) → Table.contains k t.units ≡ true → Table.contains k t.kid_to_i64 ≡ true
    pub unique : IsTable t.kid_to_i64
    pub units_unique : IsTable t.units
    pub kid_normal : (k : Text) → Table.contains k t.units ≡ true → normal k ≡ k

  enter-back :
      (kid : Text) (i : ℕ) (t : KnowledgeTable R)
      → taken_from (Dict.lookup i t.i64_to_kid) kid ≡ false
      → IsNumbered t
      → (k : Text) (j : ℕ) → Table.lookup k (Table.insert kid i t.kid_to_i64) ≡ some j
      → Dict.lookup j (Dict.insert i kid t.i64_to_kid) ≡ some k
  enter-back kid i t free h k j e = elim (lookup-insert-cases k kid i j t.kid_to_i64 e) [
    | inl (same, number) ↦ ground (arith, Dict.lookup-insert j i kid t.i64_to_kid)
    | inr (other, found) ↦ elim (Bool-cases (j == i)) [
      | inl same ↦
          let owned = h.back k j found in
          let number : j ≡ i = ground arith in
          let taken = rw (number, text_eq_iff k kid) at owned in
          absurd (ground (arith, text_eq_iff k kid))
      | inr ne ↦ ground (arith, Dict.lookup-insert j i kid t.i64_to_kid, h.back k j found)
    ]
  ]

  enter-IsNumbered :
      (kid : Text) (i : ℕ) (t : KnowledgeTable R)
      → taken_from (Dict.lookup i t.i64_to_kid) kid ≡ false
      → IsNumbered t
      → IsNumbered (enter kid i t) × (Table.contains kid (enter kid i t).kid_to_i64 ≡ true)
  enter-IsNumbered kid i t free h = (
    record {
      back = enter-back kid i t free h;
      numbered = λ k e. ground (arith, h.numbered k e, lookup-insert k kid i t.kid_to_i64);
      unique = insert-IsTable kid i t.kid_to_i64 h.unique;
      units_unique = h.units_unique;
      kid_normal = h.kid_normal;
    },
    ground (arith, lookup-insert kid kid i t.kid_to_i64, text_eq_iff kid kid),
  )

  -- A registration keeps the numbers apart, and the kid has one then.
  abbrev pub Registers : Text → Result TableError (KnowledgeTable R) → Type 0
  Registers kid r =
      (t' : KnowledgeTable R)
      → r ≡ Result.ok t'
      → IsNumbered t' × (Table.contains kid t'.kid_to_i64 ≡ true)

  enter-Registers :
      (kid : Text) (i : ℕ) (t t' : KnowledgeTable R)
      → taken_from (Dict.lookup i t.i64_to_kid) kid ≡ false
      → IsNumbered t
      → enter kid i t ≡ t'
      → IsNumbered t' × (Table.contains kid t'.kid_to_i64 ≡ true)
  enter-Registers kid i t t' free h same =
      subst (λ x. IsNumbered x × (Table.contains kid x.kid_to_i64 ≡ true)) same
        (enter-IsNumbered kid i t free h)

  register_tail-Registers :
      (kid : Text) (i : Option ℕ) (t : KnowledgeTable R)
      → IsNumbered t
      → Registers kid (register_tail kid i t)
  unfolding register_tail
  register_tail-Registers kid none t h t' e = absurd (cc)
  register_tail-Registers kid (some i) t h t' e =
      elim (Bool-cases (taken_from (Dict.lookup i t.i64_to_kid) kid)) [
        | inl other ↦ let e' = rw other at e in absurd (cc)
        | inr free ↦
            let e' : Result.ok (enter kid i t) ≡ Result.ok t' = rw free at e in
            enter-Registers kid i t t' free h cc
      ]

  pub register_head-Registers :
      (kid : Text) (i : Option ℕ) (t : KnowledgeTable R)
      → IsNumbered t
      → Registers kid (register_head kid i t)
  unfolding register_head
  register_head-Registers kid none t h t' e = absurd (cc)
  register_head-Registers kid (some i) t h t' e =
      elim (Bool-cases (taken_from (Dict.lookup i t.i64_to_kid) kid)) [
        | inl other ↦ register_tail-Registers kid (kid_tail_int64 kid) t h t' (rw other at e)
        | inr free ↦
            let e' : Result.ok (enter kid i t) ≡ Result.ok t' = rw free at e in
            enter-Registers kid i t t' free h cc
      ]

  put-normal :
      (kid : Text) (unit : KnowledgeUnit R) (units : Table (KnowledgeUnit R))
      → ((k : Text) → Table.contains k units ≡ true → normal k ≡ k)
      → (k : Text) → Table.contains k (Table.insert (normal kid) unit units) ≡ true
      → normal k ≡ k
  put-normal kid unit units h k e = elim (Bool-cases (text_eq k (normal kid))) [
    | inl same ↦
        let it_is : k ≡ normal kid = ground (arith, text_eq_iff k (normal kid)) in
        subst (λ x. normal x ≡ x) (sym it_is) (normal_twice kid)
    | inr other ↦ h k (ground (arith, lookup-insert k (normal kid) unit units))
  ]

  pub upsert_kid-IsNumbered :
      (kid : Text) (unit : KnowledgeUnit R) (t t' : KnowledgeTable R)
      → IsNumbered t
      → upsert_kid kid unit t ≡ Result.ok t'
      → IsNumbered t'
  unfolding upsert_kid register_kid
  upsert_kid-IsNumbered kid unit t t' h e = elim (Result-cases (register_kid (normal kid) t)) [
    | inl (x, failed) ↦ absurd (ground (arith, failed))
    | inr (t1, ok) ↦
        let (h1, has) = rw (normal_twice kid) at (
          register_head-Registers (normal (normal kid)) (kid_to_int64 (normal (normal kid))) t h t1
            ok) in
        let same : record t1 { units = Table.insert (normal kid) unit t1.units } ≡ t' =
          ground (arith, ok) in
        subst IsNumbered same (record {
          back = h1.back;
          numbered = λ k e. ground (
            arith,
            h1.numbered k,
            has,
            lookup-insert k (normal kid) unit t1.units,
            text_eq_iff k (normal kid),
          );
          unique = h1.unique;
          units_unique = insert-IsTable (normal kid) unit t1.units h1.units_unique;
          kid_normal = put-normal kid unit t1.units h1.kid_normal;
        })
  ]

  delete-back :
      (kid : Text) (t : KnowledgeTable R)
      → IsNumbered t
      → (k : Text) (i : ℕ) → Table.lookup k (Table.erase kid t.kid_to_i64) ≡ some i
      → Dict.lookup i (forget (Table.lookup kid t.kid_to_i64) t.i64_to_kid) ≡ some k
  delete-back kid t h k i e = elim (Bool-cases (text_eq k kid)) [
    | inl same ↦
        let it_is : k ≡ kid = ground (arith, text_eq_iff k kid) in
        let gone = rw it_is at e in
        absurd (ground (arith, lookup-erase_self kid t.kid_to_i64 h.unique))
    | inr ne ↦
        let other : k ≢ kid = ground (arith, text_eq_iff k kid) in
        let found = sym (lookup-erase_ne k kid t.kid_to_i64 other) ∙ e in
        elim (Option-cases (Table.lookup kid t.kid_to_i64)) [
          | inl nothing ↦ rw nothing (h.back k i found)
          | inr (j, number) ↦ rw number (
              ground (
                arith,
                h.back k i found,
                h.back kid j number,
                Dict.lookup-erase_ne i j t.i64_to_kid,
              ))
        ]
  ]

  delete_kid-IsNumbered :
      (kid : Text) (t : KnowledgeTable R) → IsNumbered t → IsNumbered (delete_kid kid t)
  delete_kid-IsNumbered kid t h = elim (Bool-cases (is_some (Table.lookup kid t.units))) [
    | inr missing ↦ rw missing h
    | inl there ↦ rw there (record {
      back = delete-back kid t h;
      numbered = λ k e. ground (
        arith,
        h.numbered k,
        text_eq_iff k kid,
        lookup-erase_ne k kid t.units,
        lookup-erase_self kid t.units h.units_unique,
        lookup-erase_ne k kid t.kid_to_i64,
      );
      unique = erase-IsTable kid t.kid_to_i64 h.unique;
      units_unique = erase-IsTable kid t.units h.units_unique;
      kid_normal = λ k e. ground (
        arith,
        h.kid_normal k,
        text_eq_iff k kid,
        lookup-erase_ne k kid t.units,
        lookup-erase_self kid t.units h.units_unique,
      );
    })
  ]

  pub delete_kids-IsNumbered :
      (ks : List Text) (t : KnowledgeTable R) → IsNumbered t → IsNumbered (delete_kids ks t)
  unfolding delete_kids
  delete_kids-IsNumbered [] t h = h
  delete_kids-IsNumbered (k ∷ ks) t h =
      delete_kids-IsNumbered ks (delete_kid (normal k) t) (delete_kid-IsNumbered (normal k) t h)
