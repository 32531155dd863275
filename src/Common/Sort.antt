-- ===== src/Common/Sort.antt =====
-- Python's `sorted` by a key: stable, by insertion.
use cache_route.Common.{
  Bool, List, [], ◌∷◌, if◌then◌else◌, true, ◌≡◌, ◌≢◌, ◌⊎◌, refl, sym, subst, All, Member, arith,
  Bool-cases, inl, inr,
}
use cache_route.Common.Lex.{IsPreorder}
use mathlib.Core.List.{Perm}
use mathlib.Core.List.Perm

pub list-cases : {A : Type 0} (xs : List A) → (xs ≡ []) ⊎ ((x : A) × (ys : List A) × (xs ≡ x ∷ ys))
list-cases [] = inl refl
list-cases (x ∷ xs) = inr (x, xs, refl)

module _ {A : Type 0} (le : A → A → Bool) where
  -- Before the first element that is not smaller.
  unfoldable pub insert_sorted : A → List A → List A
  insert_sorted x [] = x ∷ []
  insert_sorted x (y ∷ ys) =
      let rest = insert_sorted x ys in if le x y then x ∷ y ∷ ys else y ∷ rest

  unfoldable pub sort : List A → List A
  unfolding insert_sorted
  sort [] = []
  sort (x ∷ xs) = insert_sorted x (sort xs)

  insert_sorted-perm : (x : A) (ys : List A) → Perm (insert_sorted x ys) (x ∷ ys)
  unfolding insert_sorted
  insert_sorted-perm x [] = Perm.refl (x ∷ [])
  insert_sorted-perm x (y ∷ ys) = elim (Bool-cases (le x y)) [
    | inl e ↦ rw e (Perm.refl (x ∷ y ∷ ys))
    | inr e ↦ rw e (Perm.trans (Perm.cons y (insert_sorted-perm x ys)) (Perm.swap x y ys))
  ]

  -- Sorting loses and adds nothing.
  pub sort-perm : (xs : List A) → Perm (sort xs) xs
  unfolding sort
  sort-perm [] = Perm.refl []
  sort-perm (x ∷ xs) = Perm.trans (insert_sorted-perm x (sort xs)) (Perm.cons x (sort-perm xs))

  -- Every element is at most those after it.
  abbrev pub IsSorted : List A → Type 0
  IsSorted [] = Unit
  IsSorted (x ∷ xs) = All (λ y. le x y ≡ true) xs × IsSorted xs

  insert_sorted-All :
      (P : A → Type 0) (x : A) (ys : List A) → P x → All P ys → All P (insert_sorted x ys)
  unfolding insert_sorted
  insert_sorted-All P x [] p h = (p, tt)
  insert_sorted-All P x (y ∷ ys) p h = ground (arith, insert_sorted-All P x ys p h.1)

  All-map_le :
      (x y : A) (ys : List A)
      → ((a b c : A) → le a b ≡ true → le b c ≡ true → le a c ≡ true)
      → le x y ≡ true
      → All (λ z. le y z ≡ true) ys
      → All (λ z. le x z ≡ true) ys
  All-map_le x y [] trans h hs = tt
  All-map_le x y (z ∷ ys) trans h hs = (trans x y z h hs.0, All-map_le x y ys trans h hs.1)

  insert_sorted-IsSorted :
      (x : A) (ys : List A)
      → ((a b : A) → (le a b ≡ true) ⊎ (le b a ≡ true))
      → ((a b c : A) → le a b ≡ true → le b c ≡ true → le a c ≡ true)
      → IsSorted ys
      → IsSorted (insert_sorted x ys)
  unfolding insert_sorted
  insert_sorted-IsSorted x [] total trans s = (tt, tt)
  insert_sorted-IsSorted x (y ∷ ys) total trans s = elim (Bool-cases (le x y)) [
    | inl e ↦ rw e ((e, All-map_le x y ys trans e s.0), s)
    | inr e ↦ rw e (
      insert_sorted-All (λ z. le y z ≡ true) x ys (ground (arith, total x y)) s.0,
      insert_sorted-IsSorted x ys total trans s.1,
    )
  ]

  -- By a total preorder sorting sorts.
  pub sort-IsSorted :
      (xs : List A)
      → ((a b : A) → (le a b ≡ true) ⊎ (le b a ≡ true))
      → ((a b c : A) → le a b ≡ true → le b c ≡ true → le a c ≡ true)
      → IsSorted (sort xs)
  unfolding sort
  sort-IsSorted [] total trans = tt
  sort-IsSorted (x ∷ xs) total trans =
      insert_sorted-IsSorted x (sort xs) total trans (sort-IsSorted xs total trans)

  insert_sorted-All_out :
      (P : A → Type 0) (x : A) (ys : List A) → All P (insert_sorted x ys) → P x × All P ys
  unfolding insert_sorted
  insert_sorted-All_out P x [] h = h
  insert_sorted-All_out P x (y ∷ ys) h = ground (arith, insert_sorted-All_out P x ys)

  sort-All_out : (P : A → Type 0) (xs : List A) → All P (sort xs) → All P xs
  unfolding sort
  sort-All_out P [] h = tt
  sort-All_out P (x ∷ xs) h =
      let (p, rest) = insert_sorted-All_out P x (sort xs) h in (p, sort-All_out P xs rest)

  Member-insert_sorted :
      (a x : A) (ys : List A) → Member a (insert_sorted x ys) → (a ≡ x) ⊎ Member a ys
  unfolding insert_sorted
  Member-insert_sorted a x [] m = m
  Member-insert_sorted a x (y ∷ ys) m = ground (arith, Member-insert_sorted a x ys)

  pub Member-sort : (a : A) (xs : List A) → Member a (sort xs) → Member a xs
  unfolding sort
  Member-sort a [] m = m
  Member-sort a (x ∷ xs) m = elim (Member-insert_sorted a x (sort xs) m) [
    | inl e ↦ inl e
    | inr m' ↦ inr (Member-sort a xs m')
  ]

  pub sort_nonempty : (xs : List A) → sort xs ≡ [] → xs ≡ []
  unfolding sort insert_sorted
  sort_nonempty [] e = refl
  sort_nonempty (x ∷ xs) e = elim (list-cases (sort xs)) [
    | inl e' ↦ absurd (ground (arith, e, e'))
    | inr (y, ys, e') ↦ absurd (ground (arith, e, e'))
  ]

  -- The first of a sorted list is one of its elements, and by a total preorder before all of them.
  pub first-sort :
      (xs : List A)
      → IsPreorder le
      → xs ≢ []
      → (x : A) × (rest : List A) × (sort xs ≡ x ∷ rest) × Member x xs × All (λ y. le x y ≡ true) xs
  first-sort xs pre ne = elim (list-cases (sort xs)) [
    | inl e ↦ absurd (ne (sort_nonempty xs e))
    | inr (x, ys, e) ↦
        let sorted = subst IsSorted e (sort-IsSorted xs pre.total pre.trans) in
        let self : le x x ≡ true = ground (arith, pre.total x x) in
        (
          x,
          ys,
          e,
          Member-sort x xs (subst (Member x) (sym e) (inl refl)),
          sort-All_out (λ y. le x y ≡ true) xs
              (subst (All (λ y. le x y ≡ true)) (sym e) (self, sorted.0)),
        )
  ]
