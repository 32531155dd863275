-- ===== src/Common/Floats/Order.antt =====
-- The order of floats: least elements of lists.
use cache_route.Common.{
  ◌≡◌, refl, ◌∙◌, true, List, [], ◌∷◌, if◌then◌else◌, Member, All, arith, inl, inr, ◌⊎◌,
}
use cache_route.Common.Floats.{Floats, IsOrdered, min_from, max_from, lt, float_max}

module _ {R : Type 0} ⦃f : Floats R⦄ (ord : IsOrdered f) where
  pub le_refl : (a : R) → f.le a a ≡ true
  le_refl a = ground (arith, ord.le_total a a)

  -- The first of two where they are equal.
  abbrev pub smaller : R → R → R
  smaller m x = if lt x m then x else m

  pub smaller-le : (m x : R) → (f.le (smaller m x) m ≡ true) × (f.le (smaller m x) x ≡ true)
  smaller-le m x =
      (ground (arith, le_refl m, ord.le_total x m), ground (arith, le_refl x, ord.le_total x m))

  pub smaller-cases : (m x : R) → (smaller m x ≡ m) ⊎ (smaller m x ≡ x)
  smaller-cases m x = ground arith

  pub min_from-le :
      (m : R) (xs : List R)
      → (f.le (min_from m xs) m ≡ true) × All (λ x. f.le (min_from m xs) x ≡ true) xs
  min_from-le m [] = (le_refl m, tt)
  min_from-le m (x ∷ xs) =
      let (h, t) = min_from-le (smaller m x) xs in
      let (low, low') = smaller-le m x in
      (ord.le_trans _ (smaller m x) m h low, (ord.le_trans _ (smaller m x) x h low', t))

  pub min_from-Member : (m : R) (xs : List R) → Member (min_from m xs) (m ∷ xs)
  min_from-Member m [] = inl refl
  min_from-Member m (x ∷ xs) = elim (min_from-Member (smaller m x) xs) [
    | inr h ↦ inr (inr h)
    | inl h ↦ elim (smaller-cases m x) [ inl e ↦ inl (h ∙ e) | inr e ↦ inr (inl (h ∙ e)) ]
  ]

  pub float_max-le : (a b : R) → (f.le a (float_max a b) ≡ true) × (f.le b (float_max a b) ≡ true)
  float_max-le a b =
      (ground (arith, le_refl a, ord.le_total a b), ground (arith, le_refl b, ord.le_total b a))

  -- The first of two where they are equal.
  abbrev pub larger : R → R → R
  larger m x = if lt m x then x else m

  larger-le : (m x : R) → (f.le m (larger m x) ≡ true) × (f.le x (larger m x) ≡ true)
  larger-le m x =
      (ground (arith, le_refl m, ord.le_total x m), ground (arith, le_refl x, ord.le_total x m))

  larger-cases : (m x : R) → (larger m x ≡ m) ⊎ (larger m x ≡ x)
  larger-cases m x = ground arith

  pub max_from-le :
      (m : R) (xs : List R)
      → (f.le m (max_from m xs) ≡ true) × All (λ x. f.le x (max_from m xs) ≡ true) xs
  max_from-le m [] = (le_refl m, tt)
  max_from-le m (x ∷ xs) =
      let (h, t) = max_from-le (larger m x) xs in
      let (high, high') = larger-le m x in
      (ord.le_trans m (larger m x) _ high h, (ord.le_trans x (larger m x) _ high' h, t))

  pub max_from-Member : (m : R) (xs : List R) → Member (max_from m xs) (m ∷ xs)
  max_from-Member m [] = inl refl
  max_from-Member m (x ∷ xs) = elim (max_from-Member (larger m x) xs) [
    | inr h ↦ inr (inr h)
    | inl h ↦ elim (larger-cases m x) [ inl e ↦ inl (h ∙ e) | inr e ↦ inr (inl (h ∙ e)) ]
  ]
