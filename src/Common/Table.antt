-- ===== src/Common/Table.antt =====
-- A Python dict in insertion order whose keys are texts.
use cache_route.Common.{
  Bool, false, is_some, ◌⊎◌, ◌≢◌, inl, inr, Bool-cases, ◌≡◌, refl, Option, none, some, List, [],
  ◌∷◌, arith, if◌then◌else◌,
}
use cache_route.Common.Text.{Text, text_eq, text_eq_iff}

abbrev pub Table {ℓ} : Type ℓ → Type ℓ
Table V = List (Text × V)

module _ {ℓ} {V : Type ℓ} where
  -- `d.get(k)`
  abbrev pub lookup : Text → Table V → Option V
  lookup k [] = none
  lookup k ((j, v) ∷ d) = if text_eq k j then some v else lookup k d

  -- `d[k] = v`
  abbrev pub insert : Text → V → Table V → Table V
  insert k v [] = (k, v) ∷ []
  insert k v ((j, w) ∷ d) = if text_eq k j then (j, v) ∷ d else (j, w) ∷ insert k v d

  -- `d.pop(k, None)`
  abbrev pub erase : Text → Table V → Table V
  erase k [] = []
  erase k ((j, w) ∷ d) = if text_eq k j then d else (j, w) ∷ erase k d

  pub lookup-insert :
      (j k : Text) (v : V) (d : Table V)
      → lookup j (insert k v d) ≡ (if text_eq j k then some v else lookup j d)
  lookup-insert j k v [] = refl
  lookup-insert j k v ((i, w) ∷ d) =
      ground (arith, text_eq_iff j k, text_eq_iff k i, text_eq_iff j i, lookup-insert j k v d)

  -- `k in d`
  abbrev pub contains : Text → Table V → Bool
  contains k d = is_some (lookup k d)

  -- No key is listed twice.
  abbrev pub IsTable : Table V → Type 0
  IsTable [] = Unit
  IsTable ((k, v) ∷ d) = (contains k d ≡ false) × IsTable d

  pub insert-IsTable : (k : Text) (v : V) (d : Table V) → IsTable d → IsTable (insert k v d)
  insert-IsTable k v [] h = (refl, tt)
  insert-IsTable k v ((i, w) ∷ d) h =
      ground
        (arith, text_eq_iff k i, text_eq_iff i k, insert-IsTable k v d h.1, lookup-insert i k v d)

  -- What is found after an insertion is what was inserted, or was there.
  pub lookup-insert-cases :
      (j k : Text) (v w : V) (d : Table V)
      → lookup j (insert k v d) ≡ some w
      → ((j ≡ k) × (w ≡ v)) ⊎ ((j ≢ k) × (lookup j d ≡ some w))
  lookup-insert-cases j k v w d e = elim (Bool-cases (text_eq j k)) [
    | inl same ↦ inl (ground (arith, text_eq_iff j k), ground (arith, lookup-insert j k v d))
    | inr other ↦ inr (ground (arith, text_eq_iff j k), ground (arith, lookup-insert j k v d))
  ]

  pub lookup-insert_self : (k : Text) (v : V) (d : Table V) → lookup k (insert k v d) ≡ some v
  lookup-insert_self k v d = ground (arith, lookup-insert k k v d, text_eq_iff k k)

  pub lookup-insert_ne :
      (j k : Text) (v : V) (d : Table V) → j ≢ k → lookup j (insert k v d) ≡ lookup j d
  lookup-insert_ne j k v d h = ground (arith, lookup-insert j k v d, text_eq_iff j k)

  pub lookup-erase_ne : (j k : Text) (d : Table V) → j ≢ k → lookup j (erase k d) ≡ lookup j d
  lookup-erase_ne j k [] h = refl
  lookup-erase_ne j k ((i, w) ∷ d) h =
      ground (arith, text_eq_iff k i, text_eq_iff j i, lookup-erase_ne j k d h)

  pub lookup-erase_self : (k : Text) (d : Table V) → IsTable d → lookup k (erase k d) ≡ none
  lookup-erase_self k [] h = refl
  lookup-erase_self k ((i, w) ∷ d) h = ground (arith, text_eq_iff k i, lookup-erase_self k d h.1)

  pub erase-IsTable : (k : Text) (d : Table V) → IsTable d → IsTable (erase k d)
  erase-IsTable k [] h = tt
  erase-IsTable k ((i, w) ∷ d) h =
      ground (arith, text_eq_iff k i, erase-IsTable k d h.1, lookup-erase_ne i k d)
