-- ===== src/Common/Dict.antt =====
-- A Python dict in insertion order. Keys are identifiers that the program only compares, so a
-- number stands for each.
use cache_route.Common.{
  ℕ, ◌≡◌, refl, ◌≢◌, Bool, false, Option, none, some, List, [], ◌∷◌, arith, ◌==◌, if◌then◌else◌,
  is_some, Member, ap,
}

abbrev pub Dict {ℓ} : Type ℓ → Type ℓ
Dict V = List (ℕ × V)

module _ {ℓ} {V : Type ℓ} where
  -- `d.get(k)`
  abbrev pub lookup : ℕ → Dict V → Option V
  lookup k [] = none
  lookup k ((j, v) ∷ d) = if k == j then some v else lookup k d

  -- `d[k] = v`
  abbrev pub insert : ℕ → V → Dict V → Dict V
  insert k v [] = (k, v) ∷ []
  insert k v ((j, w) ∷ d) = if k == j then (j, v) ∷ d else (j, w) ∷ insert k v d

  -- `d.pop(k, None)`
  abbrev pub erase : ℕ → Dict V → Dict V
  erase k [] = []
  erase k ((j, w) ∷ d) = if k == j then d else (j, w) ∷ erase k d

  -- `d.values()`
  abbrev pub values : Dict V → List V
  values [] = []
  values ((j, v) ∷ d) = v ∷ values d

  -- `d.update(patch)`
  abbrev pub update : Dict V → Dict V → Dict V
  update d [] = d
  update d ((k, v) ∷ patch) = update (insert k v d) patch

  -- `k in d`
  abbrev pub contains : ℕ → Dict V → Bool
  contains k d = is_some (lookup k d)

  -- No key is listed twice.
  abbrev pub IsDict : Dict V → Type 0
  IsDict [] = Unit
  IsDict ((k, v) ∷ d) = (contains k d ≡ false) × IsDict d

  pub lookup-insert :
      (j k : ℕ) (v : V) (d : Dict V)
      → lookup j (insert k v d) ≡ (if j == k then some v else lookup j d)
  lookup-insert j k v [] = refl
  lookup-insert j k v ((i, w) ∷ d) = ground (arith, lookup-insert j k v d)

  pub lookup-erase_ne : (j k : ℕ) (d : Dict V) → j ≢ k → lookup j (erase k d) ≡ lookup j d
  lookup-erase_ne j k [] h = refl
  lookup-erase_ne j k ((i, w) ∷ d) h = ground (arith, lookup-erase_ne j k d h)

  pub lookup-erase_self : (k : ℕ) (d : Dict V) → IsDict d → lookup k (erase k d) ≡ none
  lookup-erase_self k [] h = refl
  lookup-erase_self k ((i, w) ∷ d) h = ground (arith, lookup-erase_self k d h.1)

  pub insert-IsDict : (k : ℕ) (v : V) (d : Dict V) → IsDict d → IsDict (insert k v d)
  insert-IsDict k v [] h = (refl, tt)
  insert-IsDict k v ((i, w) ∷ d) h = ground (arith, insert-IsDict k v d h.1, lookup-insert i k v d)

  pub erase-IsDict : (k : ℕ) (d : Dict V) → IsDict d → IsDict (erase k d)
  erase-IsDict k [] h = tt
  erase-IsDict k ((i, w) ∷ d) h = ground (arith, erase-IsDict k d h.1, lookup-erase_ne i k d)

  -- Every entry satisfies `P`.
  abbrev pub Entries : (ℕ → V → Type 0) → Dict V → Type 0
  Entries P [] = Unit
  Entries P ((k, v) ∷ d) = P k v × Entries P d

  pub insert-Entries :
      (P : ℕ → V → Type 0) (k : ℕ) (v : V) (d : Dict V)
      → P k v
      → Entries P d
      → Entries P (insert k v d)
  insert-Entries P k v [] h e = (h, tt)
  insert-Entries P k v ((i, w) ∷ d) h e = ground (arith, insert-Entries P k v d h e.1)

  pub erase-Entries :
      (P : ℕ → V → Type 0) (k : ℕ) (d : Dict V) → Entries P d → Entries P (erase k d)
  erase-Entries P k [] e = tt
  erase-Entries P k ((i, w) ∷ d) e = ground (arith, erase-Entries P k d e.1)

  pub lookup-Entries :
      (P : ℕ → V → Type 0) (k : ℕ) (v : V) (d : Dict V) → Entries P d → lookup k d ≡ some v → P k v
  lookup-Entries P k v [] e h = absurd (cc)
  lookup-Entries P k v ((i, w) ∷ d) e h = ground (arith, lookup-Entries P k v d e.1)

module _ {V : Type 0} where
  pub Member-values_of_lookup :
      (k : ℕ) (v : V) (d : Dict V) → lookup k d ≡ some v → Member v (values d)
  Member-values_of_lookup k v [] h = absurd (cc)
  Member-values_of_lookup k v ((i, w) ∷ d) h = ground (arith, Member-values_of_lookup k v d)

  -- A value is found under the key that each entry names.
  pub lookup_of_Member-values :
      (key : V → ℕ) (v : V) (d : Dict V)
      → IsDict d
      → Entries (λ k w. k ≡ key w) d
      → Member v (values d)
      → lookup (key v) d ≡ some v
  lookup_of_Member-values key v [] u e m = absurd m
  lookup_of_Member-values key v ((i, w) ∷ d) u e m =
      ground (arith, ap key {x = v} {y = w}, lookup_of_Member-values key v d u.1 e.1)

  pub Entries-map :
      (P Q : ℕ → V → Type 0) (d : Dict V)
      → ((k : ℕ) (v : V) → P k v → Q k v)
      → Entries P d
      → Entries Q d
  Entries-map P Q [] f e = tt
  Entries-map P Q ((i, w) ∷ d) f e = (f i w e.0, Entries-map P Q d f e.1)
