-- ===== src/Common/Lists.antt =====
-- Lists measured and indexed by native numbers, under the library's names.
use Prim.Native.Nat.{◌<◌, ◌-◌, ◌≤◌, ℕ, zero, suc, ◌+◌, ◌≤◌}
use mathlib.Core.Path.{subst, sym, ◌≡◌, refl, ap}
use mathlib.Core.Logic.{◌≢◌, inl, inr, ◌⊎◌}
use mathlib.Core.Bool.{true, Bool}
use mathlib.Core.List.{List, [], ◌∷◌, ◌++◌, map}
use mathlib.Core.Option.{Option, none, some}
use native.Mathlib.Omega.{arith}
use cache_route.Common.Booleans.{if◌then◌else◌}

module _ {ℓ} {A : Type ℓ} where
  abbrev pub length : List A → ℕ
  length [] = 0
  length (x ∷ xs) = suc (length xs)

  abbrev pub get_elem? : List A → ℕ → Option A
  get_elem? [] i = none
  get_elem? (x ∷ xs) zero = some x
  get_elem? (x ∷ xs) (suc i) = get_elem? xs i

  -- `[x for x in xs if p(x)]`
  abbrev pub keep : (A → Bool) → List A → List A
  keep p [] = []
  keep p (x ∷ xs) = if p x then x ∷ keep p xs else keep p xs

  abbrev pub take : ℕ → List A → List A
  take zero xs = []
  take (suc n) [] = []
  take (suc n) (x ∷ xs) = x ∷ take n xs

  abbrev pub drop : ℕ → List A → List A
  drop zero xs = xs
  drop (suc n) [] = []
  drop (suc n) (x ∷ xs) = drop n xs

  pub length-append : (xs ys : List A) → length (xs ++ ys) ≡ length xs + length ys
  length-append [] ys = omega arith
  length-append (x ∷ xs) ys = omega (arith, length-append xs ys)

  pub length-keep : (p : A → Bool) (xs : List A) → length (keep p xs) ≤ length xs
  length-keep p [] = omega arith
  length-keep p (x ∷ xs) = ground (arith, length-keep p xs)

  pub take-append-drop : (n : ℕ) (xs : List A) → take n xs ++ drop n xs ≡ xs
  take-append-drop zero xs = refl
  take-append-drop (suc n) [] = refl
  take-append-drop (suc n) (x ∷ xs) = ap (◌∷◌ x) (take-append-drop n xs)

  pub take-all : (n : ℕ) (xs : List A) → length xs ≤ n → take n xs ≡ xs
  take-all zero [] h = refl
  take-all zero (x ∷ xs) h = absurd (omega arith)
  take-all (suc n) [] h = refl
  take-all (suc n) (x ∷ xs) h = ap (◌∷◌ x) (take-all n xs (omega arith))

  pub length-drop : (n : ℕ) (xs : List A) → length (drop n xs) ≡ length xs - n
  length-drop zero xs = omega arith
  length-drop (suc n) [] = omega arith
  length-drop (suc n) (x ∷ xs) = omega (arith, length-drop n xs)

-- Every element satisfies `P`; computes to a tuple.
abbrev pub All {ℓ κ} : {A : Type ℓ} → (A → Type κ) → List A → Type κ
All P [] = Unit
All P (x ∷ xs) = P x × All P xs

-- Membership, with the place kept.
abbrev pub Member : {A : Type 0} → A → List A → Type 0
Member a [] = ⊥
Member a (x ∷ xs) = (a ≡ x) ⊎ Member a xs

pub Member-keep_out :
    {A : Type 0} (p : A → Bool) (a : A) (xs : List A)
    → Member a (keep p xs)
    → Member a xs × (p a ≡ true)
Member-keep_out p a [] m = absurd m
Member-keep_out p a (x ∷ xs) m = ground (arith, Member-keep_out p a xs)

pub Member-keep_in :
    {A : Type 0} (p : A → Bool) (a : A) (xs : List A)
    → Member a xs
    → p a ≡ true
    → Member a (keep p xs)
Member-keep_in p a [] m h = absurd m
Member-keep_in p a (x ∷ xs) m h = ground (arith, Member-keep_in p a xs)

-- A weaker test keeps more.
pub length-keep_mono {ℓ} :
    {A : Type ℓ} (p q : A → Bool) (xs : List A)
    → ((a : A) → p a ≡ true → q a ≡ true)
    → length (keep p xs) ≤ length (keep q xs)
length-keep_mono p q [] h = omega arith
length-keep_mono p q (x ∷ xs) h = ground (arith, h x, length-keep_mono p q xs h)

pub All-of_Member {κ} :
    {A : Type 0} (P : A → Type κ) (xs : List A) → ((a : A) → Member a xs → P a) → All P xs
All-of_Member P [] h = tt
All-of_Member P (x ∷ xs) h = (h x (inl refl), All-of_Member P xs (λ a m. h a (inr m)))

pub All-Member {κ} :
    {A : Type 0} (P : A → Type κ) (xs : List A) (a : A) → All P xs → Member a xs → P a
All-Member P [] a h m = absurd m
All-Member P (x ∷ xs) a h (inl e) = subst P (sym e) h.0
All-Member P (x ∷ xs) a h (inr m) = All-Member P xs a h.1 m

-- `xs[i] = v`; out of range nothing is written.
abbrev pub set {ℓ} : {A : Type ℓ} → List A → ℕ → A → List A
set [] i v = []
set (x ∷ xs) zero v = v ∷ xs
set (x ∷ xs) (suc i) v = x ∷ set xs i v

pub get_elem?-Member :
    {A : Type 0} (xs : List A) (i : ℕ)
    → i < length xs
    → (a : A) × (get_elem? xs i ≡ some a) × Member a xs
get_elem?-Member [] i h = absurd (omega arith)
get_elem?-Member (x ∷ xs) zero h = (x, refl, inl refl)
get_elem?-Member (x ∷ xs) (suc i) h =
    let (a, e, m) = get_elem?-Member xs i (omega arith) in (a, e, inr m)

-- What a mapped list holds is the image of something.
pub Member-map :
    {A B : Type 0} (g : A → B) (b : B) (xs : List A)
    → Member b (map g xs)
    → (a : A) × Member a xs × (b ≡ g a)
Member-map g b [] m = absurd m
Member-map g b (x ∷ xs) (inl e) = (x, inl refl, e)
Member-map g b (x ∷ xs) (inr m) = let (a, found, e) = Member-map g b xs m in (a, inr found, e)

pub All-map :
    {A B : Type 0} (P : B → Type 0) (g : A → B) (xs : List A)
    → All P (map g xs)
    → All (λ a. P (g a)) xs
All-map P g [] h = tt
All-map P g (x ∷ xs) h = (h.0, All-map P g xs h.1)

pub Member-nonempty : {A : Type 0} (a : A) (xs : List A) → Member a xs → xs ≢ []
Member-nonempty a [] m = absurd m
Member-nonempty a (x ∷ xs) m = λ e. cc
