-- ===== src/Cacheroute/Trace/Walk.antt =====
-- The loop that looks for a cycle of references always ends.
use cache_route.Common.{
  ℕ, zero, suc, ◌+◌, ◌≡◌, ◌≢◌, ◌≤◌, ◌<◌, refl, ap, ◌∙◌, true, Option, none, some, List, [], ◌∷◌,
  length, map, is_some, arith, Bool-cases, Option-cases, inl, inr, if◌then◌else◌,
}
use cache_route.Common.Table.{Table}
use cache_route.Common.Table
use cache_route.Common.Text.{Text, text_eq, text_eq_iff}
use cache_route.Cacheroute.Trace.{listed, distinct, walk}

without : Text → List Text → List Text
without k [] = []
without k (j ∷ ks) = if text_eq k j then ks else j ∷ without k ks

length-without :
    (k : Text) (ks : List Text)
    → listed text_eq k ks ≡ true
    → suc (length (without k ks)) ≡ length ks
unfolding without
length-without k [] h = absurd (cc)
length-without k (j ∷ ks) h = ground (arith, length-without k ks)

listed-without :
    (k j : Text) (ks : List Text) → j ≢ k → listed text_eq j (without k ks) ≡ listed text_eq j ks
unfolding without
listed-without k j [] ne = refl
listed-without k j (i ∷ ks) ne =
    ground (arith, text_eq_iff k i, text_eq_iff j i, listed-without k j ks ne)

-- Different keys that are all in a list are not more than it has.
distinct-length :
    (xs ys : List Text)
    → distinct text_eq xs ≡ true
    → ((k : Text) → listed text_eq k xs ≡ true → listed text_eq k ys ≡ true)
    → length xs ≤ length ys
distinct-length [] ys d h = omega arith
distinct-length (x ∷ xs) ys d h =
    let there = h x (ground (arith, text_eq_iff x x)) in
    let shorter = distinct-length xs (without x ys) (ground arith) (λ k l.
      let ne : k ≢ x = λ same. absurd (ground (arith, ap (λ y. listed text_eq y xs) same)) in
      listed-without x k ys ne ∙ h k (ground arith)) in
    omega (arith, length-without x ys there)

keys : Table (Option Text) → List Text
keys refs = map (λ e. e.0) refs

lookup-keys :
    (k : Text) (refs : Table (Option Text)) (next : Option Text)
    → Table.lookup k refs ≡ some next
    → listed text_eq k (keys refs) ≡ true
unfolding keys
lookup-keys k [] next e = absurd (cc)
lookup-keys k ((j, v) ∷ refs) next e = ground (arith, lookup-keys k refs next)

length-keys : (refs : Table (Option Text)) → length (keys refs) ≡ length refs
unfolding keys
length-keys [] = refl
length-keys (e ∷ refs) = ap suc (length-keys refs)

-- With enough rounds for the keys that were not seen, the loop ends by its own tests.
walk-ends :
    (fuel : ℕ) (refs : Table (Option Text)) (seen : List Text) (current : Option Text)
    → distinct text_eq seen ≡ true
    → ((k : Text) → listed text_eq k seen ≡ true → listed text_eq k (keys refs) ≡ true)
    → length refs < fuel + length seen
    → is_some (walk fuel refs seen current) ≡ true
unfolding walk
walk-ends fuel refs seen none d h enough = refl
walk-ends zero refs seen (some k) d h enough =
    absurd (omega (arith, distinct-length seen (keys refs) d h, length-keys refs))
walk-ends (suc fuel) refs seen (some k) d h enough = elim (Option-cases (Table.lookup k refs)) [
  | inl nothing ↦ rw (is_some, walk, nothing) refl
  | inr (next, found) ↦ elim (Bool-cases (listed text_eq k seen)) [
    | inl again ↦ rw (is_some, walk, found, again) refl
    | inr first ↦
        rw (is_some, walk, found, first)
          (walk-ends fuel refs (k ∷ seen) next (ground arith)
            (λ j l. ground (arith, h j, text_eq_iff j k, lookup-keys k refs next found))
            (omega (arith)))
  ]
]

-- The loop that follows references ends, whatever they are and wherever it starts, cycles included:
-- a round more than there are references is enough.
pub walk-ends_from :
    (refs : Table (Option Text)) (k : Text)
    → is_some (walk (suc (length refs)) refs [] (some k)) ≡ true
walk-ends_from refs k =
    walk-ends (suc (length refs)) refs [] (some k) refl (λ j l. absurd (cc)) (omega arith)
