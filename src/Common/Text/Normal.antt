-- ===== src/Common/Text/Normal.antt =====
-- Stripping and lowering a text twice is doing it once.
use cache_route.Common.{
  ℕ, ◌+◌, ◌≡◌, ◌≤◌, refl, sym, ap, subst, ◌∙◌, inl, inr, ◌&&◌, [], ◌∷◌, ◌++◌, map, length, leb,
  if◌then◌else◌, Bool-cases, arith,
}
use cache_route.Common.Text.{Text, is_space, lstrip, strip, lower}
use mathlib.Core.List.{reverse, reverse-reverse, reverse-append, reverse-cons, map-append}

length-lstrip : (s : Text) → length (lstrip s) ≤ length s
unfolding lstrip
length-lstrip [] = omega arith
length-lstrip (c ∷ s) = elim (Bool-cases (is_space c)) [
  | inl e ↦ rw e (omega (arith, length-lstrip s))
  | inr e ↦ rw e (omega arith)
]

lstrip_twice : (s : Text) → lstrip (lstrip s) ≡ lstrip s
unfolding lstrip
lstrip_twice [] = refl
lstrip_twice (c ∷ s) = elim (Bool-cases (is_space c)) [
  | inl e ↦ rw e (lstrip_twice s)
  | inr e ↦ rw e (rw e refl)
]

-- A beginning of a text that has no space in front has none either.
lstrip-prefix : (u v : Text) → lstrip (u ++ v) ≡ u ++ v → lstrip u ≡ u
unfolding lstrip
lstrip-prefix [] v h = refl
lstrip-prefix (c ∷ u) v h = elim (Bool-cases (is_space c)) [
  | inl e ↦
      let short : lstrip (u ++ v) ≡ c ∷ (u ++ v) = rw e at h in
      absurd (omega (arith, ap length short, length-lstrip (u ++ v)))
  | inr e ↦ rw e refl
]

lstrip-suffix : (s : Text) → (w : Text) × (s ≡ w ++ lstrip s)
unfolding lstrip
lstrip-suffix [] = ([], refl)
lstrip-suffix (c ∷ s) = elim (Bool-cases (is_space c)) [
  | inl e ↦ let (w, h) = lstrip-suffix s in (c ∷ w, rw e (ap (◌∷◌ c) h))
  | inr e ↦ ([], rw e refl)
]

lstrip-strip : (s : Text) → lstrip (strip s) ≡ strip s
unfolding strip
lstrip-strip s =
    let t = lstrip s in
    let (w, h) = lstrip-suffix (reverse t) in
    let whole : t ≡ strip s ++ reverse w =
      sym (reverse-reverse t) ∙ ap reverse h ∙ reverse-append w (lstrip (reverse t)) in
    lstrip-prefix (strip s) (reverse w) (subst (λ x. lstrip x ≡ x) whole (lstrip_twice s))

strip_twice : (s : Text) → strip (strip s) ≡ strip s
unfolding strip
strip_twice s =
    let back = reverse (lstrip s) in
    ap (λ x. reverse (lstrip (reverse x))) (lstrip-strip s)
    ∙ ap (λ x. reverse (lstrip x)) (reverse-reverse (lstrip back))
    ∙ ap reverse (lstrip_twice back)

lower_char : ℕ → ℕ
lower_char c = if leb b'A' c && leb c b'Z' then c + 32 else c

space-lower : (c : ℕ) → is_space (lower_char c) ≡ is_space c
unfolding is_space lower_char
space-lower c = ground arith

lstrip-lower : (s : Text) → lstrip (map lower_char s) ≡ map lower_char (lstrip s)
unfolding lstrip
lstrip-lower [] = refl
lstrip-lower (c ∷ s) = elim (Bool-cases (is_space c)) [
  | inl e ↦ rw (space-lower c, e) (lstrip-lower s)
  | inr e ↦ rw (space-lower c, e) refl
]

reverse-map : (g : ℕ → ℕ) (s : Text) → reverse (map g s) ≡ map g (reverse s)
reverse-map g [] = refl
reverse-map g (c ∷ s) =
    reverse-cons (g c) (map g s)
    ∙ ap (λ x. x ++ g c ∷ []) (reverse-map g s)
    ∙ sym (map-append g (reverse s) (c ∷ []))
    ∙ ap (map g) (sym (reverse-cons c s))

strip-lower : (s : Text) → strip (map lower_char s) ≡ map lower_char (strip s)
unfolding strip
strip-lower s =
    ap (λ x. reverse (lstrip (reverse x))) (lstrip-lower s)
    ∙ ap (λ x. reverse (lstrip x)) (reverse-map lower_char (lstrip s))
    ∙ ap reverse (lstrip-lower (reverse (lstrip s)))
    ∙ reverse-map lower_char (lstrip (reverse (lstrip s)))

lower_twice : (s : Text) → map lower_char (map lower_char s) ≡ map lower_char s
unfolding lower_char
lower_twice [] = refl
lower_twice (c ∷ s) = ground (arith, lower_twice s)

pub normal_twice : (s : Text) → lower (strip (lower (strip s))) ≡ lower (strip s)
unfolding lower lower_char
normal_twice s =
    ap (map lower_char) (strip-lower (strip s) ∙ ap (map lower_char) (strip_twice s))
    ∙ lower_twice (strip s)
