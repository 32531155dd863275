-- ===== src/Common/Lex.antt =====
-- Python's order of tuples: by the first element in which they differ.
use cache_route.Common.{ℕ, Bool, true, false, if◌then◌else◌, ◌≡◌, ◌⊎◌, leb, arith}

module _ {A : Type 0} where
  -- A total preorder, as a test.
  pub record IsPreorder (le : A → A → Bool) : Type 0 where
    pub total : (a b : A) → (le a b ≡ true) ⊎ (le b a ≡ true)
    pub trans : (a b c : A) → le a b ≡ true → le b c ≡ true → le a c ≡ true

  -- First by `le`, and among equals by `le'`.
  abbrev pub lex : (A → A → Bool) → (A → A → Bool) → A → A → Bool
  lex le le' a b = if le b a then (if le a b then le' a b else false) else true

  pub lex-IsPreorder :
      (le le' : A → A → Bool) → IsPreorder le → IsPreorder le' → IsPreorder (lex le le')
  lex-IsPreorder le le' h h' = record {
    total = λ a b. ground (arith, h.total a b, h'.total a b);
    trans = λ a b c. ground (
      arith,
      h.total a b,
      h.total b c,
      h.total a c,
      h.trans a b c,
      h.trans b c a,
      h.trans c a b,
      h'.trans a b c,
    );
  }

  -- By a number, the smaller first.
  pub ascending-IsPreorder : (f : A → ℕ) → IsPreorder (λ a b. leb (f a) (f b))
  ascending-IsPreorder f = record {
    total = λ a b. ground arith;
    trans = λ a b c h h'. ground arith;
  }

  -- By a number, the larger first.
  pub descending-IsPreorder : (f : A → ℕ) → IsPreorder (λ a b. leb (f b) (f a))
  descending-IsPreorder f = record {
    total = λ a b. ground arith;
    trans = λ a b c h h'. ground arith;
  }
