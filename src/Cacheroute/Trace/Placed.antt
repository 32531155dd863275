-- ===== src/Cacheroute/Trace/Placed.antt =====
-- Stages that stand where they were begun: a list of such stages is ordered.
use cache_route.Common.{
  ℕ, ◌≡◌, ◌<◌, refl, ap, true, false, Option, none, some, List, [], ◌∷◌, length, arith, Bool-cases,
  inl, inr, if◌then◌else◌,
}
use cache_route.Common.Text.{Text, text_eq, text_eq_iff}
use cache_route.Cacheroute.Trace.{TraceStage, listed}

-- How many identifiers came before this one; the newest stand first.
abbrev pub position : Text → List Text → Option ℕ
position k [] = none
position k (j ∷ all_ids) = if text_eq k j then some (length all_ids) else position k all_ids

-- A reference is to what came before number `n`.
abbrev pub IsBefore : ℕ → List Text → Option Text → Type 0
IsBefore n all_ids none = Unit
IsBefore n all_ids (some k) = (m : ℕ) × (position k all_ids ≡ some m) × (m < n)

pub record IsPlaced (all_ids : List Text) (s : TraceStage) : Type 0 where
  pub at_its_place : position s.stage_id all_ids ≡ some s.sequence
  pub parent_before : IsBefore s.sequence all_ids s.parent_stage_id
  pub fallback_before : IsBefore s.sequence all_ids s.fallback_stage_id

pub position-bound :
    (k : Text) (all_ids : List Text) (n : ℕ) → position k all_ids ≡ some n → n < length all_ids
position-bound k [] n e = absurd (cc)
position-bound k (j ∷ all_ids) n e = ground (arith, position-bound k all_ids n)

-- Two identifiers at one place are one.
pub position-injective :
    (j k : Text) (all_ids : List Text) (n : ℕ)
    → position j all_ids ≡ some n
    → position k all_ids ≡ some n
    → j ≡ k
position-injective j k [] n e f = absurd (cc)
position-injective j k (i ∷ all_ids) n e f = ground (
  arith,
  text_eq_iff j i,
  text_eq_iff k i,
  position-bound j all_ids n,
  position-bound k all_ids n,
  position-injective j k all_ids n,
)

pub position-listed :
    (k : Text) (all_ids : List Text) (n : ℕ)
    → position k all_ids ≡ some n
    → listed text_eq k all_ids ≡ true
position-listed k [] n e = absurd (cc)
position-listed k (j ∷ all_ids) n e = ground (arith, position-listed k all_ids n)

pub listed-position :
    (k : Text) (all_ids : List Text)
    → listed text_eq k all_ids ≡ true
    → (n : ℕ) × (position k all_ids ≡ some n)
listed-position k [] e = absurd (cc)
listed-position k (j ∷ all_ids) e = elim (Bool-cases (text_eq k j)) [
  | inl same ↦ (length all_ids, rw same refl)
  | inr other ↦ let (n, at) = listed-position k all_ids (rw other at e) in (n, rw other at)
]

-- A place is kept when a new identifier comes.
position-keep :
    (k new : Text) (all_ids : List Text) (n : ℕ)
    → listed text_eq new all_ids ≡ false
    → position k all_ids ≡ some n
    → position k (new ∷ all_ids) ≡ some n
position-keep k new all_ids n fresh e = elim (Bool-cases (text_eq k new)) [
  | inl same ↦
      let it_is : k ≡ new = ground (arith, text_eq_iff k new) in
      absurd
        (ground (arith, position-listed k all_ids n e, ap (λ x. listed text_eq x all_ids) it_is))
  | inr other ↦ rw other e
]

pub IsBefore-keep :
    (n : ℕ) (new : Text) (all_ids : List Text) (k : Option Text)
    → listed text_eq new all_ids ≡ false
    → IsBefore n all_ids k
    → IsBefore n (new ∷ all_ids) k
IsBefore-keep n new all_ids none fresh h = tt
IsBefore-keep n new all_ids (some k) fresh (m, at, lt) =
    (m, position-keep k new all_ids m fresh at, lt)

pub IsPlaced-keep :
    (new : Text) (all_ids : List Text) (s : TraceStage)
    → listed text_eq new all_ids ≡ false
    → IsPlaced all_ids s
    → IsPlaced (new ∷ all_ids) s
IsPlaced-keep new all_ids s fresh h = record {
  at_its_place = position-keep s.stage_id new all_ids s.sequence fresh h.at_its_place;
  parent_before = IsBefore-keep s.sequence new all_ids s.parent_stage_id fresh h.parent_before;
  fallback_before =
      IsBefore-keep s.sequence new all_ids s.fallback_stage_id fresh h.fallback_before;
}
