-- ===== src/Cacheroute/State.antt =====
-- src/cacheroute/runtime/state.py: time stamps, and how a change of state can fail. A time is a
-- number of microseconds; the offset of its zone counts only as zero or not.
use cache_route.Common.{ℕ, Bool, List, [], ◌∷◌, not, ◌≡◌, ◌⊎◌, inl, inr, refl}
use cache_route.Common.Text.{Text, strip}

pub record Stamp : Type 0 where
  pub time : ℕ
  pub utc : Bool

-- `ValidationError` is what pydantic makes of a refused field or model.
pub data TransitionError (S : Type 0) : Type 0 where
  invalid_state_transition : S → S → List S → TransitionError S
  not_utc moves_backwards validation_error : TransitionError S

pub data Result (E A : Type 0) : Type 0 where
  failed : E → Result E A
  ok : A → Result E A

abbrev is_blank : Text → Bool
is_blank [] = Bool.true
is_blank (c ∷ cs) = Bool.false

-- `nonempty` accepts the text.
unfoldable pub nonempty : Text → Bool
unfolding strip
nonempty s = not (is_blank (strip s))

pub Result-cases :
    {E A : Type 0} (r : Result E A)
    → ((e : E) × (r ≡ Result.failed e)) ⊎ ((a : A) × (r ≡ Result.ok a))
Result-cases (Result.failed e) = inl (e, refl)
Result-cases (Result.ok a) = inr (a, refl)
