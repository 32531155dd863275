-- ===== src/KdnServer/Gateway/Refusals.antt =====
-- The guard of the gateway's handlers, and the answers that carry an error.
use cache_route.Common.{
  not, ◌||◌, ℕ, ◌≡◌, ◌⊎◌, refl, inl, inr, Bool, true, false, none, some, ◌==◌, arith, Bool-cases,
}
use cache_route.Common.Text.{Text, text_eq, text_eq_iff}
use cache_route.Cacheroute.State.{Result}
use cache_route.Cacheroute.Contracts.{
  SupportState, is_supported, OutcomeCode, GatewayTargetedRequest, is_request, profile_code,
}
use cache_route.Cacheroute.Contracts.CacheService.{
  Response, ResponseType, accepts, consistent_outcome, outcome_ok, success_payload, is_targeted,
  same_profile, is_outcome,
}
use cache_route.KdnServer.Capabilities.{CapabilitySnapshot}
use cache_route.KdnServer.Gateway.{
  MockGateway, GatewayError, refusal, respond, gate, negotiate, guarded, remade, wrong_target,
  old_generation, not_supported,
}

-- The request is to the endpoint that the capabilities are of.
pub record IsHere (c : CapabilitySnapshot) (q : GatewayTargetedRequest) : Type 0 where
  pub profile : profile_code q.runtime_profile ≡ profile_code c.runtime_profile
  pub compatibility : q.compatibility_profile_id ≡ c.compatibility_profile_id
  pub endpoint : q.endpoint_id ≡ c.endpoint_id
  pub generation : q.endpoint_generation ≡ c.endpoint_generation

abbrev elsewhere : CapabilitySnapshot → GatewayTargetedRequest → Bool
elsewhere c q =
    not (same_profile q.runtime_profile c.runtime_profile)
    || not (text_eq q.compatibility_profile_id c.compatibility_profile_id)
    || not (q.endpoint_id == c.endpoint_id)

elsewhere-IsHere :
    (c : CapabilitySnapshot) (q : GatewayTargetedRequest)
    → elsewhere c q ≡ false
    → (q.endpoint_generation == c.endpoint_generation) ≡ true
    → IsHere c q
elsewhere-IsHere c q e e' =
    ground (arith, text_eq_iff q.compatibility_profile_id c.compatibility_profile_id)

module _ {X : Type 0} where
  -- The handler answers, and raises nothing.
  abbrev pub IsAnswered : Result GatewayError (Response X) → Type 0
  IsAnswered a = (r : Response X) × (a ≡ Result.ok r)

  pub respond_lem :
      (type : ResponseType) (r : Response X) → accepts type r ≡ true → respond type r ≡ Result.ok r
  unfolding respond
  respond_lem type r h = rw h refl

  payload-refused :
      (type : ResponseType) (r : Response X)
      → is_targeted r ≡ true
      → is_outcome r.outcome OutcomeCode.success ≡ false
      → success_payload type r ≡ true
  payload-refused ResponseType.cache_service r t h = refl
  payload-refused ResponseType.get_cache_observation r t h = ground arith
  payload-refused ResponseType.lookup_artifact r t h = ground arith
  payload-refused ResponseType.lookup_tokens r t h = ground arith
  payload-refused ResponseType.get_operation_status r t h = ground arith
  payload-refused ResponseType.cancel_operation r t h = ground arith
  payload-refused ResponseType.get_lmcache_endpoints r t h = ground arith
  payload-refused ResponseType.get_tier_and_adapter_summary r t h = ground arith
  payload-refused ResponseType.get_maintenance_status r t h = ground arith
  payload-refused (ResponseType.intent o) r t h = ground arith

  -- An error that needs no payload is accepted in every class.
  pub accepts-refusal :
      (type : ResponseType) (q : GatewayTargetedRequest) (now : ℕ) (o : OutcomeCode)
      (message : Text) (retryable fallback : Bool) (r : Response X)
      → r ≡ refusal q now o message retryable fallback
      → is_request q ≡ true
      → is_outcome o OutcomeCode.success ≡ false
      → is_outcome o OutcomeCode.cancelled ≡ false
      → (is_outcome o OutcomeCode.text_fallback ≡ false) ⊎ (fallback ≡ true)
      → accepts type r ≡ true
  unfolding accepts consistent_outcome outcome_ok is_request
  accepts-refusal type q now o message retryable fallback r e v s c f =
      rw e
        (ground (arith, payload-refused type (refusal {X = X} q now o message retryable fallback)))

  -- A guard answers with an error that is accepted in every class, or the request is to this
  -- endpoint.
  pub gate-cases :
      (c : CapabilitySnapshot) (support : SupportState) (q : GatewayTargetedRequest) (now : ℕ)
      → is_request q ≡ true
      → ((gate {X = X} c support q now ≡ none) × IsHere c q)
        ⊎ ((r : Response X) × (gate c support q now ≡ some r)
            × ((type : ResponseType) → accepts type r ≡ true))
  unfolding gate negotiate
  gate-cases c support q now v =
      let refused = λ (type : ResponseType) (o : OutcomeCode) (m : Text) (b : Bool).
        accepts-refusal type q now o m b false (refusal q now o m b false) refl v in
      elim (Bool-cases (elsewhere c q)) [
        | inl e ↦ inr (
          wrong_target q now,
          rw (e, gate, negotiate) refl,
          λ type. refused type OutcomeCode.incompatible _ false refl refl (inl refl),
        )
        | inr e ↦ elim (Bool-cases (q.endpoint_generation == c.endpoint_generation)) [
          | inr e' ↦ inr (
            old_generation q now,
            rw (e, e', gate, negotiate) refl,
            λ type. refused type OutcomeCode.stale _ true refl refl (inl refl),
          )
          | inl e' ↦ elim (Bool-cases (is_supported support)) [
            | inl e'' ↦ inl (rw (e, e', e'', gate, negotiate) refl, elsewhere-IsHere c q e e')
            | inr e'' ↦ inr (
              not_supported q now,
              rw (e, e', e'', gate, negotiate) refl,
              λ type. refused type OutcomeCode.unsupported _ false refl refl (inl refl),
            )
          ]
        ]
      ]

  pub remade_lem :
      (type : ResponseType) (r : Response X)
      → ((type : ResponseType) → accepts type r ≡ true)
      → remade type r ≡ Result.ok r
  unfolding remade
  remade_lem type r h =
      rw (respond_lem ResponseType.cache_service r (h ResponseType.cache_service), remade)
        (respond_lem type r (h type))

  -- If the handler answers a request to this endpoint, it answers with its guard.
  pub guarded-IsAnswered :
      (type : ResponseType) (support : SupportState) (q : GatewayTargetedRequest) (now : ℕ)
      (answer : MockGateway X × Result GatewayError (Response X)) (s : MockGateway X)
      → is_request q ≡ true
      → (IsHere s.capabilities q → IsAnswered answer.1)
      → IsAnswered (guarded type (gate s.capabilities support q now) answer s).1
  unfolding guarded
  guarded-IsAnswered type support q now answer s v h =
      elim (gate-cases s.capabilities support q now v) [
        | inl (e, here) ↦ rw e (h here)
        | inr (r, e, a) ↦ rw e (r, remade_lem type r a)
      ]

  -- What holds of the gateway before holds after, if the handler itself keeps it.
  pub guarded-keeps :
      (P : MockGateway X → Type 0) (type : ResponseType) (support : SupportState)
      (q : GatewayTargetedRequest) (now : ℕ)
      (answer : MockGateway X × Result GatewayError (Response X)) (s : MockGateway X)
      → is_request q ≡ true
      → P s
      → (IsHere s.capabilities q → P answer.0)
      → P (guarded type (gate s.capabilities support q now) answer s).0
  unfolding guarded
  guarded-keeps P type support q now answer s v p h =
      elim (gate-cases s.capabilities support q now v) [
        | inl (e, here) ↦ rw e (h here)
        | inr (r, e, a) ↦ rw e p
      ]
