-- ===== src/KdnServer/Gateway/Reads.antt =====
-- The gateway's handlers that change nothing always answer, and what they answer passes the
-- validators of its class.
use cache_route.Common.{
  ℕ, ◌≡◌, refl, inl, inr, Bool, true, false, not, ◌||◌, Option, none, some, ◌==◌, arith, Bool-cases,
}
use cache_route.Common.Text.{Text, codes, text_eq, text_eq_iff}
use cache_route.Common.Dict
use cache_route.Cacheroute.Observation.{CacheReplicaObservation, is_fresh}
use cache_route.Cacheroute.Contracts.{
  SupportState, OutcomeCode, GatewayTargetedRequest, TokenInput, is_request,
}
use cache_route.Cacheroute.Contracts.CacheService.{
  CacheArtifact, Summary, TokenCoverage, ResponseType, accepts, consistent_outcome, outcome_ok,
  same_profile,
}
use cache_route.KdnServer.Gateway.{MockGateway, envelope, refusal}
use cache_route.KdnServer.Gateway.Handlers.{
  artifact_answer, observation_answer, tokens_answer, lookup_artifact, get_cache_observation,
  lookup_tokens, incompatible,
}
use cache_route.KdnServer.Gateway.Summaries.{
  tier_answer, maintenance_answer, get_tier_adapter_summary, get_maintenance_status,
  summary_matches,
}
use cache_route.KdnServer.Gateway.Refusals.{
  IsAnswered, respond_lem, accepts-refusal, guarded-IsAnswered,
}

pub accepts-stale :
    (X : Type 0) (q : GatewayTargetedRequest) (now : ℕ)
    → is_request q ≡ true
    → (type : ResponseType) (m : Text)
    → accepts type (refusal {X = X} q now OutcomeCode.stale m false false) ≡ true
accepts-stale X q now v type m =
    accepts-refusal type q now OutcomeCode.stale m false false
      (refusal {X = X} q now OutcomeCode.stale m false false) refl v refl refl (inl refl)

accepts-incompatible :
    (X : Type 0) (q : GatewayTargetedRequest) (now : ℕ)
    → is_request q ≡ true
    → (type : ResponseType) (m : Text)
    → accepts type (refusal {X = X} q now OutcomeCode.incompatible m false false) ≡ true
accepts-incompatible X q now v type m =
    accepts-refusal type q now OutcomeCode.incompatible m false false
      (refusal {X = X} q now OutcomeCode.incompatible m false false) refl v refl refl (inl refl)

module _ (X : Type 0) (q : GatewayTargetedRequest) (now : ℕ) (v : is_request q ≡ true) where
  artifact_answer-accepts :
      (a : Option (CacheArtifact X))
      → accepts ResponseType.lookup_artifact (artifact_answer a q now) ≡ true
  unfolding artifact_answer
  artifact_answer-accepts none = accepts-stale X q now v ResponseType.lookup_artifact _
  artifact_answer-accepts (some a) = elim (Bool-cases elsewhere) [
    | inl e ↦ rw e (accepts-incompatible X q now v ResponseType.lookup_artifact _)
    | inr e ↦ rw e (found e)
  ]
    where
      elsewhere : Bool
      elsewhere =
          not (same_profile a.runtime_profile q.runtime_profile)
          || not (text_eq a.compatibility_profile_id q.compatibility_profile_id)

      found :
          elsewhere ≡ false
          → accepts ResponseType.lookup_artifact
              (record (envelope q now OutcomeCode.success) { artifact = some a })
            ≡ true
      found e =
          unfold accepts consistent_outcome outcome_ok is_request in
          ground (
            arith,
            text_eq_iff a.compatibility_profile_id q.compatibility_profile_id,
            text_eq_iff q.compatibility_profile_id a.compatibility_profile_id,
          )

  observation_answer-accepts :
      (o : Option CacheReplicaObservation) (artifact : ℕ)
      → accepts ResponseType.get_cache_observation (observation_answer {X = X} o artifact q now)
        ≡ true
  unfolding observation_answer
  observation_answer-accepts none artifact =
      accepts-stale X q now v ResponseType.get_cache_observation _
  observation_answer-accepts (some o) artifact = elim (Bool-cases (incompatible o artifact q)) [
    | inl e ↦ rw e (accepts-incompatible X q now v ResponseType.get_cache_observation _)
    | inr e ↦ elim (Bool-cases (o.endpoint_generation == q.endpoint_generation)) [
      | inr e' ↦ rw (e, e') (accepts-stale X q now v ResponseType.get_cache_observation _)
      | inl e' ↦ elim (Bool-cases (is_fresh o now)) [
        | inl e'' ↦ rw (e, e', e'') (fresh e e' e'')
        | inr e'' ↦ rw (e, e', e'') (stale e e' e'')
      ]
    ]
  ]
    where
      fresh :
          incompatible o artifact q ≡ false
          → (o.endpoint_generation == q.endpoint_generation) ≡ true
          → is_fresh o now ≡ true
          → accepts ResponseType.get_cache_observation
              (record (envelope {X = X} q now OutcomeCode.success) { observation = some o })
            ≡ true
      fresh e e' e'' =
          unfold accepts consistent_outcome outcome_ok is_request in
          ground (
            arith,
            text_eq_iff o.compatibility_profile_id q.compatibility_profile_id,
            text_eq_iff q.compatibility_profile_id o.compatibility_profile_id,
          )

      stale :
          incompatible o artifact q ≡ false
          → (o.endpoint_generation == q.endpoint_generation) ≡ true
          → is_fresh o now ≡ false
          → accepts ResponseType.get_cache_observation
              (record (refusal {X = X} q now OutcomeCode.stale
                (codes "observation is stale")
                false
                false) { observation = some o })
            ≡ true
      stale e e' e'' =
          unfold accepts consistent_outcome outcome_ok is_request in
          ground (
            arith,
            text_eq_iff o.compatibility_profile_id q.compatibility_profile_id,
            text_eq_iff q.compatibility_profile_id o.compatibility_profile_id,
          )

  tokens_answer-accepts :
      (c : Option TokenCoverage) (ranges : SupportState)
      → accepts ResponseType.lookup_tokens (tokens_answer {X = X} c ranges q now) ≡ true
  unfolding tokens_answer accepts consistent_outcome outcome_ok is_request
  tokens_answer-accepts none ranges = ground arith
  tokens_answer-accepts (some c) ranges = ground arith

  tier_answer-accepts :
      (a t : Option (Summary X))
      → accepts ResponseType.get_tier_and_adapter_summary (tier_answer a t q now) ≡ true
  unfolding tier_answer
  tier_answer-accepts none t = accepts-stale X q now v ResponseType.get_tier_and_adapter_summary _
  tier_answer-accepts (some a) none =
      accepts-stale X q now v ResponseType.get_tier_and_adapter_summary _
  tier_answer-accepts (some a) (some t) = elim (Bool-cases elsewhere) [
    | inl e ↦ rw e (accepts-incompatible X q now v ResponseType.get_tier_and_adapter_summary _)
    | inr e ↦ rw e (found e)
  ]
    where
      elsewhere : Bool
      elsewhere = not (summary_matches q a) || not (summary_matches q t)

      found :
          elsewhere ≡ false
          → accepts ResponseType.get_tier_and_adapter_summary
              (record (envelope q now OutcomeCode.success) {
                adapter_summary = some a;
                tier_summary = some t;
              })
            ≡ true
      found e =
          unfold accepts consistent_outcome outcome_ok is_request in
          ground (
            arith,
            text_eq_iff a.compatibility_profile_id q.compatibility_profile_id,
            text_eq_iff q.compatibility_profile_id a.compatibility_profile_id,
            text_eq_iff t.compatibility_profile_id q.compatibility_profile_id,
            text_eq_iff q.compatibility_profile_id t.compatibility_profile_id,
          )

  maintenance_answer-accepts :
      (m : Option (Summary X))
      → accepts ResponseType.get_maintenance_status (maintenance_answer m q now) ≡ true
  unfolding maintenance_answer
  maintenance_answer-accepts none = accepts-stale X q now v ResponseType.get_maintenance_status _
  maintenance_answer-accepts (some m) = elim (Bool-cases (summary_matches q m)) [
    | inr e ↦ rw e (accepts-incompatible X q now v ResponseType.get_maintenance_status _)
    | inl e ↦ rw e (found e)
  ]
    where
      found :
          summary_matches q m ≡ true
          → accepts ResponseType.get_maintenance_status
              (record (envelope q now OutcomeCode.success) { maintenance_summary = some m })
            ≡ true
      found e =
          unfold accepts consistent_outcome outcome_ok is_request in
          ground (
            arith,
            text_eq_iff m.compatibility_profile_id q.compatibility_profile_id,
            text_eq_iff q.compatibility_profile_id m.compatibility_profile_id,
          )

  module _ (s : MockGateway X) where
    pub lookup_artifact-IsAnswered :
        (artifact : ℕ) → IsAnswered (lookup_artifact q artifact now s).1
    unfolding lookup_artifact
    lookup_artifact-IsAnswered artifact =
        guarded-IsAnswered _ s.capabilities.artifact_lookup q now _ s v (λ here. (
          _,
          respond_lem ResponseType.lookup_artifact _
              (artifact_answer-accepts (Dict.lookup artifact s.artifacts)),
        ))

    pub get_cache_observation-IsAnswered :
        (artifact : ℕ) → IsAnswered (get_cache_observation q artifact now s).1
    unfolding get_cache_observation
    get_cache_observation-IsAnswered artifact =
        guarded-IsAnswered _ s.capabilities.cache_observation q now _ s v (λ here. (
          _,
          respond_lem ResponseType.get_cache_observation _
              (observation_answer-accepts (Dict.lookup artifact s.observations) artifact),
        ))

    pub lookup_tokens-IsAnswered :
        (tokens : TokenInput) → IsAnswered (lookup_tokens q tokens now s).1
    unfolding lookup_tokens
    lookup_tokens-IsAnswered tokens =
        guarded-IsAnswered _ s.capabilities.token_lookup q now _ s v (λ here. (
          _,
          respond_lem ResponseType.lookup_tokens _
              (tokens_answer-accepts (s.token_fixtures tokens) s.capabilities.range_coverage),
        ))

    pub get_tier_adapter_summary-IsAnswered : IsAnswered (get_tier_adapter_summary q now s).1
    unfolding get_tier_adapter_summary
    get_tier_adapter_summary-IsAnswered =
        guarded-IsAnswered _ s.capabilities.tier_capacity_usage q now _ s v (λ here. (
          _,
          respond_lem ResponseType.get_tier_and_adapter_summary _
              (tier_answer-accepts s.adapter_summary s.tier_summary),
        ))

    pub get_maintenance_status-IsAnswered : IsAnswered (get_maintenance_status q now s).1
    unfolding get_maintenance_status
    get_maintenance_status-IsAnswered =
        guarded-IsAnswered _ s.capabilities.maintenance_eviction q now _ s v (λ here. (
          _,
          respond_lem ResponseType.get_maintenance_status _
              (maintenance_answer-accepts s.maintenance_summary),
        ))
