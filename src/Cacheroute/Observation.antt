-- ===== src/Cacheroute/Observation.antt =====
-- `CacheReplicaObservation` of src/cacheroute/cache/models.py. The identifier that is computed from
-- the other fields is left out. The identifiers of an artifact and an endpoint are of their form, and
-- stand as numbers; counts of keys are not negative.
pub mod Legacy
use cache_route.Common.{
  ℕ, ◌+◌, Bool, true, false, not, ◌&&◌, ◌||◌, Option, none, some, List, [], ◌∷◌, ◌==◌, ltb, leb,
  if◌then◌else◌, is_some, or_default,
}
use cache_route.Common.Text.{Text, text_eq}
use cache_route.Cacheroute.State.{Stamp, Result, nonempty}
use cache_route.Cacheroute.CacheOperation.{
  RuntimeProfile, LmcacheGatewayProfile, is_auto, is_legacy_gateway,
}

pub data ObservationSource : Type 0 where
  http_api coordinator sdk metrics_event legacy_projection mock : ObservationSource

pub data ObservationConfidence : Type 0 where
  low medium high : ObservationConfidence

pub data ObservationState : Type 0 where
  pending available unavailable unknown partial : ObservationState

pub record CacheReplicaObservation : Type 0 where
  pub artifact_id : ℕ
  pub state : ObservationState
  pub source : ObservationSource
  pub endpoint_id : ℕ
  pub endpoint_generation : ℕ
  pub runtime_profile : RuntimeProfile
  pub gateway_profile : LmcacheGatewayProfile
  pub compatibility_profile_id : Text
  pub adapter : Option Text
  pub tier : Option Text
  pub source_observed_at : Option Stamp
  pub projected_at : Stamp
  pub expires_at : Option Stamp
  pub confidence : ObservationConfidence
  pub legacy_projection : Bool
  pub compatibility_uncertain : Bool
  pub legacy_kv_rel_dir : Option Text
  pub legacy_kv_dumped_keys : Option ℕ

abbrev pub is_legacy : RuntimeProfile → Bool
is_legacy RuntimeProfile.legacy = true
is_legacy r = false

abbrev pub from_projection : ObservationSource → Bool
from_projection ObservationSource.legacy_projection = true
from_projection s = false

-- The time at which the source saw it is in UTC and not after the projection.
abbrev pub source_time_ok : Option Stamp → Stamp → Bool
source_time_ok none projected = true
source_time_ok (some s) projected = s.utc && leb s.time projected.time

abbrev pub expiry_utc : Option Stamp → Bool
expiry_utc none = true
expiry_utc (some e) = e.utc

abbrev pub expires_after : Option Stamp → Option Stamp → Bool
expires_after none e = true
expires_after (some s) none = false
expires_after (some s) (some e) = ltb s.time e.time

-- The validators of the fields, and `validate_and_id`.
unfoldable pub is_valid : CacheReplicaObservation → Bool
is_valid o =
    not (is_auto o.runtime_profile)
    && nonempty o.compatibility_profile_id
    && o.projected_at.utc
    && source_time_ok o.source_observed_at o.projected_at
    && expiry_utc o.expires_at
    && (is_some o.source_observed_at || o.legacy_projection)
    && expires_after o.source_observed_at o.expires_at
    && (not o.legacy_projection
        || (is_legacy o.runtime_profile
            && is_legacy_gateway o.gateway_profile
            && from_projection o.source
            && o.compatibility_uncertain))
    && (not (from_projection o.source) || o.legacy_projection)
    && (o.legacy_projection || not (is_some o.legacy_kv_rel_dir || is_some o.legacy_kv_dumped_keys))
    && (not (o.endpoint_generation == 0) || o.legacy_projection)
    && (not o.legacy_projection || o.endpoint_generation == 0)

-- `source_observed_at <= at < expires_at`, with neither missing.
abbrev pub is_within : Option Stamp → Option Stamp → ℕ → Bool
is_within none e at = false
is_within (some s) none at = false
is_within (some s) (some e) at = leb s.time at && ltb at e.time

-- `is_fresh` at a time in UTC.
unfoldable pub is_fresh : CacheReplicaObservation → ℕ → Bool
is_fresh o at = is_within o.source_observed_at o.expires_at at

-- What a record of the knowledge store says of the time of its update: nothing, what
-- `datetime.fromtimestamp` refuses with an error that is caught, what is so far out of range that it
-- raises OverflowError, which is not caught, or a time.
pub data UpdatedAt : Type 0 where
  absent unreadable out_of_range : UpdatedAt
  read : ℕ → UpdatedAt

-- A field that is handed on: missing, of its type, or refused by the model's validation.
pub data RecordField (A : Type 0) : Type 0 where
  missing refused : RecordField A
  given : A → RecordField A

abbrev pub is_refused : {A : Type 0} → RecordField A → Bool
is_refused RecordField.missing = false
is_refused RecordField.refused = true
is_refused (RecordField.given a) = false

abbrev pub field_value : {A : Type 0} → RecordField A → Option A
field_value RecordField.missing = none
field_value RecordField.refused = none
field_value (RecordField.given a) = some a

-- A record of the knowledge store; `kv_ready` is whether it is 1, if it is there and 0 or 1.
pub record KvRecord : Type 0 where
  pub kv_ready : Option Bool
  pub kv_updated_at : UpdatedAt
  pub kv_rel_dir : RecordField Text
  pub kv_dumped_keys : RecordField ℕ

abbrev pub observed_time : UpdatedAt → ℕ → Option ℕ
observed_time UpdatedAt.absent projected = none
observed_time UpdatedAt.unreadable projected = none
observed_time UpdatedAt.out_of_range projected = none
observed_time (UpdatedAt.read t) projected = if ltb projected t then none else some t

abbrev pub malformed_time : UpdatedAt → ℕ → Bool
malformed_time UpdatedAt.absent projected = false
malformed_time UpdatedAt.unreadable projected = true
malformed_time UpdatedAt.out_of_range projected = true
malformed_time (UpdatedAt.read t) projected = ltb projected t

-- `datetime.max`, in microseconds since `datetime.min`.
abbrev pub latest_time : ℕ
latest_time = 315_537_897_599_999_999

-- OverflowError is raised by `fromtimestamp` or by `observed + freshness`.
abbrev pub expiry_overflows : Option ℕ → ℕ → Bool
expiry_overflows none freshness = false
expiry_overflows (some t) freshness = ltb latest_time (t + freshness)

abbrev pub overflows : UpdatedAt → ℕ → ℕ → Bool
overflows UpdatedAt.out_of_range projected freshness = true
overflows u projected freshness = expiry_overflows (observed_time u projected) freshness

abbrev pub state_of : Option Bool → Bool → ObservationState
state_of none malformed = ObservationState.unknown
state_of (some ready) true = ObservationState.unknown
state_of (some true) false = ObservationState.available
state_of (some false) false = ObservationState.pending

abbrev pub utc_at : ℕ → Stamp
utc_at t = record { time = t; utc = true }

abbrev pub utc_at? : Option ℕ → ℕ → Option Stamp
utc_at? none d = none
utc_at? (some t) d = some (utc_at (t + d))

pub data ProjectionError : Type 0 where
  freshness_not_positive projected_not_utc overflow_error validation_error : ProjectionError

-- What is handed to the constructor.
abbrev pub projection : KvRecord → ℕ → ℕ → Text → ℕ → Stamp → CacheReplicaObservation
projection r artifact endpoint compatibility freshness now = record {
  artifact_id = artifact;
  state = state_of r.kv_ready (malformed_time r.kv_updated_at now.time);
  source = ObservationSource.legacy_projection;
  endpoint_id = endpoint;
  endpoint_generation = 0;
  runtime_profile = RuntimeProfile.legacy;
  gateway_profile = LmcacheGatewayProfile.legacy_gateway;
  compatibility_profile_id = compatibility;
  adapter = none;
  tier = none;
  source_observed_at = utc_at? (observed_time r.kv_updated_at now.time) 0;
  projected_at = now;
  expires_at = utc_at? (observed_time r.kv_updated_at now.time) freshness;
  confidence = ObservationConfidence.low;
  legacy_projection = true;
  compatibility_uncertain = true;
  legacy_kv_rel_dir = field_value r.kv_rel_dir;
  legacy_kv_dumped_keys = field_value r.kv_dumped_keys;
}

-- `from_legacy_kv_ready`; a freshness below zero counts as zero.
unfoldable pub from_legacy_kv_ready :
    KvRecord → ℕ → ℕ → Text → ℕ → Stamp → Result ProjectionError CacheReplicaObservation
from_legacy_kv_ready r artifact endpoint compatibility freshness now =
    let o = projection r artifact endpoint compatibility freshness now in
    if freshness == 0
    then Result.failed ProjectionError.freshness_not_positive
    else if not now.utc
    then Result.failed ProjectionError.projected_not_utc
    else if overflows r.kv_updated_at now.time freshness
    then Result.failed ProjectionError.overflow_error
    else if is_refused r.kv_rel_dir || is_refused r.kv_dumped_keys
    then Result.failed ProjectionError.validation_error
    else if is_valid o
    then Result.ok o
    else Result.failed ProjectionError.validation_error
