-- ===== src/Cacheroute/Observation/Legacy.antt =====
-- What a record of the knowledge store is projected to.
use cache_route.Common.{
  inl, inr, ◌≢◌, Bool-cases, none, Bool, Option, ap, ◌&&◌, ◌||◌, ℕ, ◌+◌, ◌≡◌, ◌≤◌, ◌<◌, ◌⊎◌, ◌↔◌,
  refl, true, false, some, arith,
}
use cache_route.Common.Text.{Text}
use cache_route.Cacheroute.State.{Stamp, Result, nonempty}
use cache_route.Cacheroute.Observation.{
  CacheReplicaObservation, KvRecord, UpdatedAt, ObservationState, is_valid, is_fresh,
  from_legacy_kv_ready, malformed_time, observed_time, state_of, utc_at?, is_within, projection,
  source_time_ok, expiry_utc, expires_after, RecordField, ProjectionError, is_refused, overflows,
  latest_time,
}

-- The update's time was read and is not later than `now`.
abbrev pub IsReadable : UpdatedAt → ℕ → ℕ → Type 0
IsReadable u now t = (u ≡ UpdatedAt.read t) × (t ≤ now)

updated : UpdatedAt → ℕ
updated UpdatedAt.absent = 0
updated UpdatedAt.unreadable = 0
updated UpdatedAt.out_of_range = 0
updated (UpdatedAt.read t) = t

read_injective : (t t' : ℕ) → UpdatedAt.read t ≡ UpdatedAt.read t' → t ≡ t'
unfolding updated
read_injective t t' e = ap updated e

source_time-utc_at? :
    (u : UpdatedAt) (freshness : ℕ) (now : Stamp)
    → 0 < freshness
    → (source_time_ok (utc_at? (observed_time u now.time) 0) now
        && expiry_utc (utc_at? (observed_time u now.time) freshness)
        && expires_after
            (utc_at? (observed_time u now.time) 0)
            (utc_at? (observed_time u now.time) freshness))
      ≡ true
source_time-utc_at? UpdatedAt.absent freshness now pos = refl
source_time-utc_at? UpdatedAt.unreadable freshness now pos = refl
source_time-utc_at? UpdatedAt.out_of_range freshness now pos = refl
source_time-utc_at? (UpdatedAt.read t) freshness now pos = ground arith

projection-is_valid :
    (r : KvRecord) (artifact endpoint : ℕ) (compatibility : Text) (freshness : ℕ) (now : Stamp)
    → 0 < freshness
    → now.utc ≡ true
    → nonempty compatibility ≡ true
    → is_valid (projection r artifact endpoint compatibility freshness now) ≡ true
unfolding is_valid
projection-is_valid r artifact endpoint compatibility freshness now pos utc named =
    ground (arith, source_time-utc_at? r.kv_updated_at freshness now pos)

within_read :
    (u : UpdatedAt) (freshness now at : ℕ)
    → (is_within (utc_at? (observed_time u now) 0) (utc_at? (observed_time u now) freshness) at
        ≡ true)
      ↔ ((t : ℕ) × IsReadable u now t × (t ≤ at) × (at < t + freshness))
within_read UpdatedAt.absent freshness now at = (λ e. absurd (cc), λ (t, (e, _), _, _). absurd (cc))
within_read UpdatedAt.unreadable freshness now at =
    (λ e. absurd (cc), λ (t, (e, _), _, _). absurd (cc))
within_read UpdatedAt.out_of_range freshness now at =
    (λ e. absurd (cc), λ (t, (e, _), _, _). absurd (cc))
within_read (UpdatedAt.read t) freshness now at = (
  λ e. (t, (refl, ground arith), ground arith, ground arith),
  λ (t', (e, h), l, u). ground (arith, read_injective t t' e),
)

available_known :
    (ready : Option Bool) (u : UpdatedAt) (now : ℕ)
    → malformed_time u now ≡ false
    → (state_of ready (malformed_time u now) ≡ ObservationState.available) ↔ (ready ≡ some true)
available_known none u now h = (λ e. absurd (cc), λ e. absurd (cc))
available_known (some true) u now h = rw h (λ e. refl, λ e. refl)
available_known (some false) u now h = rw h (λ e. absurd (cc), λ e. absurd (cc))

not_available :
    (ready : Option Bool) (u : UpdatedAt) (now : ℕ)
    → malformed_time u now ≡ true
    → state_of ready (malformed_time u now) ≢ ObservationState.available
not_available none u now h = λ e. cc
not_available (some b) u now h = rw h (λ e. cc)

known_time :
    (u : UpdatedAt) (now : ℕ)
    → (malformed_time u now ≡ false) ↔ ((u ≡ UpdatedAt.absent) ⊎ ((t : ℕ) × IsReadable u now t))
known_time UpdatedAt.absent now = (λ e. inl refl, λ h. refl)
known_time UpdatedAt.unreadable now =
    (λ e. absurd (cc), λ h. elim h [ inl e ↦ absurd (cc) | inr (t, (e, l)) ↦ absurd (cc) ])
known_time UpdatedAt.out_of_range now =
    (λ e. absurd (cc), λ h. elim h [ inl e ↦ absurd (cc) | inr (t, (e, l)) ↦ absurd (cc) ])
known_time (UpdatedAt.read t) now = (
  λ e. inr (t, (refl, ground arith)),
  λ h. elim h [ inl e ↦ absurd (cc) | inr (t', (e, l)) ↦ ground (arith, read_injective t t' e) ],
)

available_read :
    (ready : Option Bool) (u : UpdatedAt) (now : ℕ)
    → (state_of ready (malformed_time u now) ≡ ObservationState.available)
      ↔ ((ready ≡ some true) × ((u ≡ UpdatedAt.absent) ⊎ ((t : ℕ) × IsReadable u now t)))
available_read ready u now = elim (Bool-cases (malformed_time u now)) [
  | inl bad ↦ (
    λ e. absurd (not_available ready u now bad e),
    λ (e, h). absurd (let good = (known_time u now).1 h in cc),
  )
  | inr good ↦ (
    λ e. ((available_known ready u now good).0 e, (known_time u now).0 good),
    λ (e, h). (available_known ready u now good).1 e,
  )
]

-- The update's time is out of the range of times, or it was read and the expiry is.
abbrev pub IsOutOfRange : UpdatedAt → ℕ → ℕ → Type 0
IsOutOfRange u now freshness =
    (u ≡ UpdatedAt.out_of_range) ⊎ ((t : ℕ) × IsReadable u now t × (latest_time < t + freshness))

overflows_lem :
    (u : UpdatedAt) (now freshness : ℕ)
    → (overflows u now freshness ≡ true) ↔ IsOutOfRange u now freshness
overflows_lem UpdatedAt.absent now freshness =
    (λ e. absurd (cc), λ h. elim h [ inl e ↦ absurd (cc) | inr (t, (e, l), o) ↦ absurd (cc) ])
overflows_lem UpdatedAt.unreadable now freshness =
    (λ e. absurd (cc), λ h. elim h [ inl e ↦ absurd (cc) | inr (t, (e, l), o) ↦ absurd (cc) ])
overflows_lem UpdatedAt.out_of_range now freshness = (λ e. inl refl, λ h. refl)
overflows_lem (UpdatedAt.read t) now freshness = (
  λ e. inr (t, (refl, ground arith), ground arith),
  λ h. elim h [ inl e ↦ absurd (cc) | inr (t', (e, l), o) ↦ ground (arith, read_injective t t' e) ],
)

-- A field that is handed on is not of its type, or is a negative count.
abbrev pub IsRefused : KvRecord → Type 0
IsRefused r = (r.kv_rel_dir ≡ RecordField.refused) ⊎ (r.kv_dumped_keys ≡ RecordField.refused)

refused_lem : {A : Type 0} → (a : RecordField A) → is_refused a ≡ true → a ≡ RecordField.refused
refused_lem RecordField.missing e = absurd (cc)
refused_lem RecordField.refused e = refl
refused_lem (RecordField.given a) e = absurd (cc)

IsRefused-fields :
    (r : KvRecord) → is_refused r.kv_rel_dir || is_refused r.kv_dumped_keys ≡ true → IsRefused r
IsRefused-fields r e = elim (Bool-cases (is_refused r.kv_rel_dir)) [
  | inl dir ↦ inl (refused_lem r.kv_rel_dir dir)
  | inr fine ↦ inr (refused_lem r.kv_dumped_keys (ground arith))
]

not-IsRefused :
    (r : KvRecord) → is_refused r.kv_rel_dir || is_refused r.kv_dumped_keys ≡ false → ¬ IsRefused r
not-IsRefused r e (inl h) = absurd (ground arith)
not-IsRefused r e (inr h) = absurd (ground arith)

-- What a record is projected to: a valid observation. It is fresh exactly from the update, if its
-- time was read and is not later than now, until the freshness has passed; and it says that the
-- cache is available exactly if the record says so and the time of its update is missing or was
-- read and is not later than now.
pub record IsProjected (r : KvRecord) (freshness now : ℕ) (o : CacheReplicaObservation)
    : Type 0 where
  pub valid : is_valid o ≡ true
  pub fresh :
      (at : ℕ)
      → (is_fresh o at ≡ true)
        ↔ ((t : ℕ) × IsReadable r.kv_updated_at now t × (t ≤ at) × (at < t + freshness))
  pub available : (o.state ≡ ObservationState.available) ↔ (
      (r.kv_ready ≡ some true)
      × ((r.kv_updated_at ≡ UpdatedAt.absent) ⊎ ((t : ℕ) × IsReadable r.kv_updated_at now t)))

-- If the freshness is positive, now is in UTC, the profile is named and the identifiers are those of
-- an artifact and an endpoint, there are three ways. If the time of the update, or that time, read and
-- not later than now, with the freshness, is out of the range of times, the projection raises
-- OverflowError; else if a field that is handed on is not of its type or is a negative count,
-- ValidationError; and else it succeeds with a valid observation, which is fresh exactly from the
-- update, if its time was read and is not later than now, until the freshness has passed, and says
-- that the cache is available exactly if the record says so and the time of its update is missing or
-- was read and is not later than now.
pub from_legacy_kv_ready_total :
    (r : KvRecord) (artifact endpoint : ℕ) (compatibility : Text) (freshness : ℕ) (now : Stamp)
    → 0 < freshness
    → now.utc ≡ true
    → nonempty compatibility ≡ true
    → let result = from_legacy_kv_ready r artifact endpoint compatibility freshness now in
      let far = IsOutOfRange r.kv_updated_at now.time freshness in
      (far × (result ≡ Result.failed ProjectionError.overflow_error))
      ⊎ (¬ far × IsRefused r × (result ≡ Result.failed ProjectionError.validation_error))
      ⊎ (¬ far
          × ¬ IsRefused r
          × (o : CacheReplicaObservation) × (result ≡ Result.ok o)
          × IsProjected r freshness now.time o)
unfolding from_legacy_kv_ready is_fresh
from_legacy_kv_ready_total r artifact endpoint compatibility freshness now pos utc named =
    let valid = projection-is_valid r artifact endpoint compatibility freshness now pos utc named in
    let (to, from) = overflows_lem r.kv_updated_at now.time freshness in
    elim (Bool-cases (overflows r.kv_updated_at now.time freshness)) [
      | inl far ↦ inl (to far, ground arith)
      | inr near ↦ elim (Bool-cases (is_refused r.kv_rel_dir || is_refused r.kv_dumped_keys)) [
        | inl bad ↦
            inr (inl (λ h. absurd (let e = from h in cc), IsRefused-fields r bad, ground arith))
        | inr fine ↦ inr (
            inr (
              λ h. absurd (let e = from h in cc),
              not-IsRefused r fine,
              projection r artifact endpoint compatibility freshness now,
              ground arith,
              record {
                valid = valid;
                fresh = λ at. within_read r.kv_updated_at freshness now.time at;
                available = available_read r.kv_ready r.kv_updated_at now.time;
              },
            ))
      ]
    ]
