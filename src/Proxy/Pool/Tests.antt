-- ===== src/Proxy/Pool/Tests.antt =====
-- The pool's theorems at concrete pools.
use cache_route.Common.{
  ℕ, zero, suc, ◌+◌, ◌-◌, ◌*◌, ◌/◌, ◌≤◌, ◌≡◌, ◌≢◌, ◌↔◌, refl, true, false, Option, none, some, List,
  [], ◌∷◌, ◌==◌, if◌then◌else◌, Member, All, length, arith,
}
use cache_route.Common.Text.{codes}
use cache_route.Common.Floats.Naturals.{whole_numbers}
use cache_route.Proxy.Pool.{
  InstancePool, InstanceInfo, InstanceLoad, Registration, Beat, plain_result, mismatch, differs,
  get, upsert, heartbeat, list_instances,
}
use cache_route.Proxy.Pool
use cache_route.Proxy.Pool.Calls
use cache_route.Proxy.Pool.Calls.{Call, run}
use cache_route.Proxy.Pool.Invariant.{IsValid, run-IsValid}
use cache_route.Proxy.Pool.Lifecycle.{
  inflight, begun, ended, IsBracketed, run-inflight, run-inflight_lower,
}
use cache_route.Proxy.Pool.Liveness.{heartbeat-list_instances}
use cache_route.Proxy.Pool.Handshake.{heartbeat_handshake}
use cache_route.Proxy.Pool.Report
use cache_route.Proxy.Pool.Report.{Admission, build_report}
use cache_route.Proxy.Pool.Admission.{
  IsRejecting, IsFit, alive_at, pool_admission_state_lem, alive-list_instances,
}

-- The capabilities are a number, and their own fingerprint.
abbrev print : ℕ → ℕ
print c = c

abbrev registration : ℕ → Option ℕ → Registration ℕ ℕ
registration i capabilities = record {
  instance_id = i;
  host = codes "localhost";
  port = 8000 + i;
  endpoints = none;
  tags = none;
  weight = 1;
  meta = none;
  capabilities = capabilities;
}

abbrev beat : ℕ → Option ℕ → Option ℕ → Beat ℕ ℕ
beat i capabilities fingerprint = record {
  instance_id = i;
  inflight = none;
  qps_1m = some 3;
  gpu_util = none;
  capabilities = capabilities;
  fingerprint = fingerprint;
}

abbrev empty : InstancePool ℕ ℕ
empty = record { ttl_s = 30; items = [] }

-- Instance 1 with capabilities, and instance 2 without.
abbrev two_calls : List (Call ℕ ℕ)
two_calls =
    Call.registers (registration 1 (some 7)) 100 ∷ Call.registers (registration 2 none) 110 ∷ []

abbrev two : InstancePool ℕ ℕ
two = run print empty two_calls

abbrev traffic : List (Call ℕ ℕ)
traffic =
    Call.begins 1
    ∷ Call.begins 2
    ∷ Call.beats (beat 1 none (some 7)) 105
    ∷ Call.begins 1
    ∷ Call.ends 1
    ∷ Call.registers (registration 1 (some 8)) 120
    ∷ Call.removes 2
    ∷ []

run-IsValid_example : IsValid print two
run-IsValid_example = run-IsValid print empty two_calls (record { distinct = tt; sound = tt })

two-inflight : inflight 1 two ≡ some 0
unfolding run Calls.step upsert Pool.register_new
two-inflight = refl

-- Three requests have begun on instance 1 and one has ended; instance 2 comes and goes.
run-inflight_lower_example :
    (m : ℕ) × (inflight 1 (run print two traffic) ≡ some m)
    × (0 + begun 1 traffic ≤ m + ended 1 traffic)
run-inflight_lower_example =
    run-inflight_lower print 1 0 two traffic (ground arith, tt) two-inflight

traffic-IsBracketed : IsBracketed print 1 0 traffic
traffic-IsBracketed zero = omega arith
traffic-IsBracketed (suc zero) = omega arith
traffic-IsBracketed (suc (suc zero)) = omega arith
traffic-IsBracketed (suc (suc (suc zero))) = omega arith
traffic-IsBracketed (suc (suc (suc (suc zero)))) = omega arith
traffic-IsBracketed (suc (suc (suc (suc (suc zero))))) = omega arith
traffic-IsBracketed (suc (suc (suc (suc (suc (suc zero)))))) = omega arith
traffic-IsBracketed (suc (suc (suc (suc (suc (suc (suc zero))))))) = omega arith
traffic-IsBracketed (suc (suc (suc (suc (suc (suc (suc (suc k)))))))) = omega arith

run-inflight_example :
    inflight 1 (run print two traffic) ≡ some (0 + begun 1 traffic - ended 1 traffic)
run-inflight_example =
    run-inflight print 1 0 two traffic (ground arith, tt) traffic-IsBracketed two-inflight

abbrev beaten : InstancePool ℕ ℕ
beaten = (heartbeat print (beat 1 none (some 7)) 125 two).1

beat-ok : (heartbeat print (beat 1 none (some 7)) 125 two).0.ok ≡ true
unfolding run Calls.step upsert Pool.register_new heartbeat
beat-ok = refl

heartbeat-list_instances_example :
    ((it : InstanceInfo ℕ ℕ) × Member it (list_instances false 155 beaten) × (it.instance_id ≡ 1))
    ↔ (155 ≤ two.ttl_s + 125)
heartbeat-list_instances_example =
    heartbeat-list_instances print (beat 1 none (some 7)) 125 155 two run-IsValid_example beat-ok

abbrev first : InstanceInfo ℕ ℕ
first = Pool.register_new print (registration 1 (some 7)) 100

abbrev full : Beat ℕ ℕ
full = beat 2 (some 9) none

abbrev filled : InstancePool ℕ ℕ
filled = (heartbeat print full 125 two).1

full-ok : (heartbeat print full 125 two).0.ok ≡ true
unfolding run Calls.step upsert Pool.register_new heartbeat
full-ok = refl

-- Instance 2 gives its capabilities, and then a fingerprint that is not theirs.
heartbeat_handshake_example :
    ((heartbeat print (beat 2 none (some 8)) 126 filled).0
      ≡ (if print 9 == 8 then plain_result true else mismatch (some (print 9)) 8))
    × ((heartbeat print (beat 2 none (some 8)) 126 filled).1
        ≡ (if print 9 == 8 then (heartbeat print (beat 2 none (some 8)) 126 filled).1 else filled))
heartbeat_handshake_example =
    heartbeat_handshake print full (beat 2 none (some 8)) 9 125 126 8 two refl full-ok refl refl
      refl

abbrev again : InstancePool ℕ ℕ
again = (upsert print (registration 1 none) 130 two).1

pool_admission_state_lem_example :
    let state = (build_report 0 8 (some 1) none 135_500 two).pool_admission_state in
    ((state ≡ Admission.rejecting) ↔ All IsRejecting (alive_at 135_500 two))
    × ((state ≡ Admission.accepting)
        ↔ ((alive_at 135_500 two ≢ []) × All IsFit (alive_at 135_500 two)))
pool_admission_state_lem_example = pool_admission_state_lem 0 8 (some 1) none 135_500 two

alive-list_instances_example :
    ((build_report 0 8 (some 1) none 130_500 two).instances.alive
      ≤ length (list_instances false (130_500 / 1000) two))
    × ((build_report 0 8 (some 1) none (130_500 / 1000 * 1000) two).instances.alive
        ≡ length (list_instances false (130_500 / 1000) two))
alive-list_instances_example = alive-list_instances 0 8 (some 1) none 130_500 two

-- At 135.5 s instance 1 is stale and instance 2, which is alive, has not reported.
stale_pool : (build_report 0 8 (some 1) none 135_500 two).pool_admission_state ≡ Admission.degraded
unfolding run Calls.step upsert Pool.register_new build_report Report.split_alive Report.pool_state
    Report.count_admissions
stale_pool = refl
