-- ===== src/Proxy/Pool/Calls.antt =====
-- Sequences of calls of the pool's methods, in the order in which they took the lock.
use cache_route.Common.{ℕ, List, [], ◌∷◌}
use cache_route.Proxy.Pool.{
  InstancePool, InstanceResource, Registration, Beat, begin_request, end_request,
  report_resource_snapshot, remove, upsert, heartbeat,
}

pub data Call (R C : Type 0) : Type 0 where
  begins ends removes : ℕ → Call R C
  reports : ℕ → (ℕ → InstanceResource R) → ℕ → Call R C
  registers : Registration R C → ℕ → Call R C
  beats : Beat R C → ℕ → Call R C

module _ {R C : Type 0} (fingerprint : C → ℕ) where
  unfoldable pub step : InstancePool R C → Call R C → InstancePool R C
  step p (Call.begins i) = (begin_request i p).1
  step p (Call.ends i) = (end_request i p).1
  step p (Call.reports i parse now) = (report_resource_snapshot i parse now p).1
  step p (Call.removes i) = (remove i p).1
  step p (Call.registers r now) = (upsert fingerprint r now p).1
  step p (Call.beats b now) = (heartbeat fingerprint b now p).1

  unfoldable pub run : InstancePool R C → List (Call R C) → InstancePool R C
  run p [] = p
  run p (c ∷ cs) = run (step p c) cs
