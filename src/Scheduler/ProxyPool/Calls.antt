-- ===== src/Scheduler/ProxyPool/Calls.antt =====
-- Sequences of calls of the pool's methods, in the order in which they took the lock.
use cache_route.Common.{ℕ, List, [], ◌∷◌}
use cache_route.Common.Int.{ℤ}
use cache_route.Scheduler.ProxyPool.{
  ProxyPool, ProxyInfo, Beat, upsert, heartbeat, remove, inflight_delta,
}

pub data Call (R P : Type 0) : Type 0 where
  registers : ProxyInfo R P → Call R P
  beats : Beat R P → R → Call R P
  removes : ℕ → Call R P
  counts : ℕ → ℤ → Call R P

module _ {R P : Type 0} where
  unfoldable pub step : ProxyPool R P → Call R P → ProxyPool R P
  step p (Call.registers info) = upsert info p
  step p (Call.beats b now) = (heartbeat b now p).1
  step p (Call.removes i) = remove i p
  step p (Call.counts i delta) = (inflight_delta i delta p).1

  unfoldable pub run : ProxyPool R P → List (Call R P) → ProxyPool R P
  run p [] = p
  run p (c ∷ cs) = run (step p c) cs
