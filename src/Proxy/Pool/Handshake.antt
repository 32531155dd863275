-- ===== src/Proxy/Pool/Handshake.antt =====
-- How an instance's capabilities get known again: `upsert` forgets them when they are missing, and
-- a heartbeat sends them whole or by their fingerprint.
use cache_route.Common.{
  ℕ, ◌≡◌, refl, Option, none, some, ◌==◌, if◌then◌else◌, arith, true, Option-cases, inl, inr,
}
use cache_route.Common.Dict.{lookup-insert}
use cache_route.Proxy.Pool.{
  InstancePool, InstanceInfo, Registration, Beat, HeartbeatResult, upsert, heartbeat, get,
  plain_result, refresh, register_new, register_again, mismatch, differs,
}
use mathlib.Core.Option

-- The answer to a beat that has only a fingerprint, by the fingerprint on record.
abbrev pub answer : Option ℕ → ℕ → HeartbeatResult
answer expected value =
    if differs expected value then mismatch expected value else plain_result true

module _ {R C : Type 0} (fingerprint : C → ℕ) where
  heartbeat_by_fingerprint :
      (b : Beat R C) (later value : ℕ) (p : InstancePool R C) (it : InstanceInfo R C)
      → b.capabilities ≡ none
      → b.fingerprint ≡ some value
      → get p b.instance_id ≡ some it
      → let (result, p') = heartbeat fingerprint b later p in
        (result ≡ answer it.capability_fingerprint value)
        × (p' ≡ (if differs it.capability_fingerprint value then p else p'))
  unfolding heartbeat
  heartbeat_by_fingerprint b later value p it bare given known = (ground arith, ground arith)

  heartbeat_records :
      (b : Beat R C) (c : C) (now : ℕ) (p : InstancePool R C)
      → b.capabilities ≡ some c
      → (heartbeat fingerprint b now p).0.ok ≡ true
      → (it : InstanceInfo R C) × (get (heartbeat fingerprint b now p).1 b.instance_id ≡ some it)
        × (it.capability_fingerprint ≡ some (fingerprint c))
  unfolding heartbeat
  heartbeat_records b c now p whole h = elim (Option-cases (get p b.instance_id)) [
    | inl e ↦ absurd (ground arith)
    | inr (it, e) ↦
        (refresh fingerprint b now it, grind (arith, lookup-insert), unfold refresh in ground arith)
  ]

  upsert_records :
      (r : Registration R C) (now : ℕ) (p : InstancePool R C)
      → (it : InstanceInfo R C) × (get (upsert fingerprint r now p).1 r.instance_id ≡ some it)
        × (it.capability_fingerprint ≡ Option.map fingerprint r.capabilities)
  unfolding upsert
  upsert_records r now p = elim (Option-cases (get p r.instance_id)) [
    | inl e ↦
        (register_new fingerprint r now, grind (arith, lookup-insert), unfold register_new in refl)
    | inr (it, e) ↦ (
      register_again fingerprint r now it,
      grind (arith, lookup-insert),
      unfold register_again in refl,
    )
  ]

  -- If an instance's beat with its capabilities whole is accepted and its next beat, with nothing
  -- done to the pool between the two, has only a fingerprint, that beat is accepted if the
  -- fingerprint is theirs; if it is another it is refused as a mismatch, with both fingerprints, and
  -- the pool stays as it was.
  pub heartbeat_handshake :
      (b b' : Beat R C) (c : C) (now later value : ℕ) (p : InstancePool R C)
      → b.capabilities ≡ some c
      → (heartbeat fingerprint b now p).0.ok ≡ true
      → b'.instance_id ≡ b.instance_id
      → b'.capabilities ≡ none
      → b'.fingerprint ≡ some value
      → let p' = (heartbeat fingerprint b now p).1 in
        let (result, p'') = heartbeat fingerprint b' later p' in
        (result ≡ (
          if fingerprint c == value
          then plain_result true
          else mismatch (some (fingerprint c)) value))
        × (p'' ≡ (if fingerprint c == value then p'' else p'))
  heartbeat_handshake b b' c now later value p whole h same bare given =
      let (it, known, printed) = heartbeat_records b c now p whole h in
      let (r, q) =
        heartbeat_by_fingerprint b' later value (heartbeat fingerprint b now p).1 it bare given
          (rw same known) in
      (ground (arith, r, printed), ground (arith, q, printed))

  -- A registration replaces what was known of the capabilities, by nothing if it brings none: a
  -- later beat with only a fingerprint is accepted if it is that of the capabilities registered,
  -- and otherwise asks for them and leaves the pool as it was.
  pub upsert-heartbeat :
      (r : Registration R C) (b : Beat R C) (now later value : ℕ) (p : InstancePool R C)
      → b.instance_id ≡ r.instance_id
      → b.capabilities ≡ none
      → b.fingerprint ≡ some value
      → let p' = (upsert fingerprint r now p).1 in
        let (result, p'') = heartbeat fingerprint b later p' in
        let expected = Option.map fingerprint r.capabilities in
        (result ≡ answer expected value) × (p'' ≡ (if differs expected value then p' else p''))
  upsert-heartbeat r b now later value p same bare given =
      let (it, known, printed) = upsert_records r now p in
      let (a, q) =
        heartbeat_by_fingerprint b later value (upsert fingerprint r now p).1 it bare given
          (rw same known) in
      (rw (← printed) a, rw (← printed) q)
