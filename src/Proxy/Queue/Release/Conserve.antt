-- ===== src/Proxy/Queue/Release/Conserve.antt =====
-- A flush loses no task and releases none twice.
use cache_route.Common.{
  ℕ, suc, ◌+◌, ◌≡◌, refl, ◌∙◌, Bool, true, false, Option, none, some, List, [], ◌∷◌, ◌++◌, map,
  arith,
}
use mathlib.Core.List.{map-append}
use cache_route.Common.Dict.{lookup, erase, IsDict, erase-IsDict}
use cache_route.Common.Floats.{Floats}
use cache_route.Proxy.Queue.Task.{ProxyTask}
use cache_route.Proxy.Queue.Predict.{Predictors}
use cache_route.Proxy.Queue.Reservation.{Reservations, reserve}
use cache_route.Proxy.Queue.Release.{ReleaseState, Settings, release, flush, elem}
use cache_route.Proxy.Queue.Release.Count.{count, count-append, keys, count-keys-erase}
use cache_route.Proxy.Queue.Release.Loop.{Rule, flush-Ends}

module _ {R : Type 0} where
  -- The number under which a task was released.
  abbrev pub seq_of : ProxyTask R → ℕ
  seq_of t = elim t.released [ none ↦ 0 | some r ↦ r.release_seq ]

  abbrev pub seqs : ReleaseState R → List ℕ
  seqs s = map seq_of s.ready

  -- How often a number is in the ready queue or in the buffer.
  abbrev pub total : ℕ → ReleaseState R → ℕ
  total k s = count k (seqs s) + count k (keys s.buffer)

module _ {R : Type 0} ⦃f : Floats R⦄ where
  reserve-released :
      (p : Predictors R) (t : ProxyTask R) (ms : ℕ) (now_s : R) (r : Reservations R)
      → seq_of (reserve p t ms now_s r).0 ≡ seq_of t
  unfolding reserve
  reserve-released p t ms now_s r = refl

  module _ (c : Settings R) where
    -- A released task goes to the end of the ready queue, under its number.
    pub release-seqs :
        (seq : ℕ) (t : ProxyTask R) (bypass : Bool) (blocked : Option ℕ) (s : ReleaseState R)
        → seqs (release c seq t bypass blocked s) ≡ seqs s ++ seq ∷ []
    unfolding release reserve
    release-seqs seq t bypass blocked s = map-append seq_of s.ready _

    pub release-buffer :
        (seq : ℕ) (t : ProxyTask R) (bypass : Bool) (blocked : Option ℕ) (s : ReleaseState R)
        → (release c seq t bypass blocked s).buffer ≡ erase seq s.buffer
    unfolding release
    release-buffer seq t bypass blocked s = refl

    pub release-total :
        (k seq : ℕ) (t : ProxyTask R) (bypass : Bool) (blocked : Option ℕ) (s : ReleaseState R)
        → lookup seq s.buffer ≡ some t
        → total k (release c seq t bypass blocked s) ≡ total k s
    release-total k seq t bypass blocked s e =
        rw (release-seqs seq t bypass blocked s, release-buffer seq t bypass blocked s)
          (omega (arith, count-append k (seqs s) (seq ∷ []), count-keys-erase k seq t s.buffer e))

    -- Nothing is lost, and no key is listed twice.
    abbrev Conserves : ReleaseState R → ℕ → ℕ → ReleaseState R → Type 0
    Conserves s b n s' = IsDict s'.buffer × ((k : ℕ) → total k s' ≡ total k s)

    release-Conserves :
        (s : ReleaseState R) (b n b' n' : ℕ) (s' : ReleaseState R) (seq : ℕ) (t : ProxyTask R)
        (bypass : Bool) (blocked : Option ℕ)
        → lookup seq s'.buffer ≡ some t
        → Conserves s b n s'
        → Conserves s b' n' (release c seq t bypass blocked s')
    release-Conserves s b n b' n' s' seq t bypass blocked e (u, h) = (
      rw (release-buffer seq t bypass blocked s') (erase-IsDict seq s'.buffer u),
      λ k. release-total k seq t bypass blocked s' e ∙ h k,
    )

    Conserves-Rule : (s : ReleaseState R) → Rule c (Conserves s)
    Conserves-Rule s = record {
      skip = λ b n s' h. h;
      stop = λ b n m s' h. h;
      in_turn = λ b n s' t fresh e h. release-Conserves s b n b (suc n) s' n t false none e h;
      bypass = λ b n s' seq t o free fresh absent e above text h.
          release-Conserves s b n (suc b) n s' seq t true (some n) e h;
    }

    -- Under either policy a flush ends with the next number neither released nor prepared, and
    -- every number is as often in the ready queue and the buffer together as it was before.
    pub flush_conserves :
        (s : ReleaseState R)
        → IsDict s.buffer
        → let s' = flush c s in
          IsDict s'.buffer
          × ((k : ℕ) → total k s' ≡ total k s)
          × (elem s'.next_release s'.released ≡ false)
          × (lookup s'.next_release s'.buffer ≡ none)
    flush_conserves s u =
        let ends = flush-Ends c (Conserves s) s (Conserves-Rule s) u (u, λ k. refl) in
        (ends.holds.0, ends.holds.1, ends.unreleased, ends.unprepared)
