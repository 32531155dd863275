-- ===== src/Proxy/Queue/Tests/Turns.antt =====
-- The theorems on what happens to reservations, at concrete ones.
use cache_route.Common.{
  map, keep, not, ℕ, ◌≡◌, ◌↔◌, refl, ap, sym, subst, true, some, List, [], ◌∷◌, Member, inl, inr,
  arith,
}
use cache_route.Common.Text.{codes}
use cache_route.Common.Sort.{sort, insert_sorted}
use cache_route.Common.Floats.Naturals.{whole_numbers, whole_numbers-IsOrdered}
use cache_route.Proxy.Queue.Task.{ProxyTask}
use cache_route.Proxy.Queue.Reservation.{Reservations, reserve}
use cache_route.Proxy.Queue.Progress.{same, waiting, recompute, has_turn}
use cache_route.Proxy.Queue.Progress.Order.{Event, IsOrderly, run, run-IsOrderly}
use cache_route.Proxy.Queue.Progress.Row.{IsRow, seqs_of, recompute-IsRow}
use cache_route.Proxy.Queue.Progress.Turn.{NoneBefore, has_turn_lem}
use cache_route.Proxy.Queue.Tests.{task, slots, predictors}

abbrev events : List (Event ℕ)
events =
    Event.reserves (task 1 (codes "text")) 2000 5
    ∷ Event.reserves (task 2 (codes "text")) 2001 5
    ∷ Event.first_tokens 9 (task 1 (codes "text"))
    ∷ Event.recomputes 9
    ∷ []

abbrev reserved : Reservations ℕ
reserved = run predictors slots events

run-IsOrderly_example : IsOrderly reserved
run-IsOrderly_example = run-IsOrderly predictors slots events tt

recompute-IsRow_example :
    (map seqs_of (recompute predictors 12 reserved).pending
      ≡ map seqs_of (keep (λ t. not t.has_seen_first_token) reserved.pending))
    × IsOrderly (recompute predictors 12 reserved)
    × IsRow 12
        (recompute predictors 12 reserved).prefill_free_s
        (recompute predictors 12 reserved).pending
recompute-IsRow_example =
    recompute-IsRow whole_numbers-IsOrdered predictors 12 reserved run-IsOrderly_example

-- Two tasks that wait, under the numbers 4 and 6.
abbrev numbered : ℕ → ℕ → ProxyTask ℕ
numbered seq n =
    (reserve predictors (task seq (codes "text")) 2000 5 (record slots { next_seq = n })).0

abbrev two : Reservations ℕ
two = record slots { next_seq = 7; pending = numbered 1 4 ∷ numbered 2 6 ∷ [] }

two-IsOrderly : IsOrderly two
unfolding reserve
two-IsOrderly =
    (4, refl, refl, omega arith, omega arith, (6, refl, refl, omega arith, omega arith, tt))

two-waiting : waiting two.pending ≡ numbered 1 4 ∷ numbered 2 6 ∷ []
unfolding reserve waiting sort insert_sorted
two-waiting = refl

numbered_seq : (seq n : ℕ) → (numbered seq n).prepare_seq ≡ seq
unfolding reserve
numbered_seq seq n = refl

listed_apart :
    (u : ProxyTask ℕ)
    → Member u (numbered 1 4 ∷ numbered 2 6 ∷ [])
    → same u (numbered 2 6) ≡ true
    → u ≡ numbered 2 6
listed_apart u (inl e) h =
    let first : u.prepare_seq ≡ (numbered 1 4).prepare_seq = ap (λ t. t.prepare_seq) e in
    absurd (ground (arith, first, numbered_seq 1 4, numbered_seq 2 6, h))
listed_apart u (inr (inl e)) h = e
listed_apart u (inr (inr e)) h = absurd e

second_apart :
    (u : ProxyTask ℕ)
    → Member u (waiting two.pending)
    → same u (numbered 2 6) ≡ true
    → u ≡ numbered 2 6
second_apart u m h = listed_apart u (subst (Member u) two-waiting m) h

second_waits : Member (numbered 2 6) (waiting two.pending)
second_waits = subst (Member (numbered 2 6)) (sym two-waiting) (inr (inl refl))

second_number : (numbered 2 6).reservation_seq ≡ some 6
unfolding reserve
second_number = refl

has_turn_lem_example : (has_turn (numbered 2 6) two ≡ true) ↔ NoneBefore 6 (waiting two.pending)
has_turn_lem_example =
    has_turn_lem (numbered 2 6) 6 two two-IsOrderly second_apart second_waits second_number
