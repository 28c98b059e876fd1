-- ===== src/Tests/Locks.antt =====
-- Runs of kernel/src/cpu/spinlock.c.
use aphrodite.Base.{◌≤◌, ◌≡◌, refl, arith, true, false, List, [], ◌∷◌}
use aphrodite.Spin.{
  Spinlock, Waiter, Step.takes, Step.enters, Reached, Reached.starts, Reached.steps, take_ticket,
  is_served,
}
use aphrodite.Spin.{Runs.stays, TryAcquire, TryAcquire.exchanges, exchange_back, tried}
use aphrodite.Spin.Attempt.{TryAcquire-Reached}
use aphrodite.Spin.Exclusion.{holders, mutual_exclusion, served_in_order, oldest_is_served}

-- A lock whose next ticket is the last before the wrap, and the same with that ticket taken.
abbrev last_ticket : Spinlock
last_ticket = record { front = 0xffffffff; back = 0xffffffff }

abbrev wrapped : Spinlock
wrapped = record { front = 0xffffffff; back = 0 }

one_waits : Reached wrapped ((0xffffffff, false) ∷ [])
unfolding take_ticket
one_waits =
    steps last_ticket wrapped [] ((0xffffffff, false) ∷ []) (starts last_ticket refl (omega arith))
      (takes last_ticket [] (omega arith))

served : is_served wrapped 0xffffffff ≡ true
unfolding is_served
served = refl

one_inside : Reached wrapped ((0xffffffff, true) ∷ [])
one_inside =
    steps wrapped wrapped ((0xffffffff, false) ∷ []) ((0xffffffff, true) ∷ []) one_waits
      (enters wrapped [] [] 0xffffffff served)

mutual_exclusion_example : holders ((0xffffffff, true) ∷ []) ≤ 1
mutual_exclusion_example = mutual_exclusion wrapped ((0xffffffff, true) ∷ []) one_inside

served_in_order_example : ◌≡◌ {A = List Waiter} [] []
served_in_order_example = served_in_order wrapped [] [] 0xffffffff true one_inside served

oldest_is_served_example : is_served wrapped 0xffffffff ≡ true
oldest_is_served_example = oldest_is_served wrapped 0xffffffff false [] one_waits

-- The free lock is tried, with nothing in between.
tries_once : TryAcquire last_ticket [] true wrapped ((0xffffffff, true) ∷ [])
unfolding exchange_back tried is_served
tries_once =
    exchanges 0 0 last_ticket last_ticket last_ticket [] [] [] (stays last_ticket []) refl
      (stays last_ticket []) (omega arith)

TryAcquire-Reached_example :
    Reached wrapped ((0xffffffff, true) ∷ [])
    × (true ≡ true → ◌≡◌ {A = List Waiter} ((0xffffffff, true) ∷ []) ((0xffffffff, true) ∷ []))
TryAcquire-Reached_example =
    TryAcquire-Reached last_ticket wrapped [] ((0xffffffff, true) ∷ []) true
      (starts last_ticket refl (omega arith)) tries_once
