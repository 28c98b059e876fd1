-- ===== src/Tests/Waits.antt =====
-- Runs of kernel/src/sched/event.c.
use aphrodite.Base.{
  ℕ, ◌+◌, ◌-◌, ltb, ◌≡◌, refl, arith, ◌==◌, if◌then◌else◌, true, false, none, some, [], ◌∷◌, ok,
}
use aphrodite.Base.Sorted.{has}
use aphrodite.Sched.{thread_runnable}
use aphrodite.Sched.Queue.{Once}
use aphrodite.Sched.Kept.{Keeps}
use aphrodite.Events.{Waits, Awaited.returns, Awaited.blocks, events_await, event_trigger}
use aphrodite.Events.Woken.{AllWakeable, is_waiting, event_trigger-runnable}
use aphrodite.Events.Index.{granted}

-- Thread 5 waits for event 1; every processor has its idle thread, and nothing is pending.
abbrev waits : Waits
waits = record {
  events = λ e. record { listeners = if e == 1 then (5, 0) ∷ [] else []; pending = 0 };
  event_index = λ t. none;
  sched = record {
    run_queue = [];
    runnable = λ t. false;
    cpu = λ t. if ltb t 10 then none else some (t - 10);
    current = λ c. c + 10;
    idle_thread = λ c. c + 10;
  };
}

waits-Keeps : Keeps waits.sched
unfolding Once has
waits-Keeps = record {
  once = tt;
  queued = λ t h. cc;
  kept = λ t r c. cc;
  here = λ c. ground arith;
  idle_waits = λ c. refl;
  idle_here = λ c. ground arith;
}

waits-AllWakeable : AllWakeable waits.sched ((5, 0) ∷ [])
unfolding AllWakeable
waits-AllWakeable = ((λ c. omega arith), tt)

event_trigger-runnable_example :
    (let after = (event_trigger waits 1 false).sched in
      Keeps after × ((t : ℕ) → is_waiting t ((5, 0) ∷ []) ≡ true → thread_runnable after t ≡ true))
event_trigger-runnable_example = event_trigger-runnable waits 1 false waits-Keeps waits-AllWakeable

abbrev Noticed : Type 0
Noticed =
    (w' : Waits) × (events_await (event_trigger waits 2 false) 0 (1 ∷ 2 ∷ []) true []
      ≡ ok (returns (some 1), w'))
    × ((j : ℕ) → w'.events j ≡ waits.events j)

-- The second of the events is told as the first.
abbrev Told : Type 0
Told =
    (w' : Waits) × (events_await waits 0 (1 ∷ 2 ∷ []) true (granted (1 ∷ 2 ∷ [])) ≡ ok (blocks, w'))
    × ((event_trigger w' 2 false).event_index 10 ≡ some 0)
