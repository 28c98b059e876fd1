-- ===== src/Tests/Threads.antt =====
-- Runs of kernel/src/sched/basic/sched.c.
use aphrodite.Base.{
  ◌+◌, ◌-◌, ◌≡◌, refl, arith, ltb, ◌==◌, if◌then◌else◌, true, false, ◌||◌, none, some, List, [],
  ◌∷◌,
}
use aphrodite.Base.Sorted.{has}
use aphrodite.Sched.{
  Sched, Alarm, thread_runnable, thread_enqueued_nolock, thread_running_nolock,
  sched_enqueue_thread, next_of, get_next_thread, switch_to, sched_next,
}
use aphrodite.Sched.Queue.{Once}
use aphrodite.Sched.Kept.{Keeps, AllBusy, Busy, Reached.start, Reached.switched, Reached-Keeps}
use aphrodite.Sched.Lost.{woken_in_between}
use aphrodite.Sched.Turn.{run_all, run_all-takes_turn}

-- Thread 1 runs on processor 0 and has gone to sleep, 2 and 3 wait, and every other processor has its
-- idle thread.
abbrev threads : Sched
threads = record {
  run_queue = 2 ∷ 3 ∷ [];
  runnable = λ t. (t == 2) || (t == 3);
  cpu = λ t. if t == 1 then some 0 else if ltb t 10 then none else some (t - 10);
  current = λ c. if c == 0 then 1 else c + 10;
  idle_thread = λ c. c + 10;
}

threads-Keeps : Keeps threads
unfolding Once has
threads-Keeps = record {
  once = ground arith;
  queued = λ t h. ground arith;
  kept = λ t r c. ground arith;
  here = λ c. ground arith;
  idle_waits = λ c. ground arith;
  idle_here = λ c. ground arith;
}

one-Busy : Busy threads 1
one-Busy = λ c. omega arith

-- One alarm of thread 1 that is due when a time slice of 5 is over.
abbrev alarms : List Alarm
alarms = (4, 1) ∷ []

alarms-AllBusy : AllBusy threads alarms
unfolding AllBusy
alarms-AllBusy = (one-Busy, tt)

abbrev later : Sched
later = (sched_next threads 0 0 5 0 alarms).0

Reached-Keeps_example : Keeps later
Reached-Keeps_example =
    Reached-Keeps threads later threads-Keeps (switched threads 0 0 5 0 alarms alarms-AllBusy start)

run_all-takes_turn_example : (run_all threads (7 ∷ 0 ∷ [])).current 0 ≡ 3
run_all-takes_turn_example =
    run_all-takes_turn threads (2 ∷ []) [] 3 0 (7 ∷ []) threads-Keeps refl refl

two_is_next : next_of 1 (2 ∷ 3 ∷ []) ≡ some 2
unfolding next_of
two_is_next = refl

woken_in_between_example :
    (let curr = threads.current 0 in
      let (chosen, picked) = get_next_thread threads 0 curr in
      let after = switch_to (sched_enqueue_thread picked curr) 0 curr chosen in
      (thread_runnable after curr ≡ true)
      × (thread_running_nolock after curr ≡ false)
      × (thread_enqueued_nolock after curr ≡ false))
woken_in_between_example = woken_in_between threads 0 2 threads-Keeps one-Busy refl two_is_next
