-- ===== src/Sched.antt =====
-- kernel/src/sched/basic/sched.c: the run queue, and the switch from one thread to the next.
--
-- Threads and processors are numbers. `sched_info.list` of a thread is on the run queue or linked to
-- itself, so `list_empty` of it asks if the queue has the thread, and `list_remove` of a thread
-- that is not queued does nothing. What runs with the run queue's lock held is one step; what
-- `sched_next` does after the release of the lock is another. Interrupts, the timer and the
-- registers' contents are left out.
pub mod Queue
pub mod Kept
pub mod Lost
pub mod Turn
use aphrodite.Base.{
  ℕ, ◌-◌, ltb, ◌==◌, if◌then◌else◌, Bool, true, false, not, ◌&&◌, Option, none, some, List, [], ◌∷◌,
  ◌++◌,
}
use aphrodite.Base.Sorted.{has, remove_key}

-- A function with a new value at one place.
unfoldable pub put {ℓ} : {A : Type ℓ} → (ℕ → A) → ℕ → A → ℕ → A
put f k v j = if k == j then v else f j

pub record Sched : Type 0 where
  pub run_queue : List ℕ
  pub runnable : ℕ → Bool
  -- `thread->cpu`, for each thread
  pub cpu : ℕ → Option ℕ
  -- the current thread, and the idle thread, of each processor
  pub current : ℕ → ℕ
  pub idle_thread : ℕ → ℕ

unfoldable pub thread_runnable : Sched → ℕ → Bool
thread_runnable s thread = s.runnable thread

unfoldable pub thread_enqueued_nolock : Sched → ℕ → Bool
thread_enqueued_nolock s thread = has thread s.run_queue

unfoldable pub thread_running_nolock : Sched → ℕ → Bool
thread_running_nolock s thread = elim (s.cpu thread) [ none ↦ false | some _ ↦ true ]

-- The two operations on `g_run_queue`.
unfoldable pub sched_enqueue_thread_for_use : List ℕ → ℕ → List ℕ
sched_enqueue_thread_for_use run_queue thread = run_queue ++ (thread ∷ [])

unfoldable pub sched_dequeue_thread_for_use : List ℕ → ℕ → List ℕ
sched_dequeue_thread_for_use run_queue thread = remove_key thread run_queue

unfoldable pub sched_enqueue_thread : Sched → ℕ → Sched
sched_enqueue_thread s thread = record s {
  run_queue =
      if not (thread_running_nolock s thread) && not (thread_enqueued_nolock s thread)
      then sched_enqueue_thread_for_use s.run_queue thread
      else s.run_queue;
  runnable = put s.runnable thread true;
}

unfoldable pub sched_dequeue_thread : Sched → ℕ → Sched
sched_dequeue_thread s thread = record s {
  run_queue = sched_dequeue_thread_for_use s.run_queue thread;
  runnable = put s.runnable thread false;
}

-- The first thread of a queue that is not `prev`.
unfoldable pub next_of : ℕ → List ℕ → Option ℕ
next_of prev [] = none
next_of prev (next ∷ queue) = if next == prev then next_of prev queue else some next

-- `get_next_thread` after the loop over the queue.
unfoldable pub take_next : Sched → ℕ → ℕ → Option ℕ → ℕ × Sched
take_next s processor prev (some next) =
    let back =
      if thread_runnable s prev
      then sched_enqueue_thread_for_use s.run_queue prev
      else s.run_queue in
    (next, record s { run_queue = sched_dequeue_thread_for_use back next })
take_next s processor prev none =
    ((if thread_runnable s prev then prev else s.idle_thread processor), s)

-- `get_next_thread` of the current thread of a processor.
unfoldable pub get_next_thread : Sched → ℕ → ℕ → ℕ × Sched
get_next_thread s processor prev = take_next s processor prev (next_of prev s.run_queue)

-- Where the threads run after the switch: an idle thread keeps its processor.
unfoldable pub cpu_after : Sched → ℕ → ℕ → ℕ → ℕ → Option ℕ
cpu_after s processor curr next thread =
    if curr == s.idle_thread processor
    then put s.cpu next (some processor) thread
    else put (put s.cpu next (some processor)) curr none thread

-- The end of `sched_next`, from the comparison of the two threads on.
unfoldable pub switch_to : Sched → ℕ → ℕ → ℕ → Sched
switch_to s processor curr next =
    if curr == next
    then s
    else record s { cpu = cpu_after s processor curr next; current = put s.current processor next }

-- The two steps of `sched_next` with nothing between them.
unfoldable pub run_next : Sched → ℕ → Sched
run_next s processor =
    let curr = s.current processor in
    let (next, picked) = get_next_thread s processor curr in switch_to picked processor curr next

-- `struct alarm`: the time that is left and the thread that waits.
abbrev pub Alarm : Type 0
Alarm = ℕ × ℕ

-- The loop of `update_alarm_list`, with the time that the current thread has spent.
unfoldable pub update_alarms : Sched → ℕ → List Alarm → Sched × List Alarm
update_alarms s time_spent [] = (s, [])
update_alarms s time_spent ((remaining, listener) ∷ alarms) =
    let late = ltb time_spent remaining in
    let (s', rest) =
      update_alarms (if late then s else sched_enqueue_thread s listener) time_spent alarms in
    (s', (if late then (remaining - time_spent, listener) ∷ rest else rest))

-- `update_alarm_list` for a thread with this time slice and this time that remains of it.
unfoldable pub update_alarm_list : Sched → ℕ → ℕ → List Alarm → Sched × List Alarm
update_alarm_list s timeslice remaining alarms = update_alarms s (timeslice - remaining) alarms

-- `sched_next` for a current thread with this count of `preempt_disable`, this time slice, and the
-- time that `sched_yield` has noted as remaining. That is set to 0 before the alarms are looked at.
-- The processor is both `this_cpu` and `cpu` of its current thread.
unfoldable pub sched_next : Sched → ℕ → ℕ → ℕ → ℕ → List Alarm → Sched × List Alarm
sched_next s processor preemption_disabled timeslice remaining alarms =
    let (woken, rest) = update_alarm_list s timeslice 0 alarms in
    if ltb 0 preemption_disabled then (s, alarms) else (run_next woken processor, rest)
