-- ===== src/Sched/Kept.antt =====
-- The operations of kernel/src/sched/basic/sched.c lose no thread, as long as each is one step.
use aphrodite.Base.{
  ℕ, ◌-◌, ◌≡◌, ◌≢◌, arith, ltb, ◌==◌, if◌then◌else◌, true, false, none, some, List, [], ◌∷◌, ◌++◌,
  Bool-cases, Option-cases, inl, inr,
}
use aphrodite.Base.Sorted.{has}
use aphrodite.Sched.{
  Sched, Alarm, put, thread_runnable, thread_enqueued_nolock, thread_running_nolock,
  sched_enqueue_thread_for_use, sched_dequeue_thread_for_use, sched_enqueue_thread,
  sched_dequeue_thread, next_of, take_next, get_next_thread, cpu_after, switch_to, run_next,
  update_alarms, update_alarm_list, sched_next,
}
use aphrodite.Sched.Queue.{Once, has-append, has-remove, append-Once, remove-Once, next_of-some}

-- A state in which no thread is lost: the queue has each thread at most once, exactly the runnable
-- threads that run nowhere are on it, each processor has its current thread, which has that
-- processor, and an idle thread is not runnable and always has its processor.
pub record Keeps (s : Sched) : Type 0 where
  pub once : Once s.run_queue
  pub queued : (t : ℕ) → has t s.run_queue ≡ true → (s.runnable t ≡ true) × (s.cpu t ≡ none)
  pub kept : (t : ℕ) → s.runnable t ≡ true → s.cpu t ≡ none → has t s.run_queue ≡ true
  pub here : (c : ℕ) → s.cpu (s.current c) ≡ some c
  pub idle_waits : (c : ℕ) → s.runnable (s.idle_thread c) ≡ false
  pub idle_here : (c : ℕ) → s.cpu (s.idle_thread c) ≡ some c

-- A thread that is no processor's idle thread.
abbrev pub Busy : Sched → ℕ → Type 0
Busy s t = (c : ℕ) → s.idle_thread c ≢ t

-- Alarms of such threads.
unfoldable pub AllBusy : Sched → List Alarm → Type 0
AllBusy s [] = Unit
AllBusy s ((_, listener) ∷ alarms) = Busy s listener × AllBusy s alarms

pub enqueue-Keeps :
    (s : Sched) (thread : ℕ) → Busy s thread → Keeps s → Keeps (sched_enqueue_thread s thread)
unfolding sched_enqueue_thread thread_running_nolock thread_enqueued_nolock
    sched_enqueue_thread_for_use put
enqueue-Keeps s thread busy k = record {
  once = ground (arith, k.once, append-Once thread s.run_queue);
  queued = λ t h. ground (arith, k.queued t, has-append t thread s.run_queue);
  kept = λ t r c. ground (arith, k.kept t, has-append t thread s.run_queue);
  here = k.here;
  idle_waits = λ c. ground (arith, k.idle_waits c, busy c);
  idle_here = k.idle_here;
}

dequeue-Keeps : (s : Sched) (thread : ℕ) → Keeps s → Keeps (sched_dequeue_thread s thread)
unfolding sched_dequeue_thread sched_dequeue_thread_for_use put
dequeue-Keeps s thread k = record {
  once = remove-Once thread s.run_queue k.once;
  queued = λ t h. ground (arith, k.queued t, has-remove t thread s.run_queue k.once);
  kept = λ t r c. ground (arith, k.kept t, has-remove t thread s.run_queue k.once);
  here = k.here;
  idle_waits = λ c. ground (arith, k.idle_waits c);
  idle_here = k.idle_here;
}

-- The current thread is not queued.
pub current-unqueued : (s : Sched) (c : ℕ) → Keeps s → has (s.current c) s.run_queue ≡ false
current-unqueued s c k = elim (Bool-cases (has (s.current c) s.run_queue)) [
  | inl h ↦ ground (arith, k.queued (s.current c) h, k.here c)
  | inr h ↦ h
]

-- A processor goes over to a thread of the queue.
pub other-Keeps :
    (s : Sched) (c next : ℕ)
    → Keeps s
    → has next s.run_queue ≡ true
    → next ≢ s.current c
    → (let (n, picked) = take_next s c (s.current c) (some next) in
        Keeps (switch_to picked c (s.current c) n))
unfolding take_next switch_to cpu_after thread_runnable sched_enqueue_thread_for_use
    sched_dequeue_thread_for_use put
other-Keeps s c next k inside ne =
    let prev = s.current c in
    let out = current-unqueued s c k in
    let different : (prev == next) ≡ false = ground arith in
    let back = if s.runnable prev then s.run_queue ++ (prev ∷ []) else s.run_queue in
    let back_once : Once back = ground (arith, k.once, append-Once prev s.run_queue) in
    rw different (record {
      once = remove-Once next back back_once;
      queued = λ t h. ground (
        arith,
        h,
        has-remove t next back back_once,
        has-append t prev s.run_queue,
        k.queued t,
        k.idle_waits c,
      );
      kept = λ t r e. ground (
        arith,
        e,
        has-remove t next back back_once,
        has-append t prev s.run_queue,
        k.kept t,
        k.idle_waits c,
      );
      here = λ c'. ground (arith, k.here c', k.here c, k.queued next);
      idle_waits = k.idle_waits;
      idle_here = λ c'. ground (arith, k.idle_here c', k.here c, k.queued next);
    })

-- A processor goes over to its idle thread, where the current one cannot go on.
idle-Keeps :
    (s : Sched) (c : ℕ)
    → Keeps s
    → (let (n, picked) = take_next s c (s.current c) none in
        Keeps (switch_to picked c (s.current c) n))
unfolding take_next switch_to cpu_after thread_runnable put
idle-Keeps s c k =
    let prev = s.current c in
    let idle = s.idle_thread c in
    elim (Bool-cases (s.runnable prev)) [
      | inl r ↦ let same : (prev == prev) ≡ true = ground arith in rw (r, same) k
      | inr r ↦ elim (Bool-cases (prev == idle)) [
        | inl same ↦ rw (r, same) k
        | inr different ↦
            rw (r, different)
              (record {
                once = k.once;
                queued = λ t h. ground (arith, h, k.queued t, k.idle_waits c);
                kept = λ t r' e. ground (arith, e, r, k.kept t, k.idle_waits c);
                here = λ c'. ground (arith, k.here c', k.here c, k.idle_here c);
                idle_waits = k.idle_waits;
                idle_here = λ c'. ground (arith, k.idle_here c', k.here c, k.idle_here c);
              })
      ]
    ]

pub run_next-Keeps : (s : Sched) (c : ℕ) → Keeps s → Keeps (run_next s c)
unfolding run_next get_next_thread
run_next-Keeps s c k = elim (Option-cases (next_of (s.current c) s.run_queue)) [
  | inl e ↦ rw e (idle-Keeps s c k)
  | inr (next, e) ↦
      let (inside, ne) = next_of-some (s.current c) next s.run_queue e in
      rw e (other-Keeps s c next k inside ne)
]

AllBusy-enqueue :
    (s : Sched) (thread : ℕ) (alarms : List Alarm)
    → AllBusy s alarms
    → AllBusy (sched_enqueue_thread s thread) alarms
unfolding sched_enqueue_thread AllBusy
AllBusy-enqueue s thread [] b = tt
AllBusy-enqueue s thread ((_, listener) ∷ alarms) (busy, b) =
    (busy, AllBusy-enqueue s thread alarms b)

alarms-Keeps :
    (s : Sched) (time_spent : ℕ) (alarms : List Alarm)
    → Keeps s
    → AllBusy s alarms
    → Keeps ((update_alarms s time_spent alarms).0)
unfolding update_alarms AllBusy
alarms-Keeps s time_spent [] k b = k
alarms-Keeps s time_spent ((remaining, listener) ∷ alarms) k (busy, b) =
    elim (Bool-cases (ltb time_spent remaining)) [
      | inl late ↦ rw late (alarms-Keeps s time_spent alarms k b)
      | inr due ↦ rw due (
          alarms-Keeps (sched_enqueue_thread s listener) time_spent alarms
            (enqueue-Keeps s listener busy k) (AllBusy-enqueue s listener alarms b))
    ]

-- The states that a state comes to by the calls of the scheduler.
pub data Reached (s : Sched) : Sched → Type 0 where
  start : Reached s s
  woken :
      (s' : Sched) (thread : ℕ)
      → Busy s' thread
      → Reached s s'
      → Reached s (sched_enqueue_thread s' thread)
  put_to_sleep :
      (s' : Sched) (thread : ℕ) → Reached s s' → Reached s (sched_dequeue_thread s' thread)
  switched :
      (s' : Sched) (processor preemption_disabled timeslice remaining : ℕ) (alarms : List Alarm)
      → AllBusy s' alarms
      → Reached s s'
      → Reached s ((sched_next s' processor preemption_disabled timeslice remaining alarms).0)

sched_next-Keeps :
    (s : Sched) (processor preemption_disabled timeslice remaining : ℕ) (alarms : List Alarm)
    → AllBusy s alarms
    → Keeps s
    → Keeps ((sched_next s processor preemption_disabled timeslice remaining alarms).0)
unfolding sched_next update_alarm_list
sched_next-Keeps s processor preemption_disabled timeslice remaining alarms busy k =
    elim (Bool-cases (ltb 0 preemption_disabled)) [
      | inl disabled ↦ rw disabled k
      | inr enabled ↦
          rw enabled (run_next-Keeps _ processor (alarms-Keeps s (timeslice - 0) alarms k busy))
    ]

-- From a state in which no thread is lost, all calls of sched_enqueue_thread, sched_dequeue_thread
-- and sched_next, in any order, on any processors and with any alarms, lead to states in which no
-- thread is lost, if idle threads are not woken and each call is one step: the runnable
-- threads without a processor are exactly the threads of the queue, each once, and each processor
-- and its current thread name each other.
pub Reached-Keeps : (s s' : Sched) → Keeps s → Reached s s' → Keeps s'
Reached-Keeps s _ k start = k
Reached-Keeps s _ k (woken s' thread busy r) = enqueue-Keeps s' thread busy (Reached-Keeps s s' k r)
Reached-Keeps s _ k (put_to_sleep s' thread r) = dequeue-Keeps s' thread (Reached-Keeps s s' k r)
Reached-Keeps s _ k (switched s' processor preemption_disabled timeslice remaining alarms busy r) =
    sched_next-Keeps s' processor preemption_disabled timeslice remaining alarms busy
      (Reached-Keeps s s' k r)
