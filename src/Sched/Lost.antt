-- ===== src/Sched/Lost.antt =====
-- kernel/src/sched/basic/sched.c, `sched_next`: a wakeup that comes between the release of the run
-- queue's lock and the stores to `cpu`.
use aphrodite.Base.{ℕ, ◌≡◌, arith, ◌==◌, true, false, some}
use aphrodite.Sched.{
  Sched, put, thread_runnable, thread_enqueued_nolock, thread_running_nolock,
  sched_enqueue_thread_for_use, sched_dequeue_thread_for_use, sched_enqueue_thread, next_of,
  take_next, get_next_thread, cpu_after, switch_to,
}
use aphrodite.Sched.Queue.{has-remove, next_of-some}
use aphrodite.Sched.Kept.{Keeps, Busy, current-unqueued}

-- In a state without lost threads, with a current thread of a processor that is no idle thread and
-- went to sleep, and a
-- queue that has another thread for it to switch to: if another processor wakes the sleeping thread
-- up between the choice of the next one and the switch, then it ends up runnable, on no processor
-- and not in the queue.
pub woken_in_between :
    (s : Sched) (processor next : ℕ)
    → Keeps s
    → Busy s (s.current processor)
    → s.runnable (s.current processor) ≡ false
    → next_of (s.current processor) s.run_queue ≡ some next
    → (let curr = s.current processor in
        let (chosen, picked) = get_next_thread s processor curr in
        let after = switch_to (sched_enqueue_thread picked curr) processor curr chosen in
        (thread_runnable after curr ≡ true)
        × (thread_running_nolock after curr ≡ false)
        × (thread_enqueued_nolock after curr ≡ false))
unfolding get_next_thread take_next switch_to sched_enqueue_thread thread_runnable
    thread_enqueued_nolock thread_running_nolock sched_dequeue_thread_for_use
    sched_enqueue_thread_for_use cpu_after put
woken_in_between s processor next k busy asleep chosen =
    let curr = s.current processor in
    let (inside, ne) = next_of-some curr next s.run_queue chosen in
    let different : (curr == next) ≡ false = ground arith in
    let out = current-unqueued s processor k in
    rw (chosen, asleep, k.here processor, different)
      (
        ground arith,
        ground (arith, busy processor),
        ground (arith, k.once, has-remove curr next s.run_queue),
      )
