-- ===== src/Events/Woken.antt =====
-- What `event_trigger` of kernel/src/sched/event.c does to the threads that wait.
use aphrodite.Base.{
  ℕ, ◌≡◌, refl, arith, ◌==◌, if◌then◌else◌, Bool, true, false, Bool-cases, inl, inr, List, [], ◌∷◌,
}
use aphrodite.Sched.{Sched, put, thread_runnable, sched_enqueue_thread}
use aphrodite.Sched.Kept.{Keeps, Busy, enqueue-Keeps}
use aphrodite.Events.{
  EventListener, Waits, wake_listener, wake_listeners, trigger_with, event_trigger,
}

-- No waiter is an idle thread.
unfoldable pub AllWakeable : Sched → List EventListener → Type 0
AllWakeable s [] = Unit
AllWakeable s ((waiter, _) ∷ listeners) = Busy s waiter × AllWakeable s listeners

unfoldable pub is_waiting : ℕ → List EventListener → Bool
is_waiting t [] = false
is_waiting t ((waiter, _) ∷ listeners) = if waiter == t then true else is_waiting t listeners

AllWakeable-enqueue :
    (s : Sched) (thread : ℕ) (listeners : List EventListener)
    → AllWakeable s listeners
    → AllWakeable (sched_enqueue_thread s thread) listeners
unfolding AllWakeable sched_enqueue_thread
AllWakeable-enqueue s thread [] b = tt
AllWakeable-enqueue s thread ((waiter, _) ∷ listeners) (busy, b) =
    (busy, AllWakeable-enqueue s thread listeners b)

wake-Keeps :
    (w : Waits) (listeners : List EventListener)
    → Keeps w.sched
    → AllWakeable w.sched listeners
    → Keeps ((wake_listeners w listeners).sched)
unfolding wake_listener wake_listeners AllWakeable
wake-Keeps w [] k b = k
wake-Keeps w ((waiter, i) ∷ listeners) k (busy, b) =
    wake-Keeps (wake_listener w waiter i) listeners (enqueue-Keeps w.sched waiter busy k)
      (AllWakeable-enqueue w.sched waiter listeners b)

-- Waking threads puts none to sleep.
wake-stays :
    (w : Waits) (listeners : List EventListener) (t : ℕ)
    → w.sched.runnable t ≡ true
    → (wake_listeners w listeners).sched.runnable t ≡ true
unfolding wake_listener wake_listeners sched_enqueue_thread put
wake-stays w [] t r = r
wake-stays w ((waiter, i) ∷ listeners) t r =
    wake-stays (wake_listener w waiter i) listeners t (ground arith)

wake-runnable :
    (w : Waits) (listeners : List EventListener) (t : ℕ)
    → is_waiting t listeners ≡ true
    → (wake_listeners w listeners).sched.runnable t ≡ true
unfolding wake_listener wake_listeners is_waiting sched_enqueue_thread put
wake-runnable w [] t h = cc
wake-runnable w ((waiter, i) ∷ listeners) t h = elim (Bool-cases (waiter == t)) [
  | inl same ↦ wake-stays (wake_listener w waiter i) listeners t (rw same refl)
  | inr other ↦ wake-runnable (wake_listener w waiter i) listeners t (ground arith)
]

trigger_with-runnable :
    (w : Waits) (e : ℕ) (listeners : List EventListener) (drops : Bool)
    → Keeps w.sched
    → AllWakeable w.sched listeners
    → (let after = (trigger_with w e drops listeners).sched in
        Keeps after × ((t : ℕ) → is_waiting t listeners ≡ true → after.runnable t ≡ true))
unfolding trigger_with is_waiting
trigger_with-runnable w e (listener ∷ listeners) drops k b =
    (wake-Keeps w (listener ∷ listeners) k b, wake-runnable w (listener ∷ listeners))
trigger_with-runnable w e [] true k b = (k, λ t h. cc)
trigger_with-runnable w e [] false k b = (k, λ t h. cc)

-- In a state in which no thread is lost, `event_trigger` makes every thread that waits for the event
-- runnable, and still no thread is lost, so that each of them is on the run queue or has a processor.
pub event_trigger-runnable :
    (w : Waits) (e : ℕ) (drop_if_no_listeners : Bool)
    → Keeps w.sched
    → AllWakeable w.sched ((w.events e).listeners)
    → (let after = (event_trigger w e drop_if_no_listeners).sched in
        Keeps after
        × ((t : ℕ) → is_waiting t ((w.events e).listeners) ≡ true → thread_runnable after t ≡ true))
unfolding event_trigger thread_runnable
event_trigger-runnable w e drop_if_no_listeners k b =
    trigger_with-runnable w e ((w.events e).listeners) drop_if_no_listeners k b
