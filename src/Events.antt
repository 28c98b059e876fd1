-- ===== src/Events.antt =====
-- kernel/src/sched/event.c and event.h: threads that wait for events, on the model of Sched.
--
-- Events and threads are numbers. A wait that blocks is in two steps, before and after
-- `sched_yield`, since other threads run in between. Each step holds the locks of its events. An
-- `event_index` of -1 is `none`. The answers of the memory allocator to the appends are a list, and a
-- refusal, like the use of an index outside the caller's events, is `panic`.
pub mod Raised
pub mod Woken
pub mod Index
use aphrodite.Base.{
  ℕ, ◌+◌, ◌-◌, ◌==◌, if◌then◌else◌, Bool, true, false, Option, none, some, List, [], ◌∷◌, ◌++◌,
  length, get_elem?, Outcome, ok, panic, ◌>>=◌, u32,
}
use aphrodite.Sched.{Sched, put, sched_enqueue_thread, sched_dequeue_thread}

-- `struct event_listener`: the waiter and `listeners_index`.
abbrev pub EventListener : Type 0
EventListener = ℕ × ℕ

pub record Event : Type 0 where
  pub listeners : List EventListener
  pub pending : ℕ

pub record Waits : Type 0 where
  pub events : ℕ → Event
  -- `thread->event_index`, for each thread
  pub event_index : ℕ → Option ℕ
  pub sched : Sched

-- The loop from an index on.
unfoldable pub find_pending : (ℕ → Event) → List ℕ → ℕ → Option ℕ × (ℕ → Event)
find_pending events [] i = (none, events)
find_pending events (e ∷ es) i =
    let later = find_pending events es (i + 1) in
    let event = events e in
    if event.pending == 0
    then later
    else (some i, put events e (record event { pending = event.pending - 1 }))

unfoldable pub add_listener : Event → ℕ → Event
add_listener event thread = record event {
  listeners = event.listeners ++ ((thread, length event.listeners) ∷ []);
}

unfoldable pub add_listeners_to_events : (ℕ → Event) → List ℕ → ℕ → List Bool → Outcome (ℕ → Event)
add_listeners_to_events events [] thread grants = ok events
add_listeners_to_events events (e ∷ es) thread [] = panic
add_listeners_to_events events (e ∷ es) thread (false ∷ grants) = panic
add_listeners_to_events events (e ∷ es) thread (true ∷ grants) =
    add_listeners_to_events (put events e (add_listener (events e) thread)) es thread grants

unfoldable pub remove_waiter : ℕ → List EventListener → List EventListener
remove_waiter thread [] = []
remove_waiter thread ((waiter, i) ∷ listeners) =
    if waiter == thread then listeners else (waiter, i) ∷ remove_waiter thread listeners

unfoldable pub remove_thread_from_listeners : Event → ℕ → Event
remove_thread_from_listeners event thread = record event {
  listeners = remove_waiter thread event.listeners;
}

-- A wait that has returned its index, or -1, or one that goes on to `sched_yield`.
pub data Awaited : Type 0 where
  returns : Option ℕ → Awaited
  blocks : Awaited

-- `events_await` after `find_pending`, up to the yield.
unfoldable pub await_found :
    Waits → ℕ → List ℕ → Bool → List Bool → Option ℕ × (ℕ → Event) → Outcome (Awaited × Waits)
await_found w processor es block grants (some i, events) =
    ok (returns (some i), record w { events = events })
await_found w processor es false grants (none, events) = ok (returns none, w)
await_found w processor es true grants (none, events) =
    let s = w.sched in
    let thread = s.current processor in
    add_listeners_to_events w.events es thread grants >>= λ listened.
    ok (blocks, record w { events = listened; sched = sched_dequeue_thread s thread })

unfoldable pub events_await : Waits → ℕ → List ℕ → Bool → List Bool → Outcome (Awaited × Waits)
events_await w processor es block grants =
    await_found w processor es block grants (find_pending w.events es 0)

-- The removal from the event at the index.
unfoldable pub drop_listener : Waits → List ℕ → ℕ → Option ℕ → Outcome Waits
drop_listener w es thread none = panic
drop_listener w es thread (some i) = elim (get_elem? es i) [
  | none ↦ panic
  | some e ↦
      ok (record w { events = put w.events e (remove_thread_from_listeners (w.events e) thread) })
]

-- The end of `events_await`, when the thread runs again.
unfoldable pub await_ends : Waits → ℕ → List ℕ → Bool → Outcome (Option ℕ × Waits)
await_ends w thread es drop_after_recv =
    let i = w.event_index thread in
    let w' = record w { event_index = put w.event_index thread none } in
    if drop_after_recv
    then (drop_listener w' es thread i >>= λ dropped. ok (i, dropped))
    else ok (i, w')

-- The loop over the listeners: each has its index told and is woken.
unfoldable pub wake_listener : Waits → ℕ → ℕ → Waits
wake_listener w waiter i = record w {
  event_index = put w.event_index waiter (some i);
  sched = sched_enqueue_thread w.sched waiter;
}

unfoldable pub wake_listeners : Waits → List EventListener → Waits
wake_listeners w [] = w
wake_listeners w ((waiter, i) ∷ listeners) = wake_listeners (wake_listener w waiter i) listeners

-- `event_trigger` of an event with these listeners.
unfoldable pub trigger_with : Waits → ℕ → Bool → List EventListener → Waits
trigger_with w e drop_if_no_listeners (listener ∷ listeners) =
    wake_listeners w (listener ∷ listeners)
trigger_with w e true [] = w
trigger_with w e false [] =
    let event = w.events e in
    record w { events = put w.events e (record event { pending = u32 (event.pending + 1) }) }

unfoldable pub event_trigger : Waits → ℕ → Bool → Waits
event_trigger w e drop_if_no_listeners =
    let event = w.events e in trigger_with w e drop_if_no_listeners event.listeners
