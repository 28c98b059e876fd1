-- ===== src/Spin.antt =====
-- kernel/src/cpu/spinlock.c and spinlock.h: a lock with tickets.
--
-- Each atomic operation of `spin_acquire`, `spin_try_acquire` and `spin_release` is a step of its own, and the threads'
-- steps interleave in any order. `waiters` are the threads that have a ticket, oldest ticket
-- first: the ticket, and if the thread has the lock (`spin_acquire` has returned). Interrupts and
-- preemption, which the other variants switch around these operations, are left out.
pub mod Exclusion
pub mod Attempt
use aphrodite.Base.{
  ℕ, zero, suc, ◌+◌, ◌-◌, ◌^◌, ◌<◌, ◌≡◌, ◌==◌, if◌then◌else◌, Bool, true, false, List, [], ◌∷◌,
  ◌++◌, length, u32,
}

pub record Spinlock : Type 0 where
  pub front : ℕ
  pub back : ℕ

-- `atomic_fetch_add(&lock->back, 1)`: the ticket, and the lock after it.
unfoldable pub take_ticket : Spinlock → ℕ × Spinlock
take_ticket lock = (lock.back, record lock { back = u32 (lock.back + 1) })

-- The test of the loop of `spin_acquire`.
unfoldable pub is_served : Spinlock → ℕ → Bool
is_served lock ticket = lock.front == ticket

unfoldable pub spin_release : Spinlock → Spinlock
spin_release lock = record lock { front = u32 (lock.front + 1) }

-- Without DEBUG_LOCKS.
unfoldable pub spinlock_deinit : Spinlock → Spinlock
spinlock_deinit lock = record { front = 0; back = 0 }

abbrev pub Waiter : Type 0
Waiter = ℕ × Bool

-- One step of one thread. There are fewer than 2^32 threads, and only a thread that has the lock
-- releases it.
pub data Step : Spinlock → List Waiter → Spinlock → List Waiter → Type 0 where
  takes :
      (lock : Spinlock) (ws : List Waiter)
      → length ws < 2 ^ 32 - 1
      → Step lock ws ((take_ticket lock).1) (ws ++ (((take_ticket lock).0, false) ∷ []))
  spins :
      (lock : Spinlock) (before after : List Waiter) (ticket : ℕ)
      → is_served lock ticket ≡ false
      → Step lock (before ++ ((ticket, false) ∷ after)) lock (before ++ ((ticket, false) ∷ after))
  enters :
      (lock : Spinlock) (before after : List Waiter) (ticket : ℕ)
      → is_served lock ticket ≡ true
      → Step lock (before ++ ((ticket, false) ∷ after)) lock (before ++ ((ticket, true) ∷ after))
  releases :
      (lock : Spinlock) (before after : List Waiter) (ticket : ℕ)
      → Step lock (before ++ ((ticket, true) ∷ after)) (spin_release lock) (before ++ after)

-- What steps lead to from a lock that is free and has no waiters.
pub data Reached : Spinlock → List Waiter → Type 0 where
  starts : (lock : Spinlock) → lock.front ≡ lock.back → lock.front < 2 ^ 32 → Reached lock []
  steps :
      (lock lock' : Spinlock) (ws ws' : List Waiter)
      → Reached lock ws
      → Step lock ws lock' ws'
      → Reached lock' ws'

-- How many tickets a step takes.
unfoldable pub tickets : (lock lock' : Spinlock) (ws ws' : List Waiter) → Step lock ws lock' ws' → ℕ
tickets _ _ _ _ (takes lock ws few) = 1
tickets _ _ _ _ (spins lock before after ticket e) = 0
tickets _ _ _ _ (enters lock before after ticket e) = 0
tickets _ _ _ _ (releases lock before after ticket) = 0

-- Steps of other threads that take so many tickets.
pub data Runs : ℕ → Spinlock → List Waiter → Spinlock → List Waiter → Type 0 where
  stays : (lock : Spinlock) (ws : List Waiter) → Runs 0 lock ws lock ws
  goes :
      (n : ℕ) (lock lock1 lock2 : Spinlock) (ws ws1 ws2 : List Waiter)
      → Runs n lock ws lock1 ws1
      → (s : Step lock1 ws1 lock2 ws2) → Runs (n + tickets lock1 lock2 ws1 ws2 s) lock ws lock2 ws2

-- `atomic_compare_exchange_strong(&lock->back, &ticket, ticket + 1)`
unfoldable pub exchange_back : Spinlock → ℕ → Bool × Spinlock
exchange_back lock ticket =
    if lock.back == ticket then (true, record lock { back = u32 (ticket + 1) }) else (false, lock)

-- A thread that took a ticket this way has the lock.
unfoldable pub tried : Bool → List Waiter → ℕ → List Waiter
tried true ws ticket = ws ++ ((ticket, true) ∷ [])
tried false ws ticket = ws

-- `spin_try_acquire`: it loads `back`, then `front`, and then may exchange `back`, with steps of other threads in
-- between, in which fewer than 2^32 tickets are taken.
pub data TryAcquire : Spinlock → List Waiter → Bool → Spinlock → List Waiter → Type 0 where
  gives_up :
      (n : ℕ) (lock lock' : Spinlock) (ws ws' : List Waiter)
      → Runs n lock ws lock' ws'
      → is_served lock' lock.back ≡ false
      → TryAcquire lock ws false lock' ws'
  exchanges :
      (n k : ℕ) (lock lock1 lock2 : Spinlock) (ws ws1 ws2 : List Waiter)
      → Runs n lock ws lock1 ws1
      → is_served lock1 lock.back ≡ true
      → Runs k lock1 ws1 lock2 ws2
      → n + k < 2 ^ 32
      → TryAcquire lock ws
          ((exchange_back lock2 lock.back).0)
          ((exchange_back lock2 lock.back).1)
          (tried ((exchange_back lock2 lock.back).0) ws2 lock.back)
