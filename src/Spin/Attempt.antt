-- ===== src/Spin/Attempt.antt =====
-- `spin_try_acquire` of kernel/src/cpu/spinlock.c among the steps of other threads.
use aphrodite.Base.{
  ℕ, ◌+◌, ◌^◌, ◌<◌, ◌≡◌, refl, arith, ◌==◌, Bool, true, false, Bool-cases, inl, inr, List, [], ◌∷◌,
  ◌++◌, length, u32,
}
use mathlib.Core.Path.{subst}
use aphrodite.Spin.{
  Spinlock, Waiter, Step, Step.takes, Step.spins, Step.enters, Step.releases, Reached,
  Reached.steps, take_ticket, is_served, spin_release, tickets, Runs, Runs.stays, Runs.goes,
  exchange_back, tried, TryAcquire, TryAcquire.gives_up, TryAcquire.exchanges,
}
use aphrodite.Spin.Exclusion.{Queue, Reached-Orderly}

Runs-Reached :
    (n : ℕ) (lock lock' : Spinlock) (ws ws' : List Waiter)
    → Runs n lock ws lock' ws'
    → Reached lock ws
    → Reached lock' ws'
Runs-Reached _ _ _ _ _ (stays lock ws) r = r
Runs-Reached _ _ _ _ _ (goes n lock lock1 lock2 ws ws1 ws2 before s) r =
    steps lock1 lock2 ws1 ws2 (Runs-Reached n lock lock1 ws ws1 before r) s

-- The next ticket counts the tickets taken.
Step-back :
    (lock lock' : Spinlock) (ws ws' : List Waiter) (s : Step lock ws lock' ws')
    → lock.back < 2 ^ 32
    → lock'.back ≡ u32 (lock.back + tickets lock lock' ws ws' s)
unfolding take_ticket spin_release tickets
Step-back _ _ _ _ (takes lock ws few) h = refl
Step-back _ _ _ _ (spins lock before after ticket e) h = omega (arith, h)
Step-back _ _ _ _ (enters lock before after ticket e) h = omega (arith, h)
Step-back _ _ _ _ (releases lock before after ticket) h = omega (arith, h)

Runs-back :
    (n : ℕ) (lock lock' : Spinlock) (ws ws' : List Waiter)
    → Runs n lock ws lock' ws'
    → lock.back < 2 ^ 32
    → lock'.back ≡ u32 (lock.back + n)
Runs-back _ _ _ _ _ (stays lock ws) h = omega (arith, h)
Runs-back _ _ _ _ _ (goes n lock lock1 lock2 ws ws1 ws2 before s) h =
    let e = Runs-back n lock lock1 ws ws1 before h in
    omega (arith, e, Step-back lock1 lock2 ws1 ws2 s (omega (arith, e)))

-- The number of waiters is the distance of the tickets.
Queue-length :
    (front : ℕ) (ws : List Waiter) (back : ℕ)
    → front < 2 ^ 32
    → Queue front ws back
    → back ≡ u32 (front + length ws)
unfolding Queue
Queue-length front [] back h e = omega (arith, h, e)
Queue-length front ((k, i) ∷ ws) back h (e, o, q) =
    omega (arith, Queue-length (u32 (front + 1)) ws back (omega arith) q)

-- With no waiters and no ticket taken there are none afterwards.
no_waiters :
    (before after : List Waiter) (w : Waiter) → ◌≡◌ {A = List Waiter} (before ++ (w ∷ after)) [] → ⊥
no_waiters [] after w e = cc
no_waiters (x ∷ before) after w e = cc

Step-empty :
    (lock lock' : Spinlock) (ws ws' : List Waiter) (s : Step lock ws lock' ws')
    → ws ≡ []
    → tickets lock lock' ws ws' s ≡ 0
    → ws' ≡ []
unfolding tickets
Step-empty _ _ _ _ (takes lock ws few) e t = absurd (omega (arith, t))
Step-empty _ _ _ _ (spins lock before after ticket h) e t = e
Step-empty _ _ _ _ (enters lock before after ticket h) e t =
    absurd (no_waiters before after (ticket, false) e)
Step-empty _ _ _ _ (releases lock before after ticket) e t =
    absurd (no_waiters before after (ticket, true) e)

Runs-empty :
    (n : ℕ) (lock lock' : Spinlock) (ws ws' : List Waiter)
    → Runs n lock ws lock' ws'
    → n ≡ 0
    → ws ≡ []
    → ws' ≡ []
Runs-empty _ _ _ _ _ (stays lock ws) z e = e
Runs-empty _ _ _ _ _ (goes n lock lock1 lock2 ws ws1 ws2 before s) z e =
    Step-empty lock1 lock2 ws1 ws2 s (Runs-empty n lock lock1 ws ws1 before (omega (arith, z)) e)
      (omega (arith, z))

length-empty : (ws : List Waiter) → length ws ≡ 0 → ws ≡ []
length-empty [] e = refl
length-empty (w ∷ ws) e = absurd (omega (arith, e))

-- A lock without waiters is taken by two steps of one thread.
take_free :
    (lock : Spinlock) (ticket : ℕ)
    → lock.back ≡ ticket
    → Reached lock []
    → Reached (record lock { back = u32 (ticket + 1) }) ((ticket, true) ∷ [])
unfolding take_ticket is_served Queue
take_free lock ticket e r =
    let o = Reached-Orderly lock [] r in
    let equal : lock.front ≡ lock.back = o.queue in
    let here : (lock.front == lock.back) ≡ true = ground (arith, equal) in
    let taken = record lock { back = u32 (lock.back + 1) } in
    let waits : Reached taken ((lock.back, false) ∷ []) =
      steps lock taken [] ((lock.back, false) ∷ []) r (takes lock [] (omega arith)) in
    let inside : Reached taken ((lock.back, true) ∷ []) =
      steps taken taken ((lock.back, false) ∷ []) ((lock.back, true) ∷ []) waits
        (enters taken [] [] lock.back here) in
    subst (λ t. Reached (record lock { back = u32 (t + 1) }) ((t, true) ∷ [])) e inside

-- The exchange only succeeds on a lock that no thread has or waits for.
nobody :
    (n k : ℕ) (lock lock1 lock2 : Spinlock) (ws ws1 ws2 : List Waiter)
    → Reached lock ws
    → Runs n lock ws lock1 ws1
    → is_served lock1 lock.back ≡ true
    → Runs k lock1 ws1 lock2 ws2
    → n + k < 2 ^ 32
    → lock2.back ≡ lock.back
    → ws2 ≡ []
unfolding is_served
nobody n k lock lock1 lock2 ws ws1 ws2 r first served second few same =
    let o = Reached-Orderly lock ws r in
    let o1 = Reached-Orderly lock1 ws1 (Runs-Reached n lock lock1 ws ws1 first r) in
    let back = Queue-length lock.front ws lock.back o.small o.queue in
    let back1 = Queue-length lock1.front ws1 lock1.back o1.small o1.queue in
    let moved = Runs-back n lock lock1 ws ws1 first (omega (arith, back)) in
    let moved2 = Runs-back k lock1 lock2 ws1 ws2 second (omega (arith, back1)) in
    let front : lock1.front ≡ lock.back = ground (arith, served) in
    let none_taken : n + k ≡ 0 = omega (arith, moved, moved2, same, few, back) in
    let none_there : length ws1 ≡ 0 =
      omega (arith, back1, moved, front, none_taken, back, o1.few) in
    Runs-empty k lock1 lock2 ws1 ws2 second (omega (arith, none_taken))
      (length-empty ws1 none_there)

-- Whatever other threads do between the loads and the exchange of `spin_try_acquire`, as long as they take fewer than
-- 2^32 tickets meanwhile, it leads to a state that the steps of `spin_acquire` reach, so that the lock still
-- excludes; and if it succeeds then its thread has the lock and no thread waits.
pub TryAcquire-Reached :
    (lock lock' : Spinlock) (ws ws' : List Waiter) (b : Bool)
    → Reached lock ws
    → TryAcquire lock ws b lock' ws'
    → Reached lock' ws' × (b ≡ true → ws' ≡ (lock.back, true) ∷ [])
unfolding exchange_back tried
TryAcquire-Reached _ _ _ _ _ r (gives_up n lock lock' ws ws' others e) =
    (Runs-Reached n lock lock' ws ws' others r, λ h. cc)
TryAcquire-Reached _ _ _ _ _ r (exchanges n k lock lock1 lock2 ws ws1 ws2 first served second few) =
    let r2 = Runs-Reached k lock1 lock2 ws1 ws2 second (Runs-Reached n lock lock1 ws ws1 first r) in
    elim (Bool-cases (lock2.back == lock.back)) [
      | inr lost ↦ rw lost (r2, λ h. cc)
      | inl won ↦
          let same : lock2.back ≡ lock.back = ground (arith, won) in
          let empty = nobody n k lock lock1 lock2 ws ws1 ws2 r first served second few same in
          rw (won, empty)
            (take_free lock2 lock.back same (subst (Reached lock2) empty r2), λ h. refl)
    ]
