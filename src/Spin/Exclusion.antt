-- ===== src/Spin/Exclusion.antt =====
-- The lock of kernel/src/cpu/spinlock.c excludes, and serves its tickets in order.
use aphrodite.Base.{
  ℕ, ◌+◌, ◌^◌, ◌<◌, ◌≤◌, ◌≡◌, refl, ap, sym, arith, if◌then◌else◌, Bool, true, false, List, [], ◌∷◌,
  ◌++◌, length, length-append, u32,
}
use aphrodite.Spin.{
  Spinlock, Waiter, Step, Step.takes, Step.spins, Step.enters, Step.releases, Reached,
  Reached.starts, Reached.steps, take_ticket, is_served, spin_release,
}

-- No thread of a list has the lock.
unfoldable pub Outside : List Waiter → Type 0
Outside [] = Unit
Outside ((_, inside) ∷ ws) = (inside ≡ false) × Outside ws

-- The tickets run from the front to the back, and only the oldest may have the lock.
unfoldable pub Queue : ℕ → List Waiter → ℕ → Type 0
Queue front [] back = front ≡ back
Queue front ((ticket, _) ∷ ws) back =
    (ticket ≡ front) × Outside ws × Queue (u32 (front + 1)) ws back

-- How many threads have the lock.
unfoldable pub holders : List Waiter → ℕ
holders [] = 0
holders ((_, inside) ∷ ws) = (if inside then 1 else 0) + holders ws

Outside-holders : (ws : List Waiter) → Outside ws → holders ws ≡ 0
unfolding Outside holders
Outside-holders [] o = refl
Outside-holders ((k, i) ∷ ws) (e, o) = rw e (omega (arith, Outside-holders ws o))

Outside-append : (ws : List Waiter) (k : ℕ) → Outside ws → Outside (ws ++ ((k, false) ∷ []))
unfolding Outside
Outside-append [] k o = (refl, tt)
Outside-append ((j, i) ∷ ws) k (e, o) = (e, Outside-append ws k o)

Queue-append :
    (front : ℕ) (ws : List Waiter) (back : ℕ)
    → Queue front ws back
    → Queue front (ws ++ ((back, false) ∷ [])) (u32 (back + 1))
unfolding Queue Outside
Queue-append front [] back e = (sym e, tt, ap (λ b. u32 (b + 1)) e)
Queue-append front ((k, i) ∷ ws) back (e, o, q) =
    (e, Outside-append ws back o, Queue-append (u32 (front + 1)) ws back q)

-- The ticket of a waiter tells how many are before it.
ticket_at :
    (front : ℕ) (before after : List Waiter) (ticket back : ℕ) (inside : Bool)
    → front < 2 ^ 32
    → Queue front (before ++ ((ticket, inside) ∷ after)) back
    → ticket ≡ u32 (front + length before)
unfolding Queue
ticket_at front [] after ticket back inside small (e, o, q) = omega arith
ticket_at front ((k, i) ∷ before) after ticket back inside small (e, o, q) =
    omega (arith, ticket_at (u32 (front + 1)) before after ticket back inside (omega arith) q)

Outside-middle :
    (before after : List Waiter) (ticket : ℕ) (inside : Bool)
    → Outside (before ++ ((ticket, inside) ∷ after))
    → inside ≡ false
unfolding Outside
Outside-middle [] after ticket inside (e, o) = e
Outside-middle ((k, i) ∷ before) after ticket inside (e, o) =
    Outside-middle before after ticket inside o

-- What every reached state has.
pub record Orderly (lock : Spinlock) (ws : List Waiter) : Type 0 where
  pub queue : Queue lock.front ws lock.back
  pub small : lock.front < 2 ^ 32
  pub few : length ws < 2 ^ 32

enters-Orderly :
    (lock : Spinlock) (before after : List Waiter) (ticket : ℕ)
    → is_served lock ticket ≡ true
    → Orderly lock (before ++ ((ticket, false) ∷ after))
    → Orderly lock (before ++ ((ticket, true) ∷ after))
unfolding Queue is_served
enters-Orderly lock [] after ticket served r = record {
  queue = (r.queue.0, r.queue.1, r.queue.2);
  small = r.small;
  few = r.few;
}
enters-Orderly lock ((k, i) ∷ before) after ticket served r =
    let small = r.small in
    let few = r.few in
    let at = ticket_at lock.front ((k, i) ∷ before) after ticket lock.back false r.small r.queue in
    let long = length-append before ((ticket, false) ∷ after) in absurd (ground arith)

releases-Orderly :
    (lock : Spinlock) (before after : List Waiter) (ticket : ℕ)
    → Orderly lock (before ++ ((ticket, true) ∷ after))
    → Orderly (spin_release lock) (before ++ after)
unfolding Queue spin_release
releases-Orderly lock [] after ticket r =
    let few = r.few in record { queue = r.queue.2; small = omega arith; few = omega arith }
releases-Orderly lock ((k, i) ∷ before) after ticket r =
    absurd (true_not_false (Outside-middle before after ticket true (r.queue.1)))
  where
    true_not_false : true ≡ false → ⊥
    true_not_false e = cc

Step-Orderly :
    (lock lock' : Spinlock) (ws ws' : List Waiter)
    → Step lock ws lock' ws'
    → Orderly lock ws
    → Orderly lock' ws'
unfolding take_ticket
Step-Orderly _ _ _ _ (takes lock ws few) r =
    let small = r.small in
    record {
      queue = Queue-append lock.front ws lock.back r.queue;
      small = small;
      few = omega (arith, length-append ws ((lock.back, false) ∷ []));
    }
Step-Orderly _ _ _ _ (spins lock before after ticket e) r = r
Step-Orderly _ _ _ _ (enters lock before after ticket e) r =
    enters-Orderly lock before after ticket e r
Step-Orderly _ _ _ _ (releases lock before after ticket) r =
    releases-Orderly lock before after ticket r

pub Reached-Orderly : (lock : Spinlock) (ws : List Waiter) → Reached lock ws → Orderly lock ws
unfolding Queue
Reached-Orderly _ _ (starts lock e small) = record { queue = e; small = small; few = omega arith }
Reached-Orderly _ _ (steps lock lock' ws ws' r s) =
    Step-Orderly lock lock' ws ws' s (Reached-Orderly lock ws r)

Queue-holders : (front : ℕ) (ws : List Waiter) (back : ℕ) → Queue front ws back → holders ws ≤ 1
unfolding Queue holders
Queue-holders front [] back q = omega arith
Queue-holders front ((k, false) ∷ ws) back (e, o, q) = omega (arith, Outside-holders ws o)
Queue-holders front ((k, true) ∷ ws) back (e, o, q) = omega (arith, Outside-holders ws o)

-- Mutual exclusion: whatever way the steps of fewer than 2^32 threads interleave, at most one thread
-- has the lock, also when the tickets wrap around.
pub mutual_exclusion : (lock : Spinlock) (ws : List Waiter) → Reached lock ws → holders ws ≤ 1
mutual_exclusion lock ws r = Queue-holders lock.front ws lock.back (Reached-Orderly lock ws r).queue

-- First come, first served: a waiter whose test succeeds is the one with the oldest ticket.
pub served_in_order :
    (lock : Spinlock) (before after : List Waiter) (ticket : ℕ) (inside : Bool)
    → Reached lock (before ++ ((ticket, inside) ∷ after))
    → is_served lock ticket ≡ true
    → before ≡ []
unfolding is_served
served_in_order lock [] after ticket inside r e = refl
served_in_order lock ((k, i) ∷ before) after ticket inside r e =
    let o = Reached-Orderly lock ((k, i) ∷ (before ++ ((ticket, inside) ∷ after))) r in
    let small = o.small in
    let few = o.few in
    let at = ticket_at lock.front ((k, i) ∷ before) after ticket lock.back inside o.small o.queue in
    let long = length-append before ((ticket, inside) ∷ after) in absurd (ground arith)

-- In every reached state with waiters the test of the oldest ticket succeeds, so its thread has
-- the lock or gets it at its next look.
pub oldest_is_served :
    (lock : Spinlock) (ticket : ℕ) (inside : Bool) (after : List Waiter)
    → Reached lock ((ticket, inside) ∷ after)
    → is_served lock ticket ≡ true
unfolding is_served Queue
oldest_is_served lock ticket inside after r =
    let e = (Reached-Orderly lock ((ticket, inside) ∷ after) r).queue.0 in ground arith
