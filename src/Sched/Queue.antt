-- ===== src/Sched/Queue.antt =====
-- The run queue of kernel/src/sched/basic/sched.c as a list in which each thread is at most once.
use aphrodite.Base.{
  ℕ, ◌≡◌, ◌≢◌, refl, arith, ◌==◌, if◌then◌else◌, true, false, none, some, List, [], ◌∷◌, ◌++◌,
}
use aphrodite.Base.Sorted.{has, remove_key}
use aphrodite.Sched.{next_of}

unfoldable pub Once : List ℕ → Type 0
Once [] = Unit
Once (x ∷ xs) = (has x xs ≡ false) × Once xs

pub has-append :
    (t x : ℕ) (xs : List ℕ) → has t (xs ++ (x ∷ [])) ≡ (if x == t then true else has t xs)
unfolding has
has-append t x [] = refl
has-append t x (y ∷ ys) = ground (arith, has-append t x ys)

pub has-remove :
    (t x : ℕ) (xs : List ℕ)
    → Once xs
    → has t (remove_key x xs) ≡ (if x == t then false else has t xs)
unfolding has remove_key Once
has-remove t x [] o = ground arith
has-remove t x (y ∷ ys) (out, o) = ground (arith, has-remove t x ys o)

pub append-Once : (x : ℕ) (xs : List ℕ) → has x xs ≡ false → Once xs → Once (xs ++ (x ∷ []))
unfolding has Once
append-Once x [] out o = (refl, tt)
append-Once x (y ∷ ys) out (out', o) = ground (arith, append-Once x ys, has-append y x ys)

pub remove-Once : (x : ℕ) (xs : List ℕ) → Once xs → Once (remove_key x xs)
unfolding has Once remove_key
remove-Once x [] o = tt
remove-Once x (y ∷ ys) (out, o) = ground (arith, remove-Once x ys o, has-remove y x ys o)

-- The choice of `get_next_thread` is another thread of the queue.
pub next_of-some :
    (prev next : ℕ) (xs : List ℕ)
    → next_of prev xs ≡ some next
    → (has next xs ≡ true) × (next ≢ prev)
unfolding next_of has
next_of-some prev next [] e = cc
next_of-some prev next (x ∷ xs) e = ground (arith, next_of-some prev next xs)

-- With no choice the queue has no other thread.
pub next_of-none : (prev t : ℕ) (xs : List ℕ) → next_of prev xs ≡ none → t ≢ prev → has t xs ≡ false
unfolding next_of has
next_of-none prev t [] e ne = refl
next_of-none prev t (x ∷ xs) e ne = ground (arith, next_of-none prev t xs)
