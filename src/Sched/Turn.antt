-- ===== src/Sched/Turn.antt =====
-- The order of the run queue of kernel/src/sched/basic/sched.c.
use aphrodite.Base.{
  ℕ, ◌≡◌, refl, sym, arith, ◌==◌, true, false, some, List, [], ◌∷◌, ◌++◌, length, ◌∙◌, Bool-cases,
  inl, inr,
}
use aphrodite.Base.Sorted.{has, remove_key}
use mathlib.Core.Path.{subst}
use mathlib.Core.List.{append_assoc, append-nil}
use aphrodite.Sched.{
  Sched, put, thread_runnable, sched_enqueue_thread_for_use, sched_dequeue_thread_for_use, next_of,
  take_next, get_next_thread, switch_to, run_next,
}
use aphrodite.Sched.Kept.{Keeps, current-unqueued, run_next-Keeps}

-- The switches of these processors, one after the other.
unfoldable pub run_all : Sched → List ℕ → Sched
run_all s [] = s
run_all s (processor ∷ processors) = run_all (run_next s processor) processors

-- A switch takes the head of the queue, and only adds to the end.
head_runs :
    (s : Sched) (c x : ℕ) (xs : List ℕ)
    → Keeps s
    → s.run_queue ≡ x ∷ xs
    → ((run_next s c).current c ≡ x) × (back : List ℕ) × ((run_next s c).run_queue ≡ xs ++ back)
unfolding run_next get_next_thread take_next switch_to next_of has remove_key
    sched_dequeue_thread_for_use sched_enqueue_thread_for_use put thread_runnable
head_runs s c x xs k e =
    let out : has (s.current c) (x ∷ xs) ≡ false =
      subst (λ q. has (s.current c) q ≡ false) e (current-unqueued s c k) in
    let other : (x == s.current c) ≡ false = ground arith in
    let other' : (s.current c == x) ≡ false = ground arith in
    let self : (x == x) ≡ true = ground arith in
    let first : next_of (s.current c) s.run_queue ≡ some x =
      subst (λ q. next_of (s.current c) q ≡ some x) (sym e) (rw other refl) in
    elim (Bool-cases (s.runnable (s.current c))) [
      | inl r ↦
          let queue : remove_key x (s.run_queue ++ (s.current c ∷ [])) ≡ xs ++ (s.current c ∷ []) =
            subst (λ q. remove_key x (q ++ (s.current c ∷ [])) ≡ xs ++ (s.current c ∷ [])) (sym e)
              (rw self refl) in
          rw (first, r, other') (ground arith, s.current c ∷ [], queue)
      | inr r ↦
          let queue : remove_key x s.run_queue ≡ xs ++ [] =
            subst (λ q. remove_key x q ≡ xs ++ []) (sym e) (rw self (sym (append-nil xs))) in
          rw (first, r, other') (ground arith, [], queue)
    ]

-- A thread with some threads before it in the queue is the current thread of the last of the
-- processors that switch, if they switch once for each of these threads and once more, in any order
-- and whatever threads are runnable, from a state in which no thread is lost.
pub run_all-takes_turn :
    (s : Sched) (before after : List ℕ) (thread processor : ℕ) (processors : List ℕ)
    → Keeps s
    → s.run_queue ≡ before ++ (thread ∷ after)
    → length processors ≡ length before
    → (run_all s (processors ++ (processor ∷ []))).current processor ≡ thread
unfolding run_all
run_all-takes_turn s [] after thread processor [] k e l = (head_runs s processor thread after k e).0
run_all-takes_turn s [] after thread processor (p ∷ ps) k e l = absurd (omega (arith, l))
run_all-takes_turn s (x ∷ before) after thread processor [] k e l = absurd (omega (arith, l))
run_all-takes_turn s (x ∷ before) after thread processor (p ∷ ps) k e l =
    let (_, back, queue) = head_runs s p x (before ++ (thread ∷ after)) k e in
    run_all-takes_turn (run_next s p) before (after ++ back) thread processor ps
      (run_next-Keeps s p k) (queue ∙ append_assoc before (thread ∷ after) back) (omega (arith, l))
