-- ===== src/Events/Raised.antt =====
-- An event of kernel/src/sched/event.c that is raised before a thread waits for it.
use aphrodite.Base.{ℕ, ◌≡◌, ◌≢◌, List, [], ◌∷◌}
use aphrodite.Events.{Event, Awaited.returns}

-- None of these events is pending, and none is this one.
unfoldable pub AllQuiet : (ℕ → Event) → ℕ → List ℕ → Type 0
AllQuiet events e [] = Unit
AllQuiet events e (x ∷ xs) = (x ≢ e) × ((events x).pending ≡ 0) × AllQuiet events e xs
