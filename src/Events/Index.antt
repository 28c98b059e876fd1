-- ===== src/Events/Index.antt =====
-- The index that a wait of kernel/src/sched/event.c for several events returns.
use aphrodite.Base.{ℕ, Bool, true, List, [], ◌∷◌}
use aphrodite.Events.{Awaited.blocks}

-- The memory for one append to each of these events.
unfoldable pub granted : List ℕ → List Bool
granted [] = []
granted (x ∷ xs) = true ∷ granted xs
