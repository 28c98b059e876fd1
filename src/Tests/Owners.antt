-- ===== src/Tests/Owners.antt =====
-- Runs of lib/refcount.c.
use aphrodite.Base.{◌≡◌, arith, ◌==◌, if◌then◌else◌, [], ◌∷◌, List, ok}
use aphrodite.Refs.{refcount_init}
use aphrodite.Refs.Owners.{
  Use, Use.up, Use.down, AreOwned, run_uses, owners_after, run_uses-released,
}

-- Two owners, of whom both give up.
abbrev uses : List Use
uses = up ∷ down ∷ down ∷ []

uses-AreOwned : AreOwned 1 uses
unfolding AreOwned
uses-AreOwned = ground arith

run_uses-released_example :
    run_uses refcount_init uses
    ≡ ok (owners_after 1 uses, (if owners_after 1 uses == 0 then 1 else 0))
run_uses-released_example = run_uses-released uses uses-AreOwned
