-- ===== src/Tests/Arrays.antt =====
-- Runs of lib/adt/array.c.
use aphrodite.Base.{
  ℕ, ◌≡◌, ◌↔◌, refl, arith, Bool, true, false, if◌then◌else◌, none, some, List, [], ◌∷◌, ◌++◌, take,
  drop, ok,
}
use aphrodite.Ranges.{Range}
use aphrodite.Buffer.{Blocks}
use aphrodite.Buffer.Bytes.{contents}
use aphrodite.Buffer.Append.{IsRefused}
use aphrodite.Arrays.{Array, array_append, array_take_range}
use aphrodite.Arrays.Items.{join, AllSized, Holds}
use aphrodite.Arrays.Take.{array_take_range-Holds}

-- Three objects of two bytes, in a block of seven.
abbrev pairs : Array
pairs = record {
  gbuffer = record {
    begin = some (1 ∷ 2 ∷ 3 ∷ 4 ∷ 5 ∷ 6 ∷ 0 ∷ []);
    index = 6;
    capacity = 7;
    is_alloc = true;
  };
  object_size = 2;
}

abbrev three : List (List ℕ)
three = (1 ∷ 2 ∷ []) ∷ (3 ∷ 4 ∷ []) ∷ (5 ∷ 6 ∷ []) ∷ []

pairs-Holds : Holds pairs three
unfolding contents join AllSized
pairs-Holds = record {
  usable = record { sized = refl; used = omega arith; small = omega arith };
  some_size = omega arith;
  sized = (refl, (refl, (refl, tt)));
  bytes = refl;
}

abbrev no_blocks : Blocks
no_blocks = none ∷ []

abbrev Appended : Type 0
Appended =
    (r : Bool × Array × Blocks) × (array_append pairs (7 ∷ 8 ∷ []) no_blocks ≡ ok r)
    × Holds (r.1) (if r.0 then three ++ ((7 ∷ 8 ∷ []) ∷ []) else three)
    × ((r.0 ≡ false) ↔ IsRefused pairs.gbuffer 2 no_blocks)

abbrev last_two : Range
last_two = record { front = 1; size = 2 }

abbrev Taken : Type 0
Taken =
    (array' : Array) × (array_take_range pairs last_two ≡ ok (join (take 2 (drop 1 three)), array'))
    × Holds array' (take 1 three ++ drop 3 three)

array_take_range-Holds_example : Taken
array_take_range-Holds_example =
    array_take_range-Holds pairs three last_two pairs-Holds (omega arith) (omega arith)
