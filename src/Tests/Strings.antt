-- ===== src/Tests/Strings.antt =====
-- Runs of lib/adt/mutable_buffer.c, lib/adt/string_view.c and kernel/src/sys/stdlib.c.
use aphrodite.Base.{ℕ, ◌≡◌, refl, arith, [], ◌∷◌, take, drop, ok}
use aphrodite.Strings.{MutableBuffer, mbuffer_append_data}
use aphrodite.Strings.Fill.{IsOpen, Filled, mbuffer_append_data-Filled}
use aphrodite.Strings.Views.{ℤ.pos, StringView, sv_equals, sv_has_prefix, sv_has_suffix, strcmp}
use aphrodite.Strings.Compare.{Decides, chars, sv_tests-Decides, strcmp-same_length}

-- Of four bytes one is used.
abbrev nearly_empty : MutableBuffer
nearly_empty = record { begin = 72 ∷ 0 ∷ 0 ∷ 0 ∷ []; index = 1 }

nearly_empty-IsOpen : IsOpen nearly_empty
nearly_empty-IsOpen = record { used = omega arith; small = omega arith }

mbuffer_append_data-Filled_example :
    (r : ℕ × MutableBuffer) × (mbuffer_append_data nearly_empty (73 ∷ 74 ∷ 75 ∷ 76 ∷ []) ≡ ok r)
    × Filled nearly_empty (73 ∷ 74 ∷ 75 ∷ 76 ∷ []) r
mbuffer_append_data-Filled_example =
    mbuffer_append_data-Filled nearly_empty (73 ∷ 74 ∷ 75 ∷ 76 ∷ []) nearly_empty-IsOpen

abbrev whole : StringView
whole = record { begin = 97 ∷ 98 ∷ 99 ∷ 0 ∷ []; length = 3 }

abbrev end : StringView
end = record { begin = 98 ∷ 99 ∷ 0 ∷ []; length = 2 }

sv_tests-Decides_example :
    Decides (chars whole ≡ chars end) (sv_equals whole end)
    × Decides (take 2 (chars whole) ≡ chars end) (sv_has_prefix whole end)
    × Decides (drop 1 (chars whole) ≡ chars end) (sv_has_suffix whole end)
sv_tests-Decides_example = sv_tests-Decides whole end (omega arith) (omega arith)

strcmp-same_length_example : strcmp (97 ∷ 98 ∷ []) (97 ∷ 99 ∷ []) ≡ pos 0
strcmp-same_length_example = strcmp-same_length (97 ∷ 98 ∷ []) (97 ∷ 99 ∷ []) refl
