-- ===== src/Strings/Views.antt =====
-- lib/adt/string_view.c and `strcmp` and `strncmp` of kernel/src/sys/stdlib.c: the comparison of strings.
--
-- A string in memory is the list of the bytes that can be read from its pointer on. Characters are below 128, so that
-- the sign of `char` does not matter. A panic is a failed assertion or a read beyond what can be read.
use aphrodite.Base.{
  ℕ, zero, suc, ◌-◌, ltb, leb, ◌==◌, if◌then◌else◌, Bool, true, false, List, [], ◌∷◌, drop, Outcome,
  ok, panic, ◌>>=◌,
}

-- An `int`.
pub data ℤ : Type 0 where
  pos : ℕ → ℤ
  negsuc : ℕ → ℤ

-- `ch - jch`
unfoldable pub sub_char : ℕ → ℕ → ℤ
sub_char ch jch = if leb jch ch then pos (ch - jch) else negsuc (jch - ch - 1)

unfoldable pub is_zero : ℤ → Bool
is_zero (pos n) = n == 0
is_zero (negsuc n) = false

-- The strings up to their terminators, of which there is none before.
unfoldable pub strcmp : List ℕ → List ℕ → ℤ
strcmp [] [] = sub_char 0 0
strcmp [] (jch ∷ str2) = sub_char 0 jch
strcmp (ch ∷ str1) [] = sub_char ch 0
strcmp (ch ∷ str1) (jch ∷ str2) = strcmp str1 str2

-- The loop of `strncmp` with the characters read last and what can be read after them.
unfoldable pub compare_from : ℕ → ℕ → ℕ → List ℕ → List ℕ → Outcome ℤ
compare_from zero ch jch iter jter = ok (pos 0)
compare_from (suc left) ch jch [] jter = if ch == jch then panic else ok (sub_char ch jch)
compare_from (suc left) ch jch (next ∷ iter) [] = if ch == jch then panic else ok (sub_char ch jch)
compare_from (suc left) ch jch (next ∷ iter) (jnext ∷ jter) =
    let rest = compare_from left next jnext iter jter in
    if ch == jch then rest else ok (sub_char ch jch)

unfoldable pub strncmp : List ℕ → List ℕ → ℕ → Outcome ℤ
strncmp [] str2 length = panic
strncmp (ch ∷ str1) [] length = panic
strncmp (ch ∷ str1) (jch ∷ str2) length = compare_from length ch jch str1 str2

pub record StringView : Type 0 where
  pub begin : List ℕ
  pub length : ℕ

-- `*begin`
unfoldable pub first_char : List ℕ → Outcome ℕ
first_char [] = panic
first_char (ch ∷ rest) = ok ch

unfoldable pub sv_compare : StringView → StringView → Outcome ℤ
sv_compare sv sv2 =
    if ltb sv2.length sv.length
    then if sv2.length == 0
      then first_char sv.begin >>= (λ ch. ok (pos ch))
      else strncmp sv.begin sv2.begin sv2.length
    else if ltb sv.length sv2.length
    then if sv.length == 0
      then first_char sv2.begin >>= (λ ch. ok (sub_char 0 ch))
      else strncmp sv.begin sv2.begin sv.length
    else if sv.length == 0
    then ok (pos 0)
    else strncmp sv.begin sv2.begin sv.length

-- `strncmp(...) == 0`
unfoldable pub same_chars : List ℕ → List ℕ → ℕ → Outcome Bool
same_chars str1 str2 length = strncmp str1 str2 length >>= (λ d. ok (is_zero d))

unfoldable pub sv_equals : StringView → StringView → Outcome Bool
sv_equals sv sv2 =
    if sv.length == sv2.length
    then if sv.length == 0 then ok true else same_chars sv.begin sv2.begin sv.length
    else ok false

unfoldable pub sv_has_prefix : StringView → StringView → Outcome Bool
sv_has_prefix sv prefix =
    if ltb sv.length prefix.length then ok false else same_chars sv.begin prefix.begin prefix.length

unfoldable pub sv_has_suffix : StringView → StringView → Outcome Bool
sv_has_suffix sv suffix =
    if ltb sv.length suffix.length
    then ok false
    else same_chars (drop (sv.length - suffix.length) sv.begin) suffix.begin suffix.length
