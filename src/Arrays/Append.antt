-- ===== src/Arrays/Append.antt =====
-- Appending to an array of lib/adt/array.c, against the list of its objects.
use aphrodite.Base.{List}
