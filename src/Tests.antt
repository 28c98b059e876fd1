-- ===== src/Tests.antt =====
-- Runs of the model at concrete inputs, and each theorem of the results at an input that meets its
-- conditions.
mod Ranges
mod Maps
mod Slabs
mod Buffers
mod Locks
mod Threads
mod Trees
mod Blocks
mod Arrays
mod Owners
mod Waits
mod Pages
mod Strings
mod Memory
