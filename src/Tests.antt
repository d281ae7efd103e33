-- ===== src/Tests.antt =====
-- Runs of the definitions at single inputs, and the theorems at inputs that meet their hypotheses.
mod Texts
mod Flags
mod Tables
mod Buffers
mod Worlds
mod Affects
mod Runs
mod Sessions
mod Ticks
mod Areas
mod Layout
mod Commands
