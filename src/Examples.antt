-- ===== src/Examples.antt =====
-- Runs at concrete inputs: of the theorems, and tests of the definitions.
mod Sizes
mod Masks
mod Pointers
mod Uses
mod Subviews
mod Scans
mod Structured
mod Blocks
mod Collapses
