-- ===== src/Use.antt =====
-- lib/Analysis/UseAnalysis.cpp with its header: which values are used as data, as metadata (addresses,
-- masks), or as both.
pub mod Lattice
pub mod Transfer
pub mod Tagging
pub mod Order
pub mod Sound
pub mod Tags
