-- ===== src/Structured.antt =====
-- The pointer analysis on tts operations: lib/AnalysisStructured/PtrAnalysis.cpp.
pub mod State
pub mod Sum
pub mod Product
pub mod Visit
pub mod Operand
pub mod Rewrite
pub mod Blocks
pub mod Ranks
pub mod Limits
pub mod Plain
