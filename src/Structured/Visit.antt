-- ===== src/Structured/Visit.antt =====
-- lib/AnalysisStructured/PtrAnalysis.cpp: the visitors of operands that decide how states combine,
-- one function for each. A visitor of an operand's operands takes their visits as arguments.
mod Arithmetic
mod Tensors
unfoldable pub use Arithmetic.*
unfoldable pub use Tensors.*
