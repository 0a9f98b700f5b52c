-- ===== src/Ptr.antt =====
-- lib/Analysis/PtrAnalysis.cpp with its header: the decoding of pointer arithmetic into an offset, a
-- stride and a size for each axis, and the memref casts that stand for the pointers.
pub mod State
pub mod Casts
pub mod Wraparound
pub mod Visit
pub mod Operand
pub mod Rewrite
pub mod Meaning
pub mod Near
pub mod Sums
pub mod Products
pub mod States
pub mod Scaling
pub mod Axes
pub mod Supported
pub mod Operands
pub mod Factors
pub mod Tensors
pub mod Shapes
pub mod Dispatch
pub mod Binary
pub mod Sound
pub mod Limits
