-- ===== src/Mask.antt =====
-- lib/Analysis/MaskAnalysis.cpp: the mask analysis.
pub mod State
pub mod Parse
pub mod Coordinates
pub mod Meaning
pub mod Supported
pub mod Uniforms
pub mod Ranges
pub mod Clamping
pub mod Bounded
pub mod Meets
pub mod Boxes
pub mod Sound
pub mod Limits
pub mod Subviews
