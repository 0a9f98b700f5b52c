-- ===== src/Scan.antt =====
-- The conversion of tt.scan to operations on vectors:
-- lib/Conversion/TritonToLinalgExperimental/ConvertScanOpPass.cpp.
pub mod Region
pub mod Meaning
pub mod Accumulate
pub mod Cloning
pub mod Combining
pub mod Line
pub mod Prefix
pub mod Subvectors
pub mod Leading
pub mod Dispatch
pub mod Enumerate
pub mod Sound
pub mod Value
pub mod Whole
