-- ===== src/Lib.antt =====
-- The analyses of spine-triton that turn Triton's index and mask arithmetic into structured memory
-- accesses, as executable definitions with theorems about what they compute.
--
-- Ir models the MLIR program that the code reads and builds. A `Value` carries the operation that
-- defines it, so `getDefiningOp` is a match, and an identity, so that `==` on values is a comparison of
-- numbers. The builder is the identity of the next operation; a call ends with a result (`ok`), with
-- `failure()` (`failed`), or with an assertion, `llvm_unreachable`, a null value or an access out of
-- bounds (`fault`). MLIR itself is not part of the repository: what its operations compute is the
-- parameter `Interp`, a record of the documented laws of arith and tt operations, and Ir/Run shows a
-- run that has them. Diagnostics, locations and insertion points are not modelled.
--
-- Ofr is lib/Analysis/OpFoldResultUtils.cpp with its header: Basic holds the accessors and the casts
-- (getIntAttr, hasConstZero, ofrToIndexValue, indexTypeCast, expandOFRIndex), Arith the five
-- arithmetic functions (addOFRs, subOFRs, mulOFRs, minOFRs, maxOFRs), Compare compareOFRs, and Same the
-- comparison of sizes (getConstantIntLike, sameOFR). Meaning, Folding, Product, Comparing and Sameness
-- are about what they compute. An integer of the program is an integer with the wrap-around of its
-- type written out (Prelude/Wrap); int64_t sums of constants wrap as the 64-bit attribute does. The
-- listener that ensureCmpListener installs only checks operand types and is not modelled.
--
-- Mask is lib/Analysis/MaskAnalysis.cpp with its header: State the state and its sums and minimums,
-- Parse the parsers, one function for each. Coordinates, Meaning and Supported say what a mask is and
-- which masks are supported; Uniforms, Ranges, Clamping, Bounded, Meets, Boxes and Sound are about the
-- parsers on those, and Limits about masks outside of them. The mask analysis calls Ofr for every size.
-- Subviews holds getExtractSlice, getSubview, getSideBySideSubviews and getStackedSubviews, where a
-- memref.subview is the record of its operands.
--
-- Ptr is lib/Analysis/PtrAnalysis.cpp with its header: State the state of a pointer and its sums and
-- products, Casts the memref.reinterpret_cast operations with their wrap-around, Visit and Operand the
-- visitors of operands (one function for each, and visitOperand), Rewrite rewriteAddptrOp. The values
-- that replace pointers in the conversion and knownPtrs are a parameter, `Context`. Meaning says what a
-- state stands for, Supported which expressions the theorem on visitOperand covers; Near, Sums,
-- Products, States and Scaling are about the arithmetic of states, Axes, Operands, Factors, Tensors,
-- Shapes, Dispatch, Binary and Sound about the visitors, Wraparound and its child about the side-by-side chunks, and
-- Limits about inputs that go wrong. An address is counted in elements, and sums of addresses are
-- compared up to a multiple of 2^64 (Prelude/Congruence), as index arithmetic wraps. It calls Ofr for
-- every offset and stride. rewriteAdvanceOp, rewriteForOp and rewriteYieldOp are not modelled: they
-- rebuild scf loops.
--
-- Structured is lib/AnalysisStructured/PtrAnalysis.cpp with its header, the analysis that the tts
-- dialect stands on: State the state with its predicates and the two rebuildAs functions, Sum addState
-- with the merge of the unstructured analysis, Product mulState and mergeUnstructuredState, Visit and
-- Operand the visitors of operands, Rewrite the tts operations and rewriteAddptrOp, Blocks block
-- pointers (visitOperandMakeTensorPtr, rewriteMakeTensorPtrOp, rewriteAdvanceOp). `Context` holds the
-- members of PtrAnalysis, and `Origin` the operations that define a value and are none of `Value`; a
-- function that fills in a state that its callers give it empty returns that state, and the entries of
-- knownPtrs and ptrMap that a rewriting makes are its result. Ranks, with a child for the arithmetic,
-- the visitors and visitOperand, is about the vectors of a state, Plain about addState on states without
-- wrap-around, against the memref analysis, the children of Blocks about the positions that block
-- pointers stand for, and Limits, with a part of Blocks/Makes, about inputs that go wrong. An
-- int that counts elements does not overflow here. The loops (rewriteForOp and the states of iter-args
-- and results), loads, stores and the second walk of rewriteOp are not modelled: they move operations
-- in and out of regions, and what the visitors read of a loop is a parameter.
--
-- Use is lib/Analysis/UseAnalysis.cpp with its header: Lattice the uses and their join, Transfer
-- visitOperation, Tagging the tag and the clone that runUseAnalysis makes for one operation; Order,
-- Sound and Tags are about them. Values are numbers there, and an operation is its kind, its operands
-- and its results. The fixpoint iteration is the data-flow solver of MLIR and not modelled.
--
-- Scan is the conversion of tt.scan in lib/Conversion/TritonToLinalgExperimental/
-- ConvertScanOpPass.cpp: Region the clone of the combine region (accumulate, lookupMappedValue), Line
-- lower1DInput, Leading lowerLeadingDimension, Dispatch matchAndRewrite with the loops over
-- sub-vectors. The vector dialect and the indexing utilities are MLIR's: `Dialect` holds their
-- operations, `Meaning` and `Indexing` their documented laws. A value from outside the region is its
-- identity, and none is an assertion or llvm_unreachable. Accumulate, Cloning and Combining are about
-- the clone, Value about what the region stands for on elements, Prefix, Line/Indices, Line/Rounds
-- and Line/Sound about the doubling rounds, Subvectors and Leading/Sound about the leading dimension,
-- Enumerate, Sound and Whole about all ranks. The patterns that turn casts between tensors and
-- vectors into transfers are not modelled: they create operations and decide nothing.
--
-- Collapse is the grouping of dimensions by CollapseBroadCast in
-- lib/Conversion/TritonToLinalgExperimental/CollapseShape.cpp, on static shapes and without overflow of
-- the products; Groups and Sound are about it. The other patterns of the file are not modelled.
--
-- Fuel is used where a loop of Scan counts by strides or linear indices: lower1DInput has one round
-- more than there are lanes, and the loops over sub-vectors one more than there are elements, and the
-- theorems about them say that they return. Every other function recurs on the values, lists or shapes
-- that it is given.
pub mod Prelude
pub mod Ir
pub mod Ofr
pub mod Mask
pub mod Ptr
pub mod Scan
pub mod Structured
pub mod Collapse
pub mod Use
pub mod Examples
