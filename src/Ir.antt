-- ===== src/Ir.antt =====
-- The part of the MLIR program that the analyses read and build: types, values with the operation
-- that defines them, the builder, and what a run of the program gives the values.
mod Types
mod Values
mod Builder
mod Laws
mod Run
unfoldable pub use Types.*
unfoldable pub use Values.*
unfoldable pub use Builder.*
unfoldable pub use Laws.*
unfoldable pub use Run.*
