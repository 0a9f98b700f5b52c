-- ===== src/Ofr.antt =====
-- lib/Analysis/OpFoldResultUtils.cpp, by the parts of that file.
mod Basic
mod Arith
mod Compare
mod Same
mod Meaning
mod Folding
mod Product
mod Comparing
mod Sameness
unfoldable pub use Basic.*
unfoldable pub use Arith.*
unfoldable pub use Compare.*
unfoldable pub use Same.*
unfoldable pub use Meaning.*
unfoldable pub use Folding.*
unfoldable pub use Product.*
unfoldable pub use Comparing.*
unfoldable pub use Sameness.*
