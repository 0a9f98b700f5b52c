-- ===== src/Ir/Types.antt =====
-- The types of MLIR values that lib/Analysis distinguishes.
use spine_triton.Prelude.{ℕ, ◌-◌, ◌^◌, Bool, true, false, ◌&&◌, List, [], ◌∷◌, ◌==◌, half64}

pub data ElementType : Type 0 where
  integer : ℕ → ElementType
  index pointer floating : ElementType

-- Tensors and memrefs are the shaped types.
pub data Ty : Type 0 where
  scalar : ElementType → Ty
  tensor : List ℕ → ElementType → Ty
  memref : List ℕ → ElementType → Ty

abbrev pub i1 : ElementType
i1 = integer 1

abbrev pub index_ty : Ty
index_ty = scalar index

abbrev pub element_type : Ty → ElementType
element_type (scalar e) = e
element_type (tensor shape e) = e
element_type (memref shape e) = e

abbrev pub shape_of : Ty → List ℕ
shape_of (scalar e) = []
shape_of (tensor shape e) = shape
shape_of (memref shape e) = shape

abbrev pub is_shaped : Ty → Bool
is_shaped (scalar e) = false
is_shaped _ = true

abbrev pub with_element : Ty → ElementType → Ty
with_element (scalar _) e = scalar e
with_element (tensor shape _) e = tensor shape e
with_element (memref shape _) e = memref shape e

-- isa<IntegerType> and isa<IndexType> of a type that is no shaped type.
abbrev pub is_integer : ElementType → Bool
is_integer (integer w) = true
is_integer _ = false

abbrev pub is_index : ElementType → Bool
is_index index = true
is_index _ = false

abbrev pub is_integer_ty : Ty → Bool
is_integer_ty (scalar e) = is_integer e
is_integer_ty _ = false

abbrev pub is_index_ty : Ty → Bool
is_index_ty (scalar e) = is_index e
is_index_ty _ = false

abbrev pub is_pointer_ty : Ty → Bool
is_pointer_ty (scalar pointer) = true
is_pointer_ty _ = false

-- Types are uniqued in MLIR, so `==` on them is this comparison.
abbrev pub element_eq : ElementType → ElementType → Bool
element_eq (integer w) (integer u) = w == u
element_eq index index = true
element_eq pointer pointer = true
element_eq floating floating = true
element_eq _ _ = false

abbrev pub shape_eq : List ℕ → List ℕ → Bool
shape_eq [] [] = true
shape_eq (m ∷ ms) (n ∷ ns) = (m == n) && shape_eq ms ns
shape_eq _ _ = false

abbrev pub ty_eq : Ty → Ty → Bool
ty_eq (scalar a) (scalar b) = element_eq a b
ty_eq (tensor s a) (tensor t b) = shape_eq s t && element_eq a b
ty_eq (memref s a) (memref t b) = shape_eq s t && element_eq a b
ty_eq _ _ = false

-- Half the number of values of a type; the index type has 64 bits.
abbrev pub half_range : ElementType → ℕ
half_range (integer w) = 2 ^ (w - 1)
half_range _ = half64
