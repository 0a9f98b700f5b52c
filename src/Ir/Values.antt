-- ===== src/Ir/Values.antt =====
-- A value of the program with the operation that defines it, as `getDefiningOp` walks it. Every
-- operation has an identity, a number: two values are the same `Value` if their identities are.
use spine_triton.Prelude.{ℕ, Bool, [], ◌∷◌, Option, none, some, ℤ, ◌==◌}
use spine_triton.Ir.Types.{
  ElementType, Ty, tensor, integer, i1, index_ty, with_element, element_type,
}

pub data BinaryOp : Type 0 where
  addi subi muli minsi maxsi andi remsi divsi addptr : BinaryOp

-- arith::CmpIPredicate
pub data Predicate : Type 0 where
  eq ne slt sle sgt sge ult ule ugt uge : Predicate

-- The attribute of an arith.constant: an integer, a splat of one integer, or something else.
pub data ConstAttr : Type 0 where
  integer_attr : ℤ → ConstAttr
  dense_splat : ℤ → ConstAttr
  dense_other : ConstAttr

pub data Value : Type 0 where
  -- A block argument of which the analyses know nothing: a function's argument, an induction
  -- variable, or an iter-arg whose init does not come from tts.get_structured_state.
  block_arg : ℕ → Ty → Value
  -- An iter-arg of an scf.for: whether that loop is nested in another, the triton value that its
  -- init's tts.get_structured_state reads, and the iter-arg after it.
  loop_arg : ℕ → Ty → Bool → Value → Value → Value
  constant : ℕ → Ty → ConstAttr → Value
  index_cast ext_si ext_ui trunc_i bitcast : ℕ → Ty → Value → Value
  binary : ℕ → BinaryOp → Value → Value → Value
  cmpi : ℕ → Predicate → Value → Value → Value
  select : ℕ → Value → Value → Value → Value
  -- start, end and the extent of the result
  make_range : ℕ → ℕ → ℕ → ℕ → Value
  splat broadcast : ℕ → Ty → Value → Value
  expand_dims : ℕ → Ty → ℕ → Value → Value
  reshape : ℕ → Ty → Value → Value
  dim : ℕ → Value → ℕ → Value
  make_tensor_ptr : ℕ → Ty → Value
  -- The result of any other operation.
  opaque : ℕ → Ty → Value

abbrev pub id_of : Value → ℕ
id_of (block_arg i _) = i
id_of (loop_arg i _ _ _ _) = i
id_of (constant i _ _) = i
id_of (index_cast i _ _) = i
id_of (ext_si i _ _) = i
id_of (trunc_i i _ _) = i
id_of (ext_ui i _ _) = i
id_of (bitcast i _ _) = i
id_of (binary i _ _ _) = i
id_of (cmpi i _ _ _) = i
id_of (select i _ _ _) = i
id_of (make_range i _ _ _) = i
id_of (splat i _ _) = i
id_of (broadcast i _ _) = i
id_of (expand_dims i _ _ _) = i
id_of (reshape i _ _) = i
id_of (dim i _ _) = i
id_of (make_tensor_ptr i _) = i
id_of (opaque i _) = i

-- The result type that MLIR infers, or that the operation carries.
abbrev pub type_of : Value → Ty
type_of (block_arg _ t) = t
type_of (loop_arg _ t _ _ _) = t
type_of (constant _ t _) = t
type_of (index_cast _ t _) = t
type_of (ext_si _ t _) = t
type_of (trunc_i _ t _) = t
type_of (ext_ui _ t _) = t
type_of (bitcast _ t _) = t
type_of (binary _ _ l _) = type_of l
type_of (cmpi _ _ l _) = with_element (type_of l) i1
type_of (select _ _ t _) = type_of t
type_of (make_range _ _ _ n) = tensor (n ∷ []) (integer 32)
type_of (splat _ t _) = t
type_of (broadcast _ t _) = t
type_of (expand_dims _ t _ _) = t
type_of (reshape _ t _) = t
type_of (dim _ _ _) = index_ty
type_of (make_tensor_ptr _ t) = t
type_of (opaque _ t) = t

abbrev pub same_value : Value → Value → Bool
same_value a b = id_of a == id_of b

-- getDefiningOp<arith::ConstantOp>
abbrev pub constant_attr : Value → Option ConstAttr
constant_attr (constant _ _ a) = some a
constant_attr _ = none

abbrev pub element_of : Value → ElementType
element_of v = element_type (type_of v)
