-- ===== src/Ptr/Supported.antt =====
-- The pointer expressions whose states the analysis is meant for, and what such a state says of the
-- value that it was made of.
use spine_triton.Prelude.{
  ℕ, ◌+◌, ◌^◌, ◌<◌, ◌≤◌, Bool, true, false, not, ◌&&◌, ◌||◌, Option, none, some, List, [], ◌∷◌, ℤ,
  pos, ◌+ℤ◌, ◌-ℤ◌, ◌*ℤ◌, InRange, In64, length, ◌≡◌, Congruent,
}
use spine_triton.Ir.{
  Value, scalar, tensor, integer, pointer, ElementType, type_of, shape_of, half_range, Interp,
  is_integer_ty, is_pointer_ty, block_arg, binary, addi, subi, muli, addptr, make_range, splat,
  expand_dims, broadcast, constant, dense_splat, stretch,
}
use spine_triton.Mask.Parse.{insert_at}
use spine_triton.Mask.Coordinates.{InBounds, Stretches}
use spine_triton.Ptr.State.{PtrState, has_value, has_modulo}
use spine_triton.Ptr.Visit.{Context, extents}
use spine_triton.Ptr.Meaning.{IsPtrState, walk, displacement}
use spine_triton.Ptr.States.{IsIndexScalar}

module _ (I : Interp) where
  abbrev pub value_or_zero : Option Value → ℤ
  value_or_zero none = pos 0
  value_or_zero (some v) = I.value v []

  -- How far an element lies from the base: of rank 0 the scalar holds it.
  abbrev pub offset_at : List ℕ → PtrState → List ℕ → ℤ
  offset_at [] s idx = value_or_zero s.scalar
  offset_at (n ∷ ns) s idx = displacement I s idx

  -- The state of a value of that shape: whether it has a base pointer, and whether it is known to be uniform.
  pub record Describes (shape : List ℕ) (pointed uniform : Bool) (v : Value) (s : PtrState)
      : Type 0 where
    pub well : IsPtrState s (length shape)
    pub sizes_lem : s.sizes ≡ extents shape
    pub plain : has_modulo s ≡ false
    pub source_lem : has_value s.source ≡ pointed
    pub scalar_lem : has_value s.scalar ≡ uniform
    pub index : IsIndexScalar s.scalar
    pub address :
        (idx : List ℕ)
        → InBounds shape idx
        → Congruent (I.value v idx) (value_or_zero s.source +ℤ offset_at shape s idx)
    pub same :
        (k : Value)
        → s.scalar ≡ some k
        → (idx : List ℕ) → InBounds shape idx
        → Congruent (I.value v idx) (value_or_zero s.source +ℤ I.value k [])
    -- An axis of one element is not walked along.
    pub flat :
        (idx : List ℕ) → Congruent (walk I s.strides (stretch shape idx)) (walk I s.strides idx)

  module _ (c : Context) where
    -- The program's pointers and offsets without modulo, with integer arithmetic that does not overflow
    -- and ranges of two elements or more; the flags are those of `Describes`.
    pub data Affine : Bool → Bool → Value → Type 0 where
      integer_scalar : (v : Value) (w : ℕ) → type_of v ≡ scalar (integer w) → Affine false true v
      base :
          (i : ℕ) (b : Value)
          → c.remapped (block_arg i (scalar pointer)) ≡ some b
          → I.value b [] ≡ I.value (block_arg i (scalar pointer)) []
          → Affine true false (block_arg i (scalar pointer))
      move_scalar :
          (i w : ℕ) {u : Bool} (p o : Value)
          → Affine true u p
          → Affine false true o
          → type_of p ≡ scalar pointer
          → type_of o ≡ scalar (integer w)
          → has_value (c.remapped (binary i addptr p o)) ≡ true
          → Affine true true (binary i addptr p o)
      move :
          (i w n : ℕ) (ns : List ℕ) {u u' : Bool} (p o : Value)
          → Affine true u p
          → Affine false u' o
          → type_of p ≡ tensor (n ∷ ns) pointer
          → type_of o ≡ tensor (n ∷ ns) (integer w)
          → Affine true (u && u') (binary i addptr p o)
      add :
          (i w n : ℕ) (ns : List ℕ) {u u' : Bool} (l r : Value)
          → Affine false u l
          → Affine false u' r
          → type_of l ≡ tensor (n ∷ ns) (integer w)
          → type_of r ≡ tensor (n ∷ ns) (integer w)
          → ((idx : List ℕ)
              → InBounds (n ∷ ns) idx
              → InRange (half_range (integer w)) (I.value l idx +ℤ I.value r idx))
          → Affine false (u && u') (binary i addi l r)
      sub :
          (i w n : ℕ) (ns : List ℕ) {u u' : Bool} (l r : Value)
          → Affine false u l
          → Affine false u' r
          → type_of l ≡ tensor (n ∷ ns) (integer w)
          → type_of r ≡ tensor (n ∷ ns) (integer w)
          → ((idx : List ℕ)
              → InBounds (n ∷ ns) idx
              → InRange (half_range (integer w)) (I.value l idx -ℤ I.value r idx))
          → Affine false (u && u') (binary i subi l r)
      scale :
          (i w n : ℕ) (ns : List ℕ) (u : Bool) (l r : Value)
          → Affine false u l
          → Affine false (not u) r
          → type_of l ≡ tensor (n ∷ ns) (integer w)
          → type_of r ≡ tensor (n ∷ ns) (integer w)
          → ((idx : List ℕ)
              → InBounds (n ∷ ns) idx
              → InRange (half_range (integer w)) (I.value l idx *ℤ I.value r idx))
          → Affine false false (binary i muli l r)
      arange :
          (i start end n : ℕ)
          → 1 < n
          → start + n ≡ end
          → end < 2 ^ 31
          → Affine false false (make_range i start end n)
      splatted :
          (i n : ℕ) (ns : List ℕ) (e : ElementType) {p u : Bool} (v : Value)
          → Affine p u v
          → type_of v ≡ scalar e
          → (is_integer_ty (scalar e) || is_pointer_ty (scalar e)) ≡ true
          → Affine p u (splat i (tensor (n ∷ ns) e) v)
      expanded :
          (i axis n : ℕ) (ns : List ℕ) (e : ElementType) {p u : Bool} (v : Value)
          → Affine p u v
          → type_of v ≡ tensor (n ∷ ns) e
          → axis ≤ length (n ∷ ns)
          → Affine p u (expand_dims i (tensor (insert_at axis 1 (n ∷ ns)) e) axis v)
      stretched :
          (i m n : ℕ) (ms ns : List ℕ) (e : ElementType) {p u : Bool} (v : Value)
          → Affine p u v
          → type_of v ≡ tensor (m ∷ ms) e
          → Stretches (m ∷ ms) (n ∷ ns)
          → Affine p u (broadcast i (tensor (n ∷ ns) e) v)
      dense :
          (i w n : ℕ) (ns : List ℕ) (z : ℤ)
          → InRange (half_range (integer w)) z
          → In64 z
          → Affine false true (constant i (tensor (n ∷ ns) (integer w)) (dense_splat z))

    -- The known states describe their pointers.
    abbrev pub KnownDescribes : Type 0
    KnownDescribes =
        (v : Value) (p u : Bool) (s : PtrState)
        → c.known_ptrs v ≡ some s
        → Affine p u v
        → Describes (shape_of (type_of v)) p u v s
