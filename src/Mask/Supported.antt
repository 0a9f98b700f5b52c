-- ===== src/Mask/Supported.antt =====
-- The values from which masks are built, in the forms that the mask analysis supports. The premises are
-- what the verifier of MLIR demands of the types, and that the index arithmetic does not overflow.
use spine_triton.Prelude.{
  [], ℕ, ◌+◌, ◌^◌, ◌≤◌, ◌<◌, get_elem?, length, All, List, some, none, ℤ, ◌+ℤ◌, In64, ◌≡◌, ◌≢◌,
}
use spine_triton.Ir.{
  Value, ElementType, scalar, tensor, integer, i1, type_of, half_range, constant, dense_splat,
  splat, make_range, binary, addi, andi, cmpi, slt, expand_dims, broadcast, constant_attr, Interp,
}
use spine_triton.Mask.Parse.{insert_at}
use spine_triton.Mask.Coordinates.{Stretches}

-- Every extent but one is 1.
abbrev pub OneWide : List ℕ → ℕ → Type 0
OneWide ns k = (i n : ℕ) → get_elem? ns i ≡ some n → i ≢ k → n ≡ 1

module _ (I : Interp) where
  pub data Uniform : Value → Type 0 where
    splatted :
        (i : ℕ) (shape : List ℕ) (w : ℕ) (v : Value)
        → type_of v ≡ scalar (integer w)
        → w ≢ 1
        → constant_attr v ≡ none
        → In64 (I.value v [])
        → Uniform (splat i (tensor shape (integer w)) v)
    dense :
        (i : ℕ) (shape : List ℕ) (w : ℕ) (z : ℤ)
        → In64 z
        → ((idx : List ℕ) → I.value (constant i (tensor shape (integer w)) (dense_splat z)) idx ≡ z)
        → Uniform (constant i (tensor shape (integer w)) (dense_splat z))

  pub data Ranged : Value → Type 0 where
    arange :
        (i start end n : ℕ)
        → 2 ≤ n
        → end ≡ start + n
        → end < 2 ^ 31
        → Ranged (make_range i start end n)
    add_right :
        (i : ℕ) (shape : List ℕ) (e : ElementType) (l r : Value)
        → Ranged l
        → Uniform r
        → type_of l ≡ tensor shape e
        → half_range e ≤ 2 ^ 31
        → ((idx : List ℕ) → I.value (binary i addi l r) idx ≡ I.value l idx +ℤ I.value r idx)
        → Ranged (binary i addi l r)
    add_left :
        (i : ℕ) (shape : List ℕ) (e : ElementType) (l r : Value)
        → Uniform l
        → Ranged r
        → type_of l ≡ tensor shape e
        → type_of r ≡ tensor shape e
        → half_range e ≤ 2 ^ 31
        → ((idx : List ℕ) → I.value (binary i addi l r) idx ≡ I.value l idx +ℤ I.value r idx)
        → Ranged (binary i addi l r)
    expanded :
        (i axis : ℕ) (shape : List ℕ) (e : ElementType) (v : Value)
        → Ranged v
        → type_of v ≡ tensor shape e
        → axis ≤ length shape
        → Ranged (expand_dims i (tensor (insert_at axis 1 shape) e) axis v)

  pub data Masked : Value → Type 0 where
    -- range < uniform
    bounded :
        (i k : ℕ) (shape : List ℕ) (e : ElementType) (l r : Value)
        → Ranged l
        → Uniform r
        → type_of l ≡ tensor shape e
        → half_range e ≤ 2 ^ 31
        → OneWide shape k
        → Masked (cmpi i slt l r)
    -- an i1 that is splatted: all or nothing
    switched :
        (i n : ℕ) (shape : List ℕ) (v : Value)
        → type_of v ≡ scalar i1
        → All (λ n. (2 ≤ n) × (n < 2 ^ 31)) shape
        → 0 < length shape
        → Masked (splat i (tensor shape i1) v)
    both :
        (i : ℕ) (shape : List ℕ) (l r : Value)
        → Masked l
        → Masked r
        → type_of l ≡ tensor shape i1
        → type_of r ≡ tensor shape i1
        → Masked (binary i andi l r)
    expanded_mask :
        (i axis : ℕ) (shape : List ℕ) (v : Value)
        → Masked v
        → type_of v ≡ tensor shape i1
        → axis ≤ length shape
        → Masked (expand_dims i (tensor (insert_at axis 1 shape) i1) axis v)
    stretched_mask :
        (i : ℕ) (from to : List ℕ) (v : Value)
        → Masked v
        → type_of v ≡ tensor from i1
        → Stretches from to
        → All (λ n. n < 2 ^ 31) to
        → Masked (broadcast i (tensor to i1) v)
