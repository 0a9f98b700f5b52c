-- ===== src/Ptr/State.antt =====
-- include/triton-shared/Analysis/PtrAnalysis.h, PtrState, with its sums and products in
-- lib/Analysis/PtrAnalysis.cpp. A state that a function fills in is what it returns: every caller
-- gives it an empty one.
use spine_triton.Prelude.{
  ℕ, length, Bool, true, false, not, ◌&&◌, ◌||◌, ◌==◌, Option, none, some, List, [], ◌∷◌, pos,
  if◌then◌else◌,
}
use spine_triton.Ir.{Value, BinaryOp, addi, subi, M, pure, crash, check, ◌>>=◌, ◌>>◌, create_binary}
use spine_triton.Ofr.{Ofr, value, index_attr, add_ofrs, sub_ofrs, mul_ofrs}

-- A ModuloState is the value of its size.
pub record PtrState : Type 0 where
  pub offsets : List Ofr
  pub sizes : List Ofr
  pub strides : List Ofr
  pub modulos : List (Option Value)
  pub source : Option Value
  pub scalar : Option Value

module _ {ℓ} {A : Type ℓ} where
  abbrev pub has_value : Option A → Bool
  has_value none = false
  has_value (some _) = true

  -- `a ? a : b` on pointers that may be null.
  abbrev pub or_else : Option A → Option A → Option A
  or_else none b = b
  or_else (some a) b = some a

  abbrev pub required : Option A → M A
  required none = crash
  required (some a) = pure a

abbrev pub any_value : List (Option Value) → Bool
any_value [] = false
any_value (m ∷ ms) = has_value m || any_value ms

unfoldable pub accumulate_offsets : Ofr → List Ofr → M Ofr
accumulate_offsets total [] = pure total
accumulate_offsets total (o ∷ os) = do sum ← add_ofrs total o; accumulate_offsets sum os

unfoldable pub accumulate_target_offset : PtrState → M Ofr
unfolding accumulate_offsets
accumulate_target_offset s = accumulate_offsets (index_attr (pos 0)) s.offsets

unfoldable pub get_rank : PtrState → M ℕ
get_rank s = do
  check (
      length s.offsets == length s.sizes
      && length s.offsets == length s.strides
      && length s.modulos == length s.offsets)
  pure (length s.offsets)

unfoldable pub is_empty : PtrState → M Bool
unfolding get_rank
is_empty s = do
  rank ← get_rank s
  pure (rank == 0 && not (has_value s.source) && not (has_value s.scalar))

abbrev pub has_modulo : PtrState → Bool
has_modulo s = any_value s.modulos

-- The offset and the stride of each axis, in the order in which the loop creates them.
unfoldable pub combine_axes :
    (Ofr → Ofr → M Ofr) → List Ofr → List Ofr → List Ofr → List Ofr → M (List Ofr × List Ofr)
combine_axes f (o ∷ os) (p ∷ ps) (s ∷ ss) (t ∷ ts) = do
  offset ← f o p
  stride ← f s t
  rest ← combine_axes f os ps ss ts
  pure (offset ∷ rest.0, stride ∷ rest.1)
combine_axes f _ _ _ _ = pure ([], [])

abbrev pub combine_modulos : List (Option Value) → List (Option Value) → List (Option Value)
combine_modulos (m ∷ ms) (n ∷ ns) = or_else m n ∷ combine_modulos ms ns
combine_modulos _ _ = []

unfoldable pub combine_scalars : BinaryOp → ℕ → Option Value → Option Value → M (Option Value)
combine_scalars op rank (some a) (some b) = do v ← create_binary op a b; pure (some v)
combine_scalars op rank a b = pure (if rank == 0 then or_else a b else none)

-- The assertion on the modulos stands in the loop over the axes.
unfoldable pub combine_states : BinaryOp → (Ofr → Ofr → M Ofr) → PtrState → PtrState → M PtrState
unfolding combine_axes combine_scalars get_rank
combine_states op f l r = do
  rank ← get_rank l
  rank_r ← get_rank r
  check (rank == rank_r)
  check (not (has_value l.source && has_value r.source))
  scalar ← combine_scalars op rank l.scalar r.scalar
  check (rank == 0 || not (has_modulo l) || not (has_modulo r))
  axes ← combine_axes f l.offsets r.offsets l.strides r.strides
  pure (record {
    offsets = axes.0;
    sizes = l.sizes;
    strides = axes.1;
    modulos = combine_modulos l.modulos r.modulos;
    source = or_else l.source r.source;
    scalar = scalar;
  })

unfoldable pub add_state : PtrState → PtrState → M PtrState
unfolding combine_states
add_state l r = combine_states addi add_ofrs l r

-- visitOperandSub, once both operands are visited.
unfoldable pub sub_state : PtrState → PtrState → M PtrState
unfolding combine_states
sub_state l r = combine_states subi sub_ofrs l r

unfoldable pub scale_axes : Ofr → List Ofr → List Ofr → M (List Ofr × List Ofr)
scale_axes k (o ∷ os) (s ∷ ss) = do
  offset ← mul_ofrs o k
  stride ← mul_ofrs s k
  rest ← scale_axes k os ss
  pure (offset ∷ rest.0, stride ∷ rest.1)
scale_axes k _ _ = pure ([], [])

-- The tensor times the scalar; the modulos are asserted of the right operand, in either order.
unfoldable pub scale_state : PtrState → Value → List (Option Value) → M PtrState
unfolding scale_axes
scale_state tensor factor rhs_modulos = do
  axes ← scale_axes (value factor) tensor.offsets tensor.strides
  check (not (any_value rhs_modulos))
  pure (record {
    offsets = axes.0;
    sizes = tensor.sizes;
    strides = axes.1;
    modulos = tensor.modulos;
    source = none;
    scalar = none;
  })

unfoldable pub mul_by_scalars : Option Value → Option Value → PtrState → PtrState → M PtrState
unfolding scale_state
mul_by_scalars none (some b) l r = scale_state l b r.modulos
mul_by_scalars (some a) none l r = scale_state r a r.modulos
mul_by_scalars _ _ l r = crash

unfoldable pub mul_state : PtrState → PtrState → M PtrState
unfolding mul_by_scalars get_rank
mul_state l r = do
  rank ← get_rank l
  rank_r ← get_rank r
  check (rank == rank_r)
  check (not (has_value l.source && has_value r.source))
  mul_by_scalars l.scalar r.scalar l r
