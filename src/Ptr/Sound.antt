-- ===== src/Ptr/Sound.antt =====
-- PtrAnalysis::visitOperand on the supported pointer expressions.
use spine_triton.Prelude.{
  ℕ, Bool, true, false, not, ◌&&◌, some, List, [], ◌∷◌, ℤ, ◌+ℤ◌, ◌-ℤ◌, ◌*ℤ◌, InRange, ◌≡◌, refl,
  sym, ap, ◌∙◌, Congruent, Congruent-of_eq, Congruent-trans, wrap_self, wrap64, wrap64-Congruent,
  wrap,
}
use spine_triton.Ir.{
  Value, Ty, integer, pointer, scalar, tensor, type_of, shape_of, crash, Interp, Returns, M,
  half_range, element_of, element_type, block_arg, constant, binary, addi, subi, muli, addptr,
  make_range, splat, broadcast, expand_dims,
}
use spine_triton.Ptr.State.{PtrState, has_value}
use spine_triton.Ptr.Visit.{Context}
use spine_triton.Mask.Parse.{insert_at}
use spine_triton.Ir.{stretch, dense_splat}
use spine_triton.Ptr.Operand.{visit_base, visit_operand}
use spine_triton.Ptr.Supported.{
  Describes, Affine, integer_scalar, base, move_scalar, move, add, sub, scale, arange, splatted,
  expanded, stretched, dense, KnownDescribes,
}
use spine_triton.Ptr.Tensors.{dense_lem, range_lem, visit_splat_lem}
use spine_triton.Ptr.Shapes.{expand_lem, broadcast_lem}
use spine_triton.Ir.{make_range}
use spine_triton.Ptr.Dispatch.{
  Visited, dispatch_tensor, dispatch_pointer, visit_integer_lem, base-Describes,
}
use spine_triton.Ptr.Binary.{
  visit_add_lem, visit_sub_lem, visit_mul_lem, visit_addptr_lem, visit_addptr_scalar_lem,
}

module _ (I : Interp) where
  -- Arithmetic that does not overflow.
  fitting :
      (F : ℤ → ℤ → ℤ) (v l r : Value) (w n : ℕ) (ns idx : List ℕ)
      → type_of l ≡ tensor (n ∷ ns) (integer w)
      → I.value v idx ≡ wrap (half_range (element_of l)) (F (I.value l idx) (I.value r idx))
      → InRange (half_range (integer w)) (F (I.value l idx) (I.value r idx))
      → Congruent (I.value v idx) (F (I.value l idx) (I.value r idx))
  fitting F v l r w n ns idx t e h = Congruent-of_eq (
      e
      ∙ ap (λ ty. wrap (half_range (element_type ty)) (F (I.value l idx) (I.value r idx))) t
      ∙ wrap_self _ _ h)

  moving :
      (i : ℕ) (p o : Value) (idx : List ℕ)
      → element_of p ≡ pointer
      → Congruent (I.value (binary i addptr p o) idx) (I.value p idx +ℤ I.value o idx)
  unfolding wrap64
  moving i p o idx e =
      Congruent-trans (Congruent-of_eq (I.addptr_lem i p o idx e)) (wrap64-Congruent _)

  module _ (c : Context) (known : KnownDescribes I c) where
    base_lem :
        (i : ℕ) (b : Value) (m : ℕ)
        → c.remapped (block_arg i (scalar pointer)) ≡ some b
        → I.value b [] ≡ I.value (block_arg i (scalar pointer)) []
        → Returns
            (λ s j. Describes I [] true false (block_arg i (scalar pointer)) s)
            (visit_base (c.remapped (block_arg i (scalar pointer))) m)
    unfolding visit_base
    base_lem i b m e h = rw e (base-Describes I (block_arg i (scalar pointer)) b (sym h))

    at_shape :
        (v : Value) (t : Ty) (p u : Bool) (parsed : M PtrState)
        → type_of v ≡ t
        → ((i : ℕ) → Returns (Visited I c known p u v) (parsed i))
        → (i : ℕ) → Returns (λ s j. Describes I (shape_of t) p u v s) (parsed i)
    at_shape v t p u parsed e h i = rw (← e) (h i)

    -- visitOperand of a pointer expression without modulo (scalar integers and base pointers, ranges of at
    -- least two elements, splats, expansions, broadcasts, dense constants, sums and differences, products
    -- with a uniform factor, and tt.addptr), whose integer arithmetic does not overflow, where known
    -- pointers are described by their states, returns a state of the operand's rank and sizes without
    -- modulo, with a base if the operand is a pointer, and in every run each element of the operand is
    -- the base plus the displacement at its index (for a scalar, the scalar), up to a multiple of 2^64.
    pub visit_operand_sound :
        {p u : Bool} {v : Value} (m : ℕ)
        → Affine I c p u v
        → Returns (λ s j. Describes I (shape_of (type_of v)) p u v s) (visit_operand c v m)
    unfolding visit_operand
    visit_operand_sound m (integer_scalar v w t) =
        visit_integer_lem I c known v w m t (integer_scalar v w t)
    visit_operand_sound m (base i b e h) =
        dispatch_pointer I c known (block_arg i (scalar pointer)) true false _ crash m
          (base i b e h) refl (ap has_value e) (base_lem i b m e h)
    visit_operand_sound m (move_scalar i w {u} p o a a' tp to r) =
        dispatch_pointer I c known (binary i addptr p o) true true _ _ m
          (move_scalar i w p o a a' tp to r) tp r
          (visit_addptr_scalar_lem I (binary i addptr p o) p o u (visit_operand c p)
            (visit_operand c o) m (at_shape p _ true u _ tp (λ j. visit_operand_sound j a))
            (at_shape o _ false true _ to (λ j. visit_operand_sound j a'))
            (moving i p o [] (ap element_type tp)))
    visit_operand_sound m (move i w n ns {u} {u'} p o a a' tp to) =
        dispatch_tensor I c known (binary i addptr p o) true (u && u') _ _ m
          (move i w n ns p o a a' tp to) (n ∷ ns) pointer tp
          (visit_addptr_lem I (binary i addptr p o) p o n ns true u u' (visit_operand c p)
            (visit_operand c o) m (at_shape p _ true u _ tp (λ j. visit_operand_sound j a))
            (at_shape o _ false u' _ to (λ j. visit_operand_sound j a')) refl
            (λ idx b. moving i p o idx (ap element_type tp)))
    visit_operand_sound m (add i w n ns {u} {u'} l r a a' tl t h) =
        dispatch_tensor I c known (binary i addi l r) false (u && u') _ _ m
          (add i w n ns l r a a' tl t h) (n ∷ ns) (integer w) tl
          (visit_add_lem I (binary i addi l r) l r n ns false u u' (visit_operand c l)
            (visit_operand c r) m (at_shape l _ false u _ tl (λ j. visit_operand_sound j a))
            (at_shape r _ false u' _ t (λ j. visit_operand_sound j a'))
            λ idx b.
              fitting (λ x y. x +ℤ y) (binary i addi l r) l r w n ns idx tl (I.addi_lem i l r idx)
                (h idx b))
    visit_operand_sound m (sub i w n ns {u} {u'} l r a a' tl t h) =
        dispatch_tensor I c known (binary i subi l r) false (u && u') _ _ m
          (sub i w n ns l r a a' tl t h) (n ∷ ns) (integer w) tl
          (visit_sub_lem I (binary i subi l r) l r n ns false u u' (visit_operand c l)
            (visit_operand c r) m (at_shape l _ false u _ tl (λ j. visit_operand_sound j a))
            (at_shape r _ false u' _ t (λ j. visit_operand_sound j a'))
            λ idx b.
              fitting (λ x y. x -ℤ y) (binary i subi l r) l r w n ns idx tl (I.subi_lem i l r idx)
                (h idx b))
    visit_operand_sound m (scale i w n ns u l r a a' tl t h) =
        dispatch_tensor I c known (binary i muli l r) false false _ _ m
          (scale i w n ns u l r a a' tl t h) (n ∷ ns) (integer w) tl
          (visit_mul_lem I (binary i muli l r) l r n ns u (visit_operand c l) (visit_operand c r) m
            (at_shape l _ false u _ tl (λ j. visit_operand_sound j a))
            (at_shape r _ false (not u) _ t (λ j. visit_operand_sound j a'))
            λ idx b.
              fitting (λ x y. x *ℤ y) (binary i muli l r) l r w n ns idx tl (I.muli_lem i l r idx)
                (h idx b))
    visit_operand_sound m (arange i s e n a b d) =
        dispatch_tensor I c known (make_range i s e n) false false crash _ m (arange i s e n a b d)
          (n ∷ []) (integer 32) refl (range_lem I i s e n m a b d)
    visit_operand_sound m (splatted i n ns e {p} {u} v a t k) =
        dispatch_tensor I c known (splat i (tensor (n ∷ ns) e) v) p u crash _ m
          (splatted i n ns e v a t k) (n ∷ ns) e refl
          (rw t (
            visit_splat_lem I v (splat i (tensor (n ∷ ns) e) v) e n ns p u (visit_operand c v) m k
              (at_shape v _ p u _ t (λ j. visit_operand_sound j a) m)
              λ idx. I.splat_lem i (tensor (n ∷ ns) e) v idx (sym (ap element_type t))))
    visit_operand_sound m (expanded i axis n ns e {p} {u} v a t k) =
        dispatch_tensor I c known (expand_dims i (tensor (insert_at axis 1 (n ∷ ns)) e) axis v) p u
          crash _ m (expanded i axis n ns e v a t k) (insert_at axis 1 (n ∷ ns)) e refl
          (expand_lem I v (expand_dims i (tensor (insert_at axis 1 (n ∷ ns)) e) axis v) axis n ns e
            p u (visit_operand c v) m k (at_shape v _ p u _ t (λ j. visit_operand_sound j a) m)
            λ idx.
              I.expand_dims_lem i (tensor (insert_at axis 1 (n ∷ ns)) e) axis v idx
                (sym (ap element_type t)))
    visit_operand_sound m (stretched i k n ks ns e {p} {u} v a t st) =
        dispatch_tensor I c known (broadcast i (tensor (n ∷ ns) e) v) p u crash _ m
          (stretched i k n ks ns e v a t st) (n ∷ ns) e refl
          (rw t (
            broadcast_lem I v (broadcast i (tensor (n ∷ ns) e) v) k n ks ns e p u
              (visit_operand c v) m st (at_shape v _ p u _ t (λ j. visit_operand_sound j a) m)
              λ idx.
                I.broadcast_lem i (tensor (n ∷ ns) e) v idx (sym (ap element_type t))
                ∙ ap (λ y. I.value v (stretch (shape_of y) idx)) t))
    visit_operand_sound m (dense i w n ns z a b) =
        dispatch_tensor I c known (constant i (tensor (n ∷ ns) (integer w)) (dense_splat z)) false
          true crash _ m (dense i w n ns z a b) (n ∷ ns) (integer w) refl
          (dense_lem I i w n ns z m a b)
