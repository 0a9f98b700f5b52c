-- ===== src/Structured/Plain.antt =====
-- Plain states: structured, not wrapping, and no block pointer, and the loops of addState in
-- lib/AnalysisStructured/PtrAnalysis.cpp on them.
pub mod Sums
use spine_triton.Prelude.{
  ℕ, zero, suc, ◌+◌, ◌<◌, length, length-replicate, get_elem?-replicate, get_elem?, ltb, ◌==◌, Bool,
  true, false, not, ◌&&◌, Option, none, some, List, [], ◌∷◌, pos, ◌≡◌, refl, sym, ap, ◌∙◌, arith,
  All, if◌then◌else◌,
}
use spine_triton.Ir.{
  Value, type_of, is_shaped, M, Outcome, ok, failed, fault, then_do, check, pure, fail, addi, ◌>>=◌,
  ◌>>◌,
}
use spine_triton.Ofr.{Ofr, attr, value, int_attr, other_attr, index_attr, IsIndex, add_ofrs}
use spine_triton.Ptr.Visit.{zeros}
use spine_triton.Ptr.State.{combine_axes, combine_scalars}
use spine_triton.Structured.State.{
  PtrState, has_value, required, get_rank, is_not_structured, is_structured_list, dim_has_modulo,
  any_modulo, has_modulo,
}
use spine_triton.Structured.Sum.{
  add_scalars, same_unstructured_dim, add_dim, add_dims, add_shape, add_shapes, either_modulo,
}

-- Every offset and stride is of index type, no dimension wraps, and there is no order.
pub record IsPlain (s : PtrState) (rank : ℕ) : Type 0 where
  pub offsets_index : All IsIndex s.offsets
  pub strides_index : All IsIndex s.strides
  pub offsets_rank : length s.offsets ≡ rank
  pub sizes_rank : length s.sizes ≡ rank
  pub strides_rank : length s.strides ≡ rank
  pub shape_zeros : s.shape ≡ zeros rank
  pub no_order : s.order ≡ []

structured_index : (o : Ofr) → IsIndex o → is_not_structured o ≡ false
structured_index (attr a) h = refl
structured_index (value v) h = rw h.0 refl

structured_offsets : (os : List Ofr) → All IsIndex os → is_structured_list os ≡ true
structured_offsets [] h = refl
structured_offsets (o ∷ os) h = rw (structured_index o h.0) (structured_offsets os h.1)

pub get_rank-IsPlain : (s : PtrState) (rank n : ℕ) → IsPlain s rank → get_rank s n ≡ ok rank n
unfolding get_rank
get_rank-IsPlain s rank n h =
    let e = ap length h.shape_zeros ∙ length-replicate rank (index_attr (pos 0)) in
    ground (arith, h.offsets_rank, h.sizes_rank, h.strides_rank, e)

shape_entry :
    (s : PtrState) (rank i : ℕ)
    → IsPlain s rank
    → i < rank
    → get_elem? s.shape i ≡ some (index_attr (pos 0))
shape_entry s rank i h k = rw h.shape_zeros (get_elem?-replicate rank i (index_attr (pos 0)) k)

dim_has_modulo-IsPlain :
    (s : PtrState) (rank i n : ℕ) → IsPlain s rank → i < rank → dim_has_modulo s i n ≡ ok false n
unfolding dim_has_modulo
dim_has_modulo-IsPlain s rank i n h k =
    rw (h.no_order, get_rank-IsPlain s rank n h, shape_entry s rank i h k) (ground arith)

any_modulo-IsPlain :
    (s : PtrState) (rank k i n : ℕ)
    → IsPlain s rank
    → k + i ≡ rank
    → any_modulo k i s n ≡ ok false n
unfolding any_modulo
any_modulo-IsPlain s rank zero i n h e = refl
any_modulo-IsPlain s rank (suc k) i n h e =
    rw (dim_has_modulo-IsPlain s rank i n h (omega arith))
      (any_modulo-IsPlain s rank k (suc i) n h (omega arith))

pub has_modulo-IsPlain : (s : PtrState) (rank n : ℕ) → IsPlain s rank → has_modulo s n ≡ ok false n
unfolding has_modulo
has_modulo-IsPlain s rank n h =
    rw (get_rank-IsPlain s rank n h) (any_modulo-IsPlain s rank rank 0 n h (omega arith))

pub same_unstructured_dim-IsPlain :
    (l r : PtrState) (rank n : ℕ) → IsPlain l rank → same_unstructured_dim l r n ≡ ok tt n
unfolding same_unstructured_dim
same_unstructured_dim-IsPlain l r rank n h = rw (structured_offsets l.offsets h.offsets_index) refl

-- The entry of an offset, which is structured.
structured_entry :
    (os : List Ofr) (i : ℕ)
    → All IsIndex os
    → i < length os
    → (o : Ofr) × (get_elem? os i ≡ some o) × (is_not_structured o ≡ false)
structured_entry [] i h k = absurd (omega arith)
structured_entry (o ∷ os) zero h k = (o, refl, structured_index o h.0)
structured_entry (o ∷ os) (suc i) h k = structured_entry os i h.1 (omega arith)

add_shape-IsPlain :
    (l r : PtrState) (rank k i n : ℕ)
    → IsPlain l rank
    → IsPlain r rank
    → k + i ≡ rank
    → add_shape k i l r n ≡ ok (zeros k) n
unfolding add_shape
add_shape-IsPlain l r rank zero i n h j e = refl
add_shape-IsPlain l r rank (suc k) i n h j e =
    let o = structured_entry l.offsets i h.offsets_index (omega (arith, h.offsets_rank)) in
    let p = structured_entry r.offsets i j.offsets_index (omega (arith, j.offsets_rank)) in
    rw
      (
        o.1,
        p.1,
        shape_entry l rank i h (omega arith),
        o.2,
        p.2,
        dim_has_modulo-IsPlain l rank i n h (omega arith),
        add_shape-IsPlain l r rank k (suc i) n h j (omega arith),
      )
      refl

pub add_shapes-IsPlain :
    (l r : PtrState) (rank n : ℕ)
    → IsPlain l rank
    → IsPlain r rank
    → add_shapes l r rank n ≡ ok (zeros rank) n
unfolding add_shapes either_modulo
add_shapes-IsPlain l r rank n h j =
    rw
      (
        has_modulo-IsPlain l rank n h,
        has_modulo-IsPlain l rank n h,
        has_modulo-IsPlain r rank n j,
        has_modulo-IsPlain r rank n j,
      )
      (add_shape-IsPlain l r rank rank 0 n h j (omega arith))

-- A sequence whose first part is itself one.
pub then_do_assoc {ℓ κ μ} :
    {A : Type ℓ} {B : Type κ} {C : Type μ} (m : Outcome A) (f : A → M B) (g : B → M C) (h : A → M C)
    → ((a : A) (n : ℕ) → then_do (f a n) g ≡ h a n)
    → then_do (then_do m f) g ≡ then_do m h
then_do_assoc (ok a n) f g h k = k a n
then_do_assoc failed f g h k = refl
then_do_assoc fault f g h k = refl

pub add_dims-combine_axes :
    (analysing : Bool) (no_modulo : M (Unit {0})) (os ps ss ts : List Ofr) (n : ℕ)
    → All IsIndex os
    → All IsIndex ps
    → add_dims analysing no_modulo os ps ss ts n ≡ combine_axes add_ofrs os ps ss ts n
unfolding add_dims add_dim combine_axes
add_dims-combine_axes analysing no_modulo (o ∷ os) (p ∷ ps) (s ∷ ss) (t ∷ ts) n h j =
    rw (structured_index o h.0, structured_index p j.0)
      (then_do_assoc (add_ofrs o p n) _ _ _ λ offset i.
        then_do_assoc (add_ofrs s t i) _ _ _
          λ stride k. rw (add_dims-combine_axes analysing no_modulo os ps ss ts k h.1 j.1) refl)
add_dims-combine_axes analysing no_modulo [] ps ss ts n h j = refl
add_dims-combine_axes analysing no_modulo (o ∷ os) [] ss ts n h j = refl
add_dims-combine_axes analysing no_modulo (o ∷ os) (p ∷ ps) [] ts n h j = refl
add_dims-combine_axes analysing no_modulo (o ∷ os) (p ∷ ps) (s ∷ ss) [] n h j = refl

pub add_scalars-combine_scalars :
    (rank n : ℕ) (a b : Option Value) → add_scalars rank a b n ≡ combine_scalars addi rank a b n
unfolding add_scalars combine_scalars
add_scalars-combine_scalars rank n (some a) (some b) = refl
add_scalars-combine_scalars rank n (some a) none = refl
add_scalars-combine_scalars rank n none b = ground arith
