-- ===== src/Structured/Plain/Sums.antt =====
-- addState on plain states, against the memref analysis and against sums of displacements.
use spine_triton.Prelude.{
  or_true, ℕ, zero, suc, ◌==◌, length-replicate, replicate, List, [], Bool, true, false, ◌&&◌,
  Option, none, some, ℤ, ◌+ℤ◌, ◌≡◌, refl, sym, ◌∙◌, arith, Congruent,
}
use spine_triton.Ir.{Value, ok, then_do, pure, Interp, Returns, Returns-bind, addi}
use spine_triton.Ofr.{add_ofrs}
use spine_triton.Ptr.State.{combine_scalars, combine_axes, combine_states, combine_modulos}
use spine_triton.Ptr.State
use spine_triton.Ptr.Visit.{zeros}
use spine_triton.Ptr.Meaning.{total, walk, IsPtrState}
use spine_triton.Ptr.States.{IsIndexScalar, ScalarOf, add_state_sound}
use spine_triton.Structured.State.{PtrState, has_value, or_else}
use spine_triton.Structured.Sum.{assert_no_modulo, add_state}
use spine_triton.Structured.Plain.{
  IsPlain, get_rank-IsPlain, same_unstructured_dim-IsPlain, add_shapes-IsPlain,
  add_dims-combine_axes, add_scalars-combine_scalars, then_do_assoc,
}

-- A plain state in the memref analysis.
abbrev pub as_memref_state : ℕ → PtrState → State.PtrState
as_memref_state rank s = record {
  offsets = s.offsets;
  sizes = s.sizes;
  strides = s.strides;
  modulos = replicate rank none;
  source = s.source;
  scalar = s.scalar;
}

abbrev pub of_memref_state : ℕ → State.PtrState → PtrState
of_memref_state rank s = record {
  offsets = s.offsets;
  origi_offsets = [];
  sizes = s.sizes;
  strides = s.strides;
  shape = zeros rank;
  order = [];
  source = s.source;
  scalar = s.scalar;
}

has_value-same : (v : Option Value) → State.has_value v ≡ has_value v
has_value-same none = refl
has_value-same (some v) = refl

or_else-same : (v w : Option Value) → State.or_else v w ≡ or_else v w
or_else-same none w = refl
or_else-same (some v) w = refl

any_value-none : (n : ℕ) → State.any_value (replicate n none) ≡ false
any_value-none zero = refl
any_value-none (suc n) = any_value-none n

same_rank : (n : ℕ) → (n == n) ≡ true
same_rank n = ground arith

get_rank-memref :
    (s : PtrState) (rank n : ℕ)
    → IsPlain s rank
    → State.get_rank (as_memref_state rank s) n ≡ ok rank n
unfolding State.get_rank
get_rank-memref s rank n h =
    let e = length-replicate {A = Option Value} rank none in
    ground (arith, h.offsets_rank, h.sizes_rank, h.strides_rank, e)

-- addState of two plain states of one rank, at most one of them with a source, in either analysis,
-- is addState of the memref analysis.
pub add_state_agrees :
    (analysing : Bool) (l r : PtrState) (rank n : ℕ)
    → IsPlain l rank
    → IsPlain r rank
    → (has_value l.source && has_value r.source) ≡ false
    → add_state analysing l r n
      ≡ then_do
          (State.add_state (as_memref_state rank l) (as_memref_state rank r) n)
          (λ s. pure (of_memref_state rank s))
unfolding add_state State.add_state combine_states
add_state_agrees analysing l r rank n h j one =
    rw
      (
        get_rank-IsPlain l rank n h,
        get_rank-IsPlain r rank n j,
        same_rank rank,
        get_rank-memref l rank n h,
        get_rank-memref r rank n j,
        same_rank rank,
        any_value-none rank,
        has_value-same l.source,
        has_value-same r.source,
        one,
        or_else-same l.source r.source,
        or_true (rank == 0),
        add_scalars-combine_scalars rank n l.scalar r.scalar,
      )
      (sym (
        then_do_assoc (combine_scalars addi rank l.scalar r.scalar n) _ _ _ λ scalar i.
          rw
            (
              same_unstructured_dim-IsPlain l r rank i h,
              add_dims-combine_axes analysing (assert_no_modulo l r) l.offsets r.offsets l.strides
                  r.strides i h.offsets_index j.offsets_index,
            )
            (then_do_assoc (combine_axes add_ofrs l.offsets r.offsets l.strides r.strides i) _ _ _
              λ axes k. rw (add_shapes-IsPlain l r rank k h j) refl)))

IsPtrState-as_memref_state :
    (s : PtrState) (rank : ℕ) → IsPlain s rank → IsPtrState (as_memref_state rank s) rank
IsPtrState-as_memref_state s rank h = record {
  offsets_index = h.offsets_index;
  strides_index = h.strides_index;
  offsets_rank = h.offsets_rank;
  sizes_rank = h.sizes_rank;
  strides_rank = h.strides_rank;
  modulos_rank = length-replicate rank none;
}

module _ (I : Interp) where
  -- Where a state walks, its source and its scalar aside.
  abbrev pub displacement : PtrState → List ℕ → ℤ
  displacement s idx = total I s.offsets +ℤ walk I s.strides idx

  pub record IsSum (l r s : PtrState) (rank : ℕ) : Type 0 where
    pub plain : IsPlain s rank
    pub sizes : s.sizes ≡ l.sizes
    pub source : s.source ≡ or_else l.source r.source
    pub scalar : ScalarOf I (λ a b. a +ℤ b) rank l.scalar r.scalar s.scalar
    pub displaced :
        (idx : List ℕ) → Congruent (displacement s idx) (displacement l idx +ℤ displacement r idx)

  -- addState, in either analysis, of two plain states of one rank, at most one of them with a source,
  -- returns a plain state of that rank with the left sizes and the source of either, and in every run
  -- the sum of the displacements at every index and of the scalars where both have one, up to a
  -- multiple of 2^64.
  pub add_state-IsSum :
      (analysing : Bool) (l r : PtrState) (rank n : ℕ)
      → IsPlain l rank
      → IsPlain r rank
      → IsIndexScalar l.scalar
      → IsIndexScalar r.scalar
      → (has_value l.source && has_value r.source) ≡ false
      → Returns (λ s m. IsSum l r s rank) (add_state analysing l r n)
  add_state-IsSum analysing l r rank n h j sl sr one =
      rw (add_state_agrees analysing l r rank n h j one) (
        Returns-bind (λ s m. IsSum l r s rank)
          (State.add_state (as_memref_state rank l) (as_memref_state rank r) n) _
          (add_state_sound I (as_memref_state rank l) (as_memref_state rank r) rank n
            (IsPtrState-as_memref_state l rank h) (IsPtrState-as_memref_state r rank j) sl sr
            (rw (has_value-same l.source, has_value-same r.source) one)
            (rw (any_value-none rank) refl))
          λ s m c. record {
            plain = record {
              offsets_index = c.well.offsets_index;
              strides_index = c.well.strides_index;
              offsets_rank = c.well.offsets_rank;
              sizes_rank = c.well.sizes_rank;
              strides_rank = c.well.strides_rank;
              shape_zeros = refl;
              no_order = refl;
            };
            sizes = c.sizes_lem;
            source = c.source_lem ∙ or_else-same l.source r.source;
            scalar = c.scalar_lem;
            displaced = c.displacement_lem;
          })
