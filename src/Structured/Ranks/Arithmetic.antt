-- ===== src/Structured/Ranks/Arithmetic.antt =====
-- The lengths in addState, mulState and mergeUnstructuredState.
use spine_triton.Prelude.{
  ℕ, zero, suc, ◌+◌, length, get_elem?, leb, ◌==◌, Bool, not, ◌&&◌, ◌||◌, Option, none, some, List,
  [], ◌∷◌, ◌≡◌, refl, sym, ap, ◌∙◌, arith, if◌then◌else◌, pos,
}
use spine_triton.Ir.{Value, M, then_do, check, pure, fail, ◌>>=◌, ◌>>◌}
use spine_triton.Ofr.{Ofr, value, index_attr, has_const_zero}
use spine_triton.Structured.State.{
  PtrState, get_rank, is_block_ptr, has_modulo, dim_has_modulo, required, is_not_structured,
  has_value, both, is_structured, get_non_structured_dim,
}
use spine_triton.Structured.Sum.{
  add_dim, add_dims, add_shape, add_shapes, assert_no_modulo, either_modulo, add_state, add_scalars,
  same_unstructured_dim,
}
use spine_triton.Structured.Product.{
  mul_dim, mul_dims, dim_not_wrapping, scale_state, mul_by_scalars, mul_scalars, mul_state,
  merge_unstructured_state,
}
use spine_triton.Structured.Ranks.{
  IsEven, Makes, Makes-bind, Makes-after, Makes-if, Makes-check, get_rank-IsEven, set-IsEven,
}

abbrev Pairs : ℕ → List Ofr × List Ofr → Type 0
Pairs k d = (length d.0 ≡ k) × (length d.1 ≡ k)

length-add_dims :
    (analysing : Bool) (a : M (Unit {0})) (os ps ss ts : List Ofr) (k n : ℕ)
    → length os ≡ k
    → length ps ≡ k
    → length ss ≡ k
    → length ts ≡ k
    → Makes (Pairs k) (add_dims analysing a os ps ss ts n)
unfolding add_dims
length-add_dims b a [] ps ss ts k n p q r s = (p, p)
length-add_dims b a (o ∷ os) [] ss ts k n p q r s = absurd (omega arith)
length-add_dims b a (o ∷ os) (x ∷ ps) [] ts k n p q r s = absurd (omega arith)
length-add_dims b a (o ∷ os) (x ∷ ps) (y ∷ ss) [] k n p q r s = absurd (omega arith)
length-add_dims b a (o ∷ os) (x ∷ ps) (y ∷ ss) (z ∷ ts) zero n p q r s = absurd (omega arith)
length-add_dims b a (o ∷ os) (x ∷ ps) (y ∷ ss) (z ∷ ts) (suc k) n p q r s =
    Makes-after (Pairs (suc k)) (add_dim b a o x y z n) _ λ d i.
      Makes-bind (Pairs (suc k)) (add_dims b a os ps ss ts i) _
        (length-add_dims b a os ps ss ts k i (omega arith) (omega arith) (omega arith)
          (omega arith))
        (λ rest j h. (ap suc h.0, ap suc h.1))

length-add_shape :
    (k i : ℕ) (l r : PtrState) (n : ℕ)
    → k + i ≡ length l.offsets
    → Makes (λ es. length es ≡ k) (add_shape k i l r n)
unfolding add_shape
length-add_shape zero i l r n h = refl
length-add_shape (suc k) i l r n h =
    let ih : (j : ℕ) → Makes (λ es. length es ≡ k) (add_shape k (suc i) l r j) =
      λ j. length-add_shape k (suc i) l r j (omega arith) in
    Makes-after Q (required (get_elem? l.offsets i) n) _ λ o a.
      Makes-after Q (required (get_elem? r.offsets i) a) _ λ p b.
        Makes-after Q (required (get_elem? l.shape i) b) _ λ e c.
          Makes-if Q (is_not_structured o || is_not_structured p) _ _ c
            (longer ih (index_attr (pos 0)) c)
            (Makes-after Q (dim_has_modulo l i c) _ λ m j.
              Makes-if Q (not m) _ _ j (longer ih e j) (
                Makes-after Q (has_const_zero p j) _
                  λ z t. Makes-if Q z _ _ t (longer ih e t) (swapped e t)))
  where
    Q : List Ofr → Type 0
    Q es = length es ≡ suc k

    longer :
        ((j : ℕ) → Makes (λ es. length es ≡ k) (add_shape k (suc i) l r j))
        → (e : Ofr) (j : ℕ)
        → Makes Q (then_do (add_shape k (suc i) l r j) (λ rest. pure (e ∷ rest)))
    longer ih e j = Makes-bind Q (add_shape k (suc i) l r j) _ (ih j) (λ rest t h. ap suc h)

    swapped :
        (e : Ofr) (t : ℕ)
        → Makes Q (
            (if i == 0 && length l.offsets == 2 && has_value r.scalar
                then (required (get_elem? l.shape 1) >>= λ second. pure (second ∷ e ∷ []))
                else fail)
              t)
    swapped e t = ground arith

-- The two sides have one rank.
length-add_shapes :
    (l r : PtrState) (rank n : ℕ)
    → rank ≡ length l.offsets
    → rank ≡ length r.offsets
    → Makes (λ es. length es ≡ rank) (add_shapes l r rank n)
unfolding add_shapes
length-add_shapes l r rank n h k = Makes-after Q (both (has_modulo l) (has_modulo r) n) _ λ two a.
    Makes-if Q two _ _ a tt (
      Makes-after Q (either_modulo l r a) _ λ m b.
        Makes-after Q ((check (not m || leb rank 2) >> has_modulo r) b) _ λ swap e.
          Makes-if Q swap _ _ e (length-add_shape rank 0 r l e (omega arith))
            (length-add_shape rank 0 l r e (omega arith)))
  where
    Q : List Ofr → Type 0
    Q es = length es ≡ rank

pub add_state-IsEven :
    (analysing : Bool) (l r : PtrState) (n : ℕ) → Makes IsEven (add_state analysing l r n)
unfolding add_state
add_state-IsEven b l r n = Makes-bind IsEven (get_rank l n) _ (get_rank-IsEven l n) λ k i hl.
    Makes-bind IsEven (get_rank r i) _ (get_rank-IsEven r i) λ k' j hr.
      Makes-check IsEven (k == k') _ j λ e.
        Makes-if IsEven (has_value l.source && has_value r.source) _ _ j tt (
          Makes-after IsEven (add_scalars k l.scalar r.scalar j) _ λ v a.
            Makes-after IsEven (same_unstructured_dim l r a) _ λ _ c.
              Makes-bind IsEven
                (add_dims b (assert_no_modulo l r) l.offsets r.offsets l.strides r.strides c) _
                (length-add_dims b (assert_no_modulo l r) l.offsets r.offsets l.strides r.strides k
                  c (sym hl.1) (ground arith) (hl.0.strides_even ∙ sym hl.1)
                  (ground (arith, hr.0.strides_even)))
                λ d t hd.
                  Makes-bind IsEven (add_shapes l r k t) _
                    (length-add_shapes l r k t hl.1 (ground arith))
                    λ es u he. record {
                      sizes_even = hl.0.sizes_even ∙ sym hl.1 ∙ sym hd.0;
                      strides_even = hd.1 ∙ sym hd.0;
                      shape_even = he ∙ sym hd.0;
                    })

abbrev Triples : ℕ → List Ofr × List Ofr × List Ofr → Type 0
Triples k d = (length d.0 ≡ k) × (length d.1 ≡ k) × (length d.2 ≡ k)

length-mul_dims :
    (analysing block : Bool) (a : M (Unit {0})) (f : Ofr) (os ss es : List Ofr) (k n : ℕ)
    → length os ≡ k
    → length ss ≡ k
    → length es ≡ k
    → Makes (Triples k) (mul_dims analysing block a f os ss es n)
unfolding mul_dims
length-mul_dims b c a f [] ss es k n p q r = (p, p, p)
length-mul_dims b c a f (o ∷ os) [] es k n p q r = absurd (omega arith)
length-mul_dims b c a f (o ∷ os) (x ∷ ss) [] k n p q r = absurd (omega arith)
length-mul_dims b c a f (o ∷ os) (x ∷ ss) (y ∷ es) zero n p q r = absurd (omega arith)
length-mul_dims b c a f (o ∷ os) (x ∷ ss) (y ∷ es) (suc k) n p q r =
    Makes-after (Triples (suc k)) (mul_dim b (dim_not_wrapping c y) a f o x y n) _ λ d i.
      Makes-bind (Triples (suc k)) (mul_dims b c a f os ss es i) _
        (length-mul_dims b c a f os ss es k i (omega arith) (omega arith) (omega arith))
        (λ rest j h. (ap suc h.0, ap suc h.1, ap suc h.2))

scale_state-IsEven :
    (analysing : Bool) (v : Option Value) (l r : PtrState) (k : Value) (n : ℕ)
    → IsEven l
    → Makes IsEven (scale_state analysing v l r k n)
unfolding scale_state
scale_state-IsEven b v l r k n h =
    Makes-bind IsEven
      (mul_dims b (is_block_ptr l) (no_modulo l) (value k) l.offsets l.strides l.shape n) _
      (length-mul_dims b (is_block_ptr l) (no_modulo l) (value k) l.offsets l.strides l.shape
        (length l.offsets) n refl h.strides_even h.shape_even)
      λ d i hd. Makes-after IsEven (has_modulo r i) _ λ m j. Makes-if IsEven m _ _ j tt (record {
        sizes_even = h.sizes_even ∙ sym hd.0;
        strides_even = hd.1 ∙ sym hd.0;
        shape_even = hd.2 ∙ sym hd.0;
      })
  where
    no_modulo : PtrState → M (Unit {0})
    no_modulo l = has_modulo l >>= λ m. check (not m)

mul_by_scalars-IsEven :
    (analysing : Bool) (a b : Option Value) (l r : PtrState) (n : ℕ)
    → IsEven l
    → IsEven r
    → Makes IsEven (mul_by_scalars analysing a b l r n)
unfolding mul_by_scalars mul_scalars
mul_by_scalars-IsEven c none none l r n h k = tt
mul_by_scalars-IsEven c (some a) none l r n h k = scale_state-IsEven c none r l a n k
mul_by_scalars-IsEven c none (some b) l r n h k = scale_state-IsEven c none l r b n h
mul_by_scalars-IsEven c (some a) (some b) l r n h k = scale_state-IsEven c _ l r b _ h

pub mul_state-IsEven :
    (analysing : Bool) (l r : PtrState) (n : ℕ) → Makes IsEven (mul_state analysing l r n)
unfolding mul_state
mul_state-IsEven b l r n = Makes-bind IsEven (get_rank l n) _ (get_rank-IsEven l n) λ k i hl.
    Makes-bind IsEven (get_rank r i) _ (get_rank-IsEven r i) λ k' j hr.
      Makes-after IsEven (check (k == k') j) _ λ _ t.
        Makes-if IsEven (has_value l.source && has_value r.source) _ _ t tt
          (mul_by_scalars-IsEven b l.scalar r.scalar l r t hl.0 hr.0)

pub merge-IsEven :
    (s other : PtrState) (n : ℕ) → IsEven s → Makes IsEven (merge_unstructured_state s other n)
unfolding merge_unstructured_state
merge-IsEven s other n h = Makes-if IsEven (is_structured s || is_structured other) _ _ n tt (
    Makes-after IsEven (get_non_structured_dim other n) _ λ dim a.
      Makes-after IsEven (get_non_structured_dim s a) _ λ mine b.
        Makes-after IsEven (get_rank s b) _ λ rank c.
          Makes-after IsEven (get_rank other c) _ λ rank' e.
            Makes-if IsEven (not (dim == mine) || not (rank == rank')) _ _ e tt (
              Makes-after IsEven (required (get_elem? other.offsets dim) e) _ λ o x.
                Makes-after IsEven (required (get_elem? other.strides dim) x) _ λ t y.
                  Makes-after IsEven (required (get_elem? other.shape dim) y) _
                    λ g z. set-IsEven s dim o t g h))
