-- ===== src/Structured/Ranks/Visits.antt =====
-- The lengths in the visitors of sums, products, differences and remainders.
use spine_triton.Prelude.{
  ℕ, length, set, ◌==◌, not, Option, none, some, [], ◌∷◌, ◌≡◌, refl, ◌∙◌, arith,
}
use spine_triton.Ir.{Ty, scalar, tensor, memref, type_of, Value, M, check, pure, fail}
use spine_triton.Ofr.{Ofr, value}
use spine_triton.Structured.State.{
  PtrState, empty_state, get_rank, has_value, has_modulo, is_structured, get_non_structured_dim,
}
use spine_triton.Structured.Sum.{add_state}
use spine_triton.Structured.Product.{mul_state}
use spine_triton.Structured.Visit.{
  Context, with_origins, gather_scatter, clear_modulos, check_mode, either_line, visit_add,
  visit_mul, negate_state, visit_sub, modulo_dim, modulo_two_dims, apply_modulo, rem_of, visit_rem,
  visit_addptr,
}
use spine_triton.Structured.Ranks.{
  IsEven, Makes, Makes-bind, Makes-after, Makes-if, Makes-check, unsupported-IsEven,
  gather_scatter-IsEven, length-set,
}
use spine_triton.Structured.Ranks.Arithmetic.{add_state-IsEven, mul_state-IsEven}

pub empty-IsEven : IsEven empty_state
empty-IsEven = record { sizes_even = refl; strides_even = refl; shape_even = refl }

pub with_origins-IsEven : (s : PtrState) → IsEven s → IsEven (with_origins s)
with_origins-IsEven s h = record {
  sizes_even = h.sizes_even;
  strides_even = h.strides_even;
  shape_even = h.shape_even;
}

pub visit_add-IsEven :
    (cx : Context) (a b : Value) (lhs rhs : M PtrState) (n : ℕ)
    → Makes IsEven (visit_add cx a b lhs rhs n)
unfolding visit_add
visit_add-IsEven cx a b lhs rhs n = Makes-after IsEven (lhs n) _ λ l i.
    Makes-after IsEven (rhs i) _ λ r j. Makes-after IsEven (either_line l r j) _ λ bad k.
      Makes-if IsEven bad fail _ k tt (
        Makes-after IsEven (clear_modulos cx a b l r k) _ λ c t.
          Makes-after IsEven (check_mode cx t) _ λ _ u.
            Makes-bind IsEven (add_state cx.is_analysing_unstructured c.0 c.1 u) _
              (add_state-IsEven _ c.0 c.1 u) (λ s v h. with_origins-IsEven s h))

pub visit_mul-IsEven :
    (cx : Context) (a b : Value) (lhs rhs : M PtrState) (n : ℕ)
    → Makes IsEven (visit_mul cx a b lhs rhs n)
unfolding visit_mul
visit_mul-IsEven cx a b lhs rhs n = Makes-after IsEven (lhs n) _ λ l i.
    Makes-after IsEven (rhs i) _ λ r j. Makes-after IsEven (clear_modulos cx a b l r j) _ λ c t.
      Makes-after IsEven (check_mode cx t) _ λ _ u.
        Makes-bind IsEven (mul_state cx.is_analysing_unstructured c.0 c.1 u) _
          (mul_state-IsEven _ c.0 c.1 u) (λ s v h. with_origins-IsEven s h)

pub visit_sub-IsEven :
    (cx : Context) (lhs rhs : M PtrState) (n : ℕ) → Makes IsEven (visit_sub cx lhs rhs n)
unfolding visit_sub
visit_sub-IsEven cx lhs rhs n = Makes-after IsEven (lhs n) _ λ l i.
    Makes-after IsEven (rhs i) _ λ r j. Makes-after IsEven (negate_state r j) _ λ g k.
      Makes-bind IsEven (add_state cx.is_analysing_unstructured l g k) _ (add_state-IsEven _ l g k)
        (λ s v h. with_origins-IsEven s h)

pub visit_addptr-IsEven :
    (cx : Context) (ptr offset : M PtrState) (n : ℕ) → Makes IsEven (visit_addptr cx ptr offset n)
unfolding visit_addptr
visit_addptr-IsEven cx ptr offset n = Makes-after IsEven (ptr n) _ λ p i.
    Makes-after IsEven (offset i) _ λ o j.
      Makes-after IsEven (check (has_value p.source) j) _ λ _ a.
        Makes-after IsEven (get_rank p a) _ λ k b. Makes-after IsEven (get_rank o b) _ λ k' c.
          Makes-after IsEven (check (k == k') c) _ λ _ e.
            Makes-after IsEven (check_mode cx e) _ λ _ f.
              Makes-bind IsEven (add_state cx.is_analysing_unstructured p o f) _
                (add_state-IsEven _ p o f)
                (λ s v h. record {
                  sizes_even = h.sizes_even;
                  strides_even = h.strides_even;
                  shape_even = h.shape_even;
                })

-- The shape of one dimension is replaced.
set_shape-IsEven :
    (s : PtrState) (dim : ℕ) (e : Ofr)
    → IsEven s
    → length (set s.shape dim e) ≡ length s.shape
    → IsEven (with_origins (record s { shape = set s.shape dim e }))
set_shape-IsEven s dim e h k = record {
  sizes_even = h.sizes_even;
  strides_even = h.strides_even;
  shape_even = k ∙ h.shape_even;
}

modulo_dim-IsEven :
    (cx : Context) (s : PtrState) (v m : Value) (dim n : ℕ)
    → IsEven s
    → Makes IsEven (modulo_dim cx s v m dim n)
unfolding modulo_dim
modulo_dim-IsEven cx s v m dim n h = ground (
  arith,
  gather_scatter-IsEven s v dim n h,
  set_shape-IsEven s dim (value m) h (length-set s.shape dim (value m)),
)

two_dims-IsEven :
    (cx : Context) (s : PtrState) (v m : Value) (t : Ty) (n : ℕ)
    → IsEven s
    → Makes IsEven (modulo_two_dims cx s v m t n)
unfolding modulo_two_dims
two_dims-IsEven cx s v m (tensor (a ∷ b ∷ shape) e) n h =
    Makes-if IsEven (a == 1) _ _ n (modulo_dim-IsEven cx s v m 1 n h)
      (Makes-if IsEven (b == 1) _ _ n (modulo_dim-IsEven cx s v m 0 n h) tt)
two_dims-IsEven cx s v m (tensor (a ∷ []) e) n h = tt
two_dims-IsEven cx s v m (tensor [] e) n h = tt
two_dims-IsEven cx s v m (scalar e) n h = tt
two_dims-IsEven cx s v m (memref shape e) n h = tt

apply_modulo-IsEven :
    (cx : Context) (s : PtrState) (v m : Value) (n : ℕ)
    → IsEven s
    → Makes IsEven (apply_modulo cx s v m n)
unfolding apply_modulo
apply_modulo-IsEven cx s v m n h = Makes-after IsEven (get_rank s n) _ λ rank i.
    Makes-if IsEven (rank == 1) _ _ i (modulo_dim-IsEven cx s v m 0 i h)
      (Makes-if IsEven (rank == 2) _ _ i (two_dims-IsEven cx s v m (type_of v) i h) tt)

gathered-IsEven :
    (cx : Context) (s : PtrState) (v : Value) (dim n : ℕ)
    → IsEven s
    → Makes IsEven (gather_scatter cx s v (pure dim) n)
unfolding gather_scatter
gathered-IsEven cx s v dim n h = ground (arith, gather_scatter-IsEven s v dim n h)

rem_of-IsEven :
    (cx : Context) (v : Value) (m : Option Value) (lhs : M PtrState) (n : ℕ)
    → Makes IsEven (lhs n)
    → Makes IsEven (rem_of cx v m lhs n)
unfolding rem_of
rem_of-IsEven cx v none lhs n h = tt
rem_of-IsEven cx v (some m) lhs n h = Makes-bind IsEven (lhs n) _ h λ s i e.
    Makes-if IsEven (not (is_structured s)) _ _ i
      (Makes-after IsEven (get_non_structured_dim s i) _ λ dim j. gather_scatter-IsEven s v dim j e)
      (Makes-after IsEven (has_modulo s i) _ λ again j.
        Makes-if IsEven again _ _ j
          (Makes-after IsEven (get_rank s j) _
            λ rank k. Makes-if IsEven (rank == 1) _ _ k (gathered-IsEven cx s v 0 k e) tt)
          (apply_modulo-IsEven cx s v m j e))

pub visit_rem-IsEven :
    (cx : Context) (v : Value) (lhs rhs : M PtrState) (n : ℕ)
    → ((i : ℕ) → Makes IsEven (lhs i))
    → Makes IsEven (visit_rem cx v lhs rhs n)
unfolding visit_rem
visit_rem-IsEven cx v lhs rhs n h =
    Makes-if IsEven cx.is_analysing_unstructured _ _ n
      (Makes-check IsEven cx.enable_gather_scatter _ n
        λ _. unsupported-IsEven empty_state v n empty-IsEven)
      (Makes-after IsEven (rhs n) _ λ r i. rem_of-IsEven cx v r.scalar lhs i (h i))
