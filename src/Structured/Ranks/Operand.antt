-- ===== src/Structured/Ranks/Operand.antt =====
-- The lengths in the visitors of operations that make and shape tensors.
use spine_triton.Prelude.{
  ℕ, zero, suc, length, get_elem?, ltb, leb, ◌==◌, not, ◌||◌, Option, none, some, List, [], ◌∷◌,
  ◌++◌, ◌≡◌, refl, sym, ap, ◌∙◌, pos, length-map, length-replicate,
}
use spine_triton.Ir.{
  Ty, shape_of, is_shaped, is_integer, is_integer_ty, is_index_ty, is_pointer_ty, element_type,
  ConstAttr, integer_attr, dense_splat, dense_other, Value, M, check, pure, fail, ◌>>=◌,
  create_constant,
}
use spine_triton.Ofr.{Ofr, index_attr}
use spine_triton.Ptr.Visit.{insert_axis, broadcast_sizes, zeros, extents}
use spine_triton.Structured.State.{PtrState, required, both, has_modulo, get_rank}
use spine_triton.Structured.Visit.{
  at_most_two_with_modulo, visit_expand_dims, visit_broadcast, first_offset, visit_splat,
  const_offsets, const_state, visit_const_splat, visit_alloc,
}
use spine_triton.Structured.Ranks.{IsEven, Makes, Makes-bind, Makes-after, Makes-if, append-IsEven}
use spine_triton.Structured.Ranks.Visits.{with_origins-IsEven}

at_most_two-IsEven : (s : PtrState) (n : ℕ) → IsEven s → Makes IsEven (at_most_two_with_modulo s n)
unfolding at_most_two_with_modulo
at_most_two-IsEven s n h =
    Makes-after IsEven (both (has_modulo s) (get_rank s >>= λ rank. pure (ltb 2 rank)) n) _
      λ bad i. Makes-if IsEven bad fail _ i tt h

length-insert_axis :
    (axis : ℕ) (d : Ofr) (ds : List Ofr) (n : ℕ)
    → Makes (λ es. length es ≡ suc (length ds)) (insert_axis axis d ds n)
unfolding insert_axis
length-insert_axis zero d ds n = refl
length-insert_axis (suc axis) d [] n = tt
length-insert_axis (suc axis) d (e ∷ ds) n =
    Makes-bind (λ es. length es ≡ suc (suc (length ds))) (insert_axis axis d ds n) _
      (length-insert_axis axis d ds n) (λ rest i h. ap suc h)

pub expand_dims-IsEven :
    (dst : Ty) (axis : ℕ) (src : M PtrState) (n : ℕ)
    → Makes IsEven (src n)
    → Makes IsEven (visit_expand_dims dst axis src n)
unfolding visit_expand_dims
expand_dims-IsEven dst axis src n h = Makes-bind IsEven (src n) _ h λ s i e.
    Makes-after IsEven (required (get_elem? (shape_of dst) axis) i) _ λ x j.
      Makes-after IsEven (check (x == 1) j) _ λ _ k.
        Makes-bind IsEven (insert_axis axis (index_attr (pos 0)) s.offsets k) _
          (length-insert_axis axis _ s.offsets k)
          λ os a ha.
            Makes-bind IsEven (insert_axis axis (index_attr (pos 1)) s.sizes a) _
              (length-insert_axis axis _ s.sizes a)
              λ ns b hb.
                Makes-bind IsEven (insert_axis axis (index_attr (pos 0)) s.strides b) _
                  (length-insert_axis axis _ s.strides b)
                  λ ss c hc.
                    Makes-bind IsEven (insert_axis axis (index_attr (pos 0)) s.shape c) _
                      (length-insert_axis axis _ s.shape c)
                      λ es t ht. at_most_two-IsEven _ t (record {
                        sizes_even = hb ∙ ap suc e.sizes_even ∙ sym ha;
                        strides_even = hc ∙ ap suc e.strides_even ∙ sym ha;
                        shape_even = ht ∙ ap suc e.shape_even ∙ sym ha;
                      })

length-broadcast_sizes :
    (ms ns : List ℕ) (ds : List Ofr) (n : ℕ)
    → Makes (λ es. length es ≡ length ds) (broadcast_sizes ms ns ds n)
unfolding broadcast_sizes
length-broadcast_sizes [] ns ds n = refl
length-broadcast_sizes (m ∷ ms) [] ds n = tt
length-broadcast_sizes (m ∷ ms) (k ∷ ns) [] n =
    Makes-after (λ es. length es ≡ 0) (check (m == k) n) _ λ _ i. length-broadcast_sizes ms ns [] i
length-broadcast_sizes (m ∷ ms) (k ∷ ns) (d ∷ ds) n =
    Makes-after (λ es. length es ≡ suc (length ds)) (check (leb m k) n) _
      λ _ i.
        Makes-bind (λ es. length es ≡ suc (length ds)) (broadcast_sizes ms ns ds i) _
          (length-broadcast_sizes ms ns ds i) (λ rest j h. ap suc h)

pub broadcast-IsEven :
    (src dst : Ty) (parsed : M PtrState) (n : ℕ)
    → ((i : ℕ) → Makes IsEven (parsed i))
    → Makes IsEven (visit_broadcast src dst parsed n)
unfolding visit_broadcast
broadcast-IsEven src dst parsed n h = Makes-if IsEven (not (is_shaped src)) fail _ n tt (
    Makes-after IsEven (check (length (shape_of src) == length (shape_of dst)) n) _ λ _ i.
      Makes-bind IsEven (parsed i) _ (h i) λ s j e.
        Makes-bind IsEven (broadcast_sizes (shape_of src) (shape_of dst) s.sizes j) _
          (length-broadcast_sizes (shape_of src) (shape_of dst) s.sizes j)
          (λ ns k q. record {
            sizes_even = q ∙ e.sizes_even;
            strides_even = e.strides_even;
            shape_even = e.shape_even;
          }))

length-first_offset :
    (v : Option Value) (os : List Ofr) (n : ℕ)
    → Makes (λ es. length es ≡ length os) (first_offset v os n)
unfolding first_offset
length-first_offset none os n = refl
length-first_offset (some v) [] n = tt
length-first_offset (some v) (o ∷ os) n = refl

pub splat-IsEven :
    (src dst : Ty) (parsed : M PtrState) (n : ℕ)
    → ((i : ℕ) → Makes IsEven (parsed i))
    → Makes IsEven (visit_splat src dst parsed n)
unfolding visit_splat
splat-IsEven src dst parsed n h = Makes-bind IsEven (parsed n) _ (h n) λ s i e.
    Makes-if IsEven (is_integer_ty src || is_index_ty src || is_pointer_ty src) _ fail i
      (Makes-bind IsEven (first_offset s.scalar (s.offsets ++ more) i) _
        (length-first_offset s.scalar (s.offsets ++ more) i)
        λ os j ho.
          Makes-bind IsEven (at_most_two_with_modulo (filled s os) j) _
            (at_most_two-IsEven (filled s os) j (
              resized s os ho (
                append-IsEven s more (extents (shape_of dst)) more more {o = s.origi_offsets} e
                  (length-map (shape_of dst) (λ n. index_attr (pos n))
                    ∙ sym (length-replicate (length (shape_of dst)) (index_attr (pos 0))))
                  refl refl)))
            (λ t k ht. with_origins-IsEven t ht))
      tt
  where
    more : List Ofr
    more = zeros (length (shape_of dst))

    filled : PtrState → List Ofr → PtrState
    filled s os = record s {
      offsets = os;
      sizes = s.sizes ++ extents (shape_of dst);
      strides = s.strides ++ zeros (length (shape_of dst));
      shape = s.shape ++ zeros (length (shape_of dst));
    }

    resized :
        (s : PtrState) (os : List Ofr)
        → length os ≡ length (s.offsets ++ zeros (length (shape_of dst)))
        → IsEven (record s {
          offsets = s.offsets ++ zeros (length (shape_of dst));
          sizes = s.sizes ++ extents (shape_of dst);
          strides = s.strides ++ zeros (length (shape_of dst));
          shape = s.shape ++ zeros (length (shape_of dst));
        })
        → IsEven (record s {
          offsets = os;
          sizes = s.sizes ++ extents (shape_of dst);
          strides = s.strides ++ zeros (length (shape_of dst));
          shape = s.shape ++ zeros (length (shape_of dst));
        })
    resized s os e h = record {
      sizes_even = h.sizes_even ∙ sym e;
      strides_even = h.strides_even ∙ sym e;
      shape_even = h.shape_even ∙ sym e;
    }

length-const_offsets : (v : Value) (ns : List ℕ) → length (const_offsets v ns) ≡ length ns
length-const_offsets v [] = refl
length-const_offsets v (n ∷ ns) = ap suc (length-replicate (length ns) (index_attr (pos 0)))

pub const_splat-IsEven : (ty : Ty) (a : ConstAttr) (n : ℕ) → Makes IsEven (visit_const_splat ty a n)
unfolding visit_const_splat
const_splat-IsEven ty (integer_attr z) n = tt
const_splat-IsEven ty dense_other n = tt
const_splat-IsEven ty (dense_splat z) n =
    Makes-after IsEven (check (is_integer (element_type ty)) n) _ λ _ i.
      Makes-after IsEven (create_constant z i) _ λ v j.
        Makes-after IsEven (check (is_shaped ty) j) (λ _. pure (const_state v (shape_of ty)))
          λ _ k. even v
  where
    even : (v : Value) → IsEven (const_state v (shape_of ty))
    even v = record {
      sizes_even =
          length-map (shape_of ty) (λ n. index_attr (pos n))
          ∙ sym (length-const_offsets v (shape_of ty));
      strides_even =
          length-replicate (length (shape_of ty)) (index_attr (pos 0))
          ∙ sym (length-const_offsets v (shape_of ty));
      shape_even =
          length-replicate (length (shape_of ty)) (index_attr (pos 0))
          ∙ sym (length-const_offsets v (shape_of ty));
    }

pub alloc-IsEven : (v : Value) (dims : List ℕ) → IsEven (visit_alloc v dims)
unfolding visit_alloc
alloc-IsEven v dims =
    let e = sym (length-replicate (length dims) (index_attr (pos 0))) in
    record {
      sizes_even = length-map dims (λ n. index_attr (pos n)) ∙ e;
      strides_even = length-map dims (λ n. index_attr (pos 1)) ∙ e;
      shape_even = refl;
    }
