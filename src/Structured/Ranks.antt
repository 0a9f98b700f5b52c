-- ===== src/Structured/Ranks.antt =====
-- The lengths of the vectors of a state, which the assertion of getRank reads, and the properties of
-- what a call returns.
mod Arithmetic
pub mod Visits
pub mod Operand
pub mod Whole
use spine_triton.Prelude.{
  ℕ, zero, suc, ◌+◌, length, get_elem?, set, ltb, leb, ◌==◌, ==_iff, Bool, true, false, not, ◌&&◌,
  ◌||◌, Option, none, some, List, [], ◌∷◌, ◌++◌, map, length-append, length-map, length-replicate,
  ◌≡◌, refl, sym, ap, ap₂, ◌∙◌, arith, if◌then◌else◌, pos, Bool-cases, inl, inr,
}
use spine_triton.Ir.{
  Value, M, Outcome, ok, failed, fault, Ensures, then_do, check, pure, fail, crash, ◌>>=◌, ◌>>◌,
  type_of, shape_of,
}
use spine_triton.Ofr.{Ofr, value, index_attr, add_ofrs, mul_ofrs, sub_ofrs}
use spine_triton.Structured.State.{
  PtrState, empty_state, get_rank, unsupported_offsets, unsupported_strides,
  rebuild_as_unsupported_op, rebuild_as_gather_scatter, is_empty,
}

pub record IsEven (s : PtrState) : Type 0 where
  pub sizes_even : length s.sizes ≡ length s.offsets
  pub strides_even : length s.strides ≡ length s.offsets
  pub shape_even : length s.shape ≡ length s.offsets

-- Wherever a call returns, its result has the property.
abbrev pub Makes {ℓ} : {A : Type ℓ} → (A → Type 0) → Outcome A → Type 0
Makes P (ok a n) = P a
Makes P _ = Unit

pub Makes-bind {ℓ κ} :
    {A : Type ℓ} {B : Type κ} {P : A → Type 0} (Q : B → Type 0) (m : Outcome A) (f : A → M B)
    → Makes P m
    → ((a : A) (n : ℕ) → P a → Makes Q (f a n))
    → Makes Q (then_do m f)
Makes-bind Q (ok a n) f h k = k a n h
Makes-bind Q failed f h k = tt
Makes-bind Q fault f h k = tt

pub Makes-after {ℓ κ} :
    {A : Type ℓ} {B : Type κ} (Q : B → Type 0) (m : Outcome A) (f : A → M B)
    → ((a : A) (n : ℕ) → Makes Q (f a n))
    → Makes Q (then_do m f)
Makes-after Q (ok a n) f k = k a n
Makes-after Q failed f k = tt
Makes-after Q fault f k = tt

pub Makes-if {ℓ} :
    {A : Type ℓ} (Q : A → Type 0) (b : Bool) (m k : M A) (n : ℕ)
    → Makes Q (m n)
    → Makes Q (k n)
    → Makes Q ((if b then m else k) n)
Makes-if Q true m k n p q = p
Makes-if Q false m k n p q = q

pub Makes-check {ℓ} :
    {A : Type ℓ} (Q : A → Type 0) (b : Bool) (f : Unit {0} → M A) (n : ℕ)
    → (b ≡ true → Makes Q (f tt n))
    → Makes Q (then_do (check b n) f)
Makes-check Q true f n h = h refl
Makes-check Q false f n h = tt

pub length-set : {A : Type 0} (xs : List A) (i : ℕ) (a : A) → length (set xs i a) ≡ length xs
length-set [] i a = refl
length-set (x ∷ xs) zero a = refl
length-set (x ∷ xs) (suc i) a = ap suc (length-set xs i a)

length-unsupported_offsets :
    (v : Value) (ns : List ℕ) → length (unsupported_offsets v ns) ≡ length ns
length-unsupported_offsets v [] = refl
length-unsupported_offsets v (n ∷ ns) = ap suc (length-unsupported_offsets v ns)

length-unsupported_strides : (ns : List ℕ) → length (unsupported_strides ns) ≡ length ns
length-unsupported_strides [] = refl
length-unsupported_strides (n ∷ ns) = ap suc (length-unsupported_strides ns)

-- More dimensions behind those of a state.
pub append-IsEven :
    (s : PtrState) (os ns ss es : List Ofr) {o : List Ofr}
    → IsEven s
    → length ns ≡ length os
    → length ss ≡ length os
    → length es ≡ length os
    → IsEven (record s {
      offsets = s.offsets ++ os;
      origi_offsets = o;
      sizes = s.sizes ++ ns;
      strides = s.strides ++ ss;
      shape = s.shape ++ es;
    })
append-IsEven s os ns ss es h a b c = record {
  sizes_even = omega (arith, length-append s.sizes ns, length-append s.offsets os, h.sizes_even);
  strides_even =
      omega (arith, length-append s.strides ss, length-append s.offsets os, h.strides_even);
  shape_even = omega (arith, length-append s.shape es, length-append s.offsets os, h.shape_even);
}

pub unsupported-IsEven :
    (s : PtrState) (v : Value) (n : ℕ) → IsEven s → Makes IsEven (rebuild_as_unsupported_op s v n)
unfolding rebuild_as_unsupported_op
unsupported-IsEven s v n h =
    let shape = shape_of (type_of v) in
    ground (
      arith,
      append-IsEven s (unsupported_offsets v shape) (map (λ n. index_attr (pos n)) shape)
          (unsupported_strides shape) (map (λ n. index_attr (pos 0)) shape) {o = s.origi_offsets} h
          (length-map shape (λ n. index_attr (pos n)) ∙ sym (length-unsupported_offsets v shape))
          (length-unsupported_strides shape ∙ sym (length-unsupported_offsets v shape))
          (length-map shape (λ n. index_attr (pos 0)) ∙ sym (length-unsupported_offsets v shape)),
    )

pub set-IsEven :
    (s : PtrState) (i : ℕ) (o t e : Ofr)
    → IsEven s
    → IsEven (record s {
      offsets = set s.offsets i o;
      strides = set s.strides i t;
      shape = set s.shape i e;
    })
set-IsEven s i o t e h = record {
  sizes_even = omega (arith, length-set s.offsets i o, h.sizes_even);
  strides_even = omega (arith, length-set s.offsets i o, length-set s.strides i t, h.strides_even);
  shape_even = omega (arith, length-set s.offsets i o, length-set s.shape i e, h.shape_even);
}

pub gather_scatter-IsEven :
    (s : PtrState) (v : Value) (dim n : ℕ)
    → IsEven s
    → Makes IsEven (rebuild_as_gather_scatter s v dim n)
unfolding rebuild_as_gather_scatter
gather_scatter-IsEven s v dim n h =
    ground (arith, set-IsEven s dim (value v) (index_attr (pos 1)) (index_attr (pos 0)) h)

-- What getRank returns where it does not assert.
pub get_rank-IsEven :
    (s : PtrState) (n : ℕ) → Makes (λ rank. IsEven s × (rank ≡ length s.offsets)) (get_rank s n)
unfolding get_rank
get_rank-IsEven s n = ground arith
