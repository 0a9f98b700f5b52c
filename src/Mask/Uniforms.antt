-- ===== src/Mask/Uniforms.antt =====
-- Uniform tensors: their parsers return states that describe them.
use spine_triton.Prelude.{
  ℕ, zero, suc, ◌^◌, ◌≤◌, ltb, List, [], none, false, ℤ, ◌+ℤ◌, wrap_self, half64, int_laws, ◌≡◌,
  ◌≢◌, refl, sym, ap, ◌∙◌, arith,
}
use spine_triton.Ir.{
  Value, ElementType, scalar, tensor, integer, index_ty, type_of, element_of, half_range,
  element_type, constant, splat, make_range, binary, index_cast, addi, dim, cmpi, broadcast,
  loop_arg, ext_si, fail, expand_dims, constant_attr, Interp, Returns, M,
}
use spine_triton.Ofr.{value, index_attr}
use spine_triton.Mask.State.{MaskState}
use spine_triton.Mask.Parse.{parse, scalar_or, parse_int_scalar, parse_splat, parse_constant, is_i1}
use spine_triton.Mask.Meaning.{IsUniform}
use spine_triton.Mask.Supported.{Uniform, splatted, dense}

pub is_i1_ne : (w : ℕ) → w ≢ 1 → is_i1 (integer w) ≡ false
is_i1_ne zero h = refl
is_i1_ne (suc zero) h = absurd (h refl)
is_i1_ne (suc (suc w)) h = refl

pub scalar_or_scalar :
    (v : Value) (other : M MaskState) (w n : ℕ)
    → type_of v ≡ scalar (integer w)
    → scalar_or v other n ≡ parse_int_scalar v n
unfolding scalar_or
scalar_or_scalar v other w n t = rw t

pub scalar_or_tensor :
    (v : Value) (other : M MaskState) (shape : List ℕ) (e : ElementType) (n : ℕ)
    → type_of v ≡ tensor shape e
    → scalar_or v other n ≡ other n
unfolding scalar_or
scalar_or_tensor v other shape e n t = rw t

pub not_below : (k a : ℕ) → a ≤ k → ltb k a ≡ false
not_below k a h = ground arith

pub swap_last : (a b c : ℤ) → a +ℤ b +ℤ c ≡ a +ℤ c +ℤ b
swap_last a b c = omega int_laws

-- The parser of a scalar integer that is no constant.
pub parse_scalar_lem :
    (v : Value) (w n : ℕ)
    → type_of v ≡ scalar (integer w)
    → constant_attr v ≡ none
    → parse v n ≡ parse_int_scalar v n
unfolding parse
parse_scalar_lem (constant i t a) w n h c = cc
parse_scalar_lem (make_range i s e k) w n h c = cc
parse_scalar_lem (binary i addi l r) w n h c = scalar_or_scalar (binary i addi l r) _ w n h
parse_scalar_lem (binary i op l r) w n h c = scalar_or_scalar (binary i op l r) _ w n h
parse_scalar_lem (dim i x a) w n h c = cc
parse_scalar_lem (cmpi i p l r) w n h c = scalar_or_scalar (cmpi i p l r) _ w n h
parse_scalar_lem (broadcast i t x) w n h c = scalar_or_scalar (broadcast i t x) _ w n h
parse_scalar_lem (splat i t x) w n h c = scalar_or_scalar (splat i t x) _ w n h
parse_scalar_lem (expand_dims i t a x) w n h c = scalar_or_scalar (expand_dims i t a x) _ w n h
parse_scalar_lem (loop_arg i t b x y) w n h c = scalar_or_scalar (loop_arg i t b x y) _ w n h
parse_scalar_lem (ext_si i t x) w n h c = scalar_or_scalar (ext_si i t x) _ w n h
parse_scalar_lem v w n h c = scalar_or_scalar v fail w n h

pub half_at :
    (v : Value) {shape : List ℕ} {e : ElementType}
    → type_of v ≡ tensor shape e
    → half_range e ≤ 2 ^ 31
    → half_range (element_of v) ≤ 2 ^ 31
half_at v t h = rw t h

module _ (I : Interp) where
  pub parse-Uniform :
      {v : Value} (n : ℕ) → Uniform I v → Returns (λ s m. IsUniform I v s) (parse v n)
  unfolding parse parse_constant parse_splat scalar_or parse_int_scalar
  parse-Uniform n (splatted i shape w v t ne c fits) =
      rw (t, is_i1_ne w ne, parse_scalar_lem v w n t c)
        record {
          number = value (index_cast n index_ty v);
          made = refl;
          is_index = (refl, tt);
          holds = λ idx.
              I.splat_lem i (tensor shape (integer w)) v idx (sym (ap element_type t))
              ∙ sym (I.index_cast_lem n index_ty v [] ∙ wrap_self half64 (I.value v []) fits);
        }
  parse-Uniform n (dense i shape w z fits e) = record {
    number = index_attr z;
    made = refl;
    is_index = fits;
    holds = e;
  }
