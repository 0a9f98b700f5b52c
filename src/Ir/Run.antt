-- ===== src/Ir/Run.antt =====
-- One run of a program, from the values of what the analyses do not look into: it shows that the
-- laws of `Interp` can hold, and it serves the examples.
use native.Mathlib.Nat.{pow-suc, mod-le}
use spine_triton.Prelude.{
  ℕ, zero, suc, ◌+◌, ◌-◌, ◌^◌, ◌<◌, Bool, true, false, List, [], ◌∷◌, ◌≡◌, refl, sym, ◌∙◌, arith,
  if◌then◌else◌, ℤ, pos, negsuc, ◌+ℤ◌, ◌-ℤ◌, ◌*ℤ◌, min_ℤ, max_ℤ, wrap, wrap_self, rem_ℤ, div_ℤ,
  magnitude, bit_pattern, ◌≢◌, wrap-InRange, InRange,
}
use spine_triton.Ir.Types.{
  Ty, ElementType, integer, index, pointer, floating, shape_of, half_range, i1, element_type,
  with_element, scalar, tensor, memref,
}
use spine_triton.Ir.Values.{
  Value, BinaryOp, binary, addi, subi, muli, minsi, maxsi, andi, remsi, divsi, addptr, cmpi, select,
  Predicate, index_cast, ext_si, ext_ui, trunc_i, bitcast, constant, ConstAttr, integer_attr,
  dense_splat, dense_other, make_range, splat, broadcast, expand_dims, reshape, dim,
  make_tensor_ptr, opaque, block_arg, loop_arg, type_of, element_of,
}
use spine_triton.Ir.Laws.{Interp, compare_by, bit, is_set, stretch, drop_at}

abbrev pub Env : Type 0
Env = ℕ → List ℕ → ℤ

binary_value : BinaryOp → ℤ → ℤ → ℤ → ℤ
binary_value addi a b other = a +ℤ b
binary_value subi a b other = a -ℤ b
binary_value muli a b other = a *ℤ b
binary_value minsi a b other = min_ℤ a b
binary_value maxsi a b other = max_ℤ a b
binary_value andi a b other = if is_set a then b else pos 0
binary_value remsi a b other = rem_ℤ a b
binary_value divsi a b other = div_ℤ a b
binary_value addptr a b other = a +ℤ b

constant_value : ConstAttr → ℤ → ℤ
constant_value (integer_attr z) other = z
constant_value (dense_splat z) other = z
constant_value dense_other other = other

range_value : ℕ → List ℕ → ℤ
range_value start [] = pos start
range_value start (k ∷ _) = pos (start + k)

-- Each element, before it is fitted to its type.
unfoldable pub run : Env → Value → List ℕ → ℤ
unfolding binary_value constant_value range_value
run env (block_arg i t) idx = wrap (half_range (element_type t)) (env i idx)
run env (loop_arg i t _ _ _) idx = wrap (half_range (element_type t)) (env i idx)
run env (constant i t a) idx = wrap (half_range (element_type t)) (constant_value a (env i idx))
run env (index_cast i t v) idx = wrap (half_range (element_type t)) (run env v idx)
run env (ext_si i t v) idx = wrap (half_range (element_type t)) (run env v idx)
run env (trunc_i i t v) idx = wrap (half_range (element_type t)) (run env v idx)
run env (ext_ui i t v) idx =
    wrap (half_range (element_type t))
      (pos (bit_pattern (half_range (element_of v)) (run env v idx)))
run env (bitcast i t v) idx = wrap (half_range (element_type t)) (run env v idx)
run env (binary i op l r) idx =
    wrap (half_range (element_of l)) (binary_value op (run env l idx) (run env r idx) (env i idx))
run env (cmpi i p l r) idx =
    wrap (half_range (element_of (cmpi i p l r)))
      (bit (compare_by (half_range (element_of l)) p (run env l idx) (run env r idx)))
run env (select i c t f) idx =
    wrap (half_range (element_of t))
      (if is_set (run env c []) then run env t idx else run env f idx)
run env (make_range i start end n) idx =
    wrap (half_range (element_of (make_range i start end n))) (range_value start idx)
run env (splat i t v) idx = wrap (half_range (element_type t)) (run env v [])
run env (broadcast i t v) idx =
    wrap (half_range (element_type t)) (run env v (stretch (shape_of (type_of v)) idx))
run env (expand_dims i t axis v) idx =
    wrap (half_range (element_type t)) (run env v (drop_at axis idx))
run env (reshape i t v) idx = wrap (half_range (element_type t)) (env i idx)
run env (dim i v axis) idx = wrap (half_range index) (env i idx)
run env (make_tensor_ptr i t) idx = wrap (half_range (element_type t)) (env i idx)
run env (opaque i t) idx = wrap (half_range (element_type t)) (env i idx)

pow-pos : (w : ℕ) → 0 < 2 ^ w
pow-pos zero = omega arith
pow-pos (suc w) = rw pow-suc (omega (arith, pow-pos w))

pub half_range_pos : (e : ElementType) → 0 < half_range e
half_range_pos (integer w) = pow-pos (w - 1)
half_range_pos index = omega arith
half_range_pos pointer = omega arith
half_range_pos floating = omega arith

fit : (e : ElementType) (z : ℤ) → InRange (half_range e) (wrap (half_range e) z)
fit e z = wrap-InRange (half_range e) z (half_range_pos e)

pub run_fits :
    (env : Env) (v : Value) (idx : List ℕ) → InRange (half_range (element_of v)) (run env v idx)
unfolding run
run_fits env (block_arg i t) idx = fit (element_type t) _
run_fits env (loop_arg i t _ _ _) idx = fit (element_type t) _
run_fits env (constant i t a) idx = fit (element_type t) _
run_fits env (index_cast i t v) idx = fit (element_type t) _
run_fits env (ext_si i t v) idx = fit (element_type t) _
run_fits env (trunc_i i t v) idx = fit (element_type t) _
run_fits env (ext_ui i t v) idx = fit (element_type t) _
run_fits env (bitcast i t v) idx = fit (element_type t) _
run_fits env (binary i op l r) idx = fit (element_of l) _
run_fits env (cmpi i p l r) idx = fit (element_of (cmpi i p l r)) _
run_fits env (select i c t f) idx = fit (element_of t) _
run_fits env (make_range i s e n) idx = fit (element_of (make_range i s e n)) _
run_fits env (splat i t v) idx = fit (element_type t) _
run_fits env (broadcast i t v) idx = fit (element_type t) _
run_fits env (expand_dims i t axis v) idx = fit (element_type t) _
run_fits env (reshape i t v) idx = fit (element_type t) _
run_fits env (dim i v axis) idx = fit index _
run_fits env (make_tensor_ptr i t) idx = fit (element_type t) _
run_fits env (opaque i t) idx = fit (element_type t) _

element_type-with_element : (t : Ty) (e : ElementType) → element_type (with_element t e) ≡ e
element_type-with_element (scalar _) e = refl
element_type-with_element (tensor s _) e = refl
element_type-with_element (memref s _) e = refl

-- A value of the operands' type needs no fitting.
module _ (env : Env) where
  pub refit :
      (e : ElementType) (v : Value) (idx : List ℕ)
      → e ≡ element_of v
      → wrap (half_range e) (run env v idx) ≡ run env v idx
  refit e v idx h = wrap_self (half_range e) (run env v idx) (rw h (run_fits env v idx))

  pub min_fits : (h : ℕ) (a b : ℤ) → InRange h a → InRange h b → wrap h (min_ℤ a b) ≡ min_ℤ a b
  min_fits h a b p q = wrap_self h (min_ℤ a b) (ground arith)

  pub max_fits : (h : ℕ) (a b : ℤ) → InRange h a → InRange h b → wrap h (max_ℤ a b) ≡ max_ℤ a b
  max_fits h a b p q = wrap_self h (max_ℤ a b) (ground arith)

  pub rem_fits : (h : ℕ) (a b : ℤ) → InRange h a → b ≢ pos 0 → wrap h (rem_ℤ a b) ≡ rem_ℤ a b
  rem_fits h (pos m) b p q = let e = mod-le m (magnitude b) in wrap_self h _ (omega arith)
  rem_fits h (negsuc m) b p q = let e = mod-le (suc m) (magnitude b) in wrap_self h _ (ground arith)

  pub if_fits :
      (h : ℕ) (c : Bool) (a b : ℤ)
      → InRange h a
      → InRange h b
      → wrap h (if c then a else b) ≡ (if c then a else b)
  if_fits h true a b p q = wrap_self h a p
  if_fits h false a b p q = wrap_self h b q

  pub cmpi_fits :
      (i : ℕ) (p : Predicate) (l r : Value) (b : Bool)
      → wrap (half_range (element_of (cmpi i p l r))) (bit b) ≡ bit b
  unfolding wrap
  cmpi_fits i p l r true = rw (element_type-with_element (type_of l) i1) refl
  cmpi_fits i p l r false = rw (element_type-with_element (type_of l) i1) refl

  unfoldable pub interp_of : Interp
  unfolding run
  interp_of = record {
    value = run env;
    value_fits = run_fits env;
    constant_lem = λ i t z idx. refl;
    splat_constant_lem = λ i t z idx. refl;
    addi_lem = λ i l r idx. refl;
    subi_lem = λ i l r idx. refl;
    muli_lem = λ i l r idx. refl;
    minsi_lem = λ i l r idx h.
        min_fits _ (run env l idx) (run env r idx) (run_fits env l idx) (rw h (run_fits env r idx));
    maxsi_lem = λ i l r idx h.
        max_fits _ (run env l idx) (run env r idx) (run_fits env l idx) (rw h (run_fits env r idx));
    andi_lem = λ i l r idx h k.
        if_fits (half_range (element_of l)) (is_set (run env l idx)) (run env r idx) (pos 0)
          (rw (h ∙ sym k) (run_fits env r idx)) (rw h (omega arith));
    remsi_lem = λ i l r idx h. rem_fits _ (run env l idx) (run env r idx) (run_fits env l idx) h;
    divsi_lem = λ i l r idx h k. wrap_self _ (div_ℤ (run env l idx) (run env r idx)) k;
    addptr_lem = λ i l r idx h. rw h refl;
    cmpi_lem = λ i p l r idx. cmpi_fits i p l r _;
    select_lem = λ i c t f h.
        if_fits _ (is_set (run env c [])) (run env t []) (run env f []) (run_fits env t [])
          (rw h (run_fits env f []));
    index_cast_lem = λ i t v idx. refl;
    ext_si_lem = λ i t v idx. refl;
    make_range_lem = λ i s e n k h. refl;
    splat_lem = λ i t v idx h. refit (element_type t) v [] h;
    broadcast_lem = λ i t v idx h. refit (element_type t) v _ h;
    expand_dims_lem = λ i t axis v idx h. refit (element_type t) v _ h;
  }
