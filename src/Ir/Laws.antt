-- ===== src/Ir/Laws.antt =====
-- What a run of the program gives its values. MLIR defines its operations, not this repository: a
-- run is a parameter, with the documented meaning of the operations as its laws.
use spine_triton.Prelude.{
  ℕ, zero, suc, ◌+◌, ◌<◌, Bool, true, false, List, [], ◌∷◌, ◌≡◌, ◌≢◌, ◌==◌, rem_ℤ, div_ℤ,
  if◌then◌else◌, ltb, leb, not, ℤ, pos, negsuc, ◌+ℤ◌, ◌-ℤ◌, ◌*ℤ◌, ltb_ℤ, leb_ℤ, eqb_ℤ, min_ℤ, max_ℤ,
  wrap, bit_pattern, InRange,
}
use spine_triton.Ir.Types.{Ty, shape_of, half_range, i1, pointer, element_type}
use spine_triton.Ir.Values.{
  Value, binary, addi, subi, muli, minsi, maxsi, andi, remsi, divsi, addptr, cmpi, select,
  index_cast, ext_si, constant, integer_attr, dense_splat, make_range, splat, broadcast,
  expand_dims, type_of, element_of, Predicate, eq, ne, slt, sle, sgt, sge, ult, ule, ugt, uge,
}

-- The comparison of arith.cmpi on integers of a type with 2 * h values.
abbrev pub compare_by : ℕ → Predicate → ℤ → ℤ → Bool
compare_by h eq a b = eqb_ℤ a b
compare_by h ne a b = not (eqb_ℤ a b)
compare_by h slt a b = ltb_ℤ a b
compare_by h sle a b = leb_ℤ a b
compare_by h sgt a b = ltb_ℤ b a
compare_by h sge a b = leb_ℤ b a
compare_by h ult a b = ltb (bit_pattern h a) (bit_pattern h b)
compare_by h ule a b = leb (bit_pattern h a) (bit_pattern h b)
compare_by h ugt a b = ltb (bit_pattern h b) (bit_pattern h a)
compare_by h uge a b = leb (bit_pattern h b) (bit_pattern h a)

-- The bits of an i1, as signed integers.
abbrev pub bit : Bool → ℤ
bit true = negsuc 0
bit false = pos 0

abbrev pub is_set : ℤ → Bool
is_set z = not (eqb_ℤ z (pos 0))

-- The element of the source of a tt.broadcast: the extents of 1 are stretched.
abbrev pub stretch : List ℕ → List ℕ → List ℕ
stretch (n ∷ ns) (i ∷ idx) = (if n == 1 then 0 else i) ∷ stretch ns idx
stretch _ idx = []

-- The element of the source of a tt.expand_dims.
abbrev pub drop_at : ℕ → List ℕ → List ℕ
drop_at _ [] = []
drop_at zero (i ∷ idx) = idx
drop_at (suc k) (i ∷ idx) = i ∷ drop_at k idx

-- The laws hold of well-typed operations, as the verifier of MLIR demands them: where an operation's
-- operands or result must have one element type, that is a premise.
-- The value of a pointer is its address in units of what it points to. `value v idx` is the element of `v` at `idx`, and `value v []` the value of a scalar.
pub record Interp : Type 0 where
  pub value : Value → List ℕ → ℤ
  pub value_fits : (v : Value) (idx : List ℕ) → InRange (half_range (element_of v)) (value v idx)
  pub constant_lem :
      (i : ℕ) (t : Ty) (z : ℤ) (idx : List ℕ)
      → value (constant i t (integer_attr z)) idx ≡ wrap (half_range (element_type t)) z
  pub splat_constant_lem :
      (i : ℕ) (t : Ty) (z : ℤ) (idx : List ℕ)
      → value (constant i t (dense_splat z)) idx ≡ wrap (half_range (element_type t)) z
  pub addi_lem :
      (i : ℕ) (l r : Value) (idx : List ℕ)
      → value (binary i addi l r) idx
        ≡ wrap (half_range (element_of l)) (value l idx +ℤ value r idx)
  pub subi_lem :
      (i : ℕ) (l r : Value) (idx : List ℕ)
      → value (binary i subi l r) idx
        ≡ wrap (half_range (element_of l)) (value l idx -ℤ value r idx)
  pub muli_lem :
      (i : ℕ) (l r : Value) (idx : List ℕ)
      → value (binary i muli l r) idx
        ≡ wrap (half_range (element_of l)) (value l idx *ℤ value r idx)
  pub minsi_lem :
      (i : ℕ) (l r : Value) (idx : List ℕ)
      → element_of l ≡ element_of r
      → value (binary i minsi l r) idx ≡ min_ℤ (value l idx) (value r idx)
  pub maxsi_lem :
      (i : ℕ) (l r : Value) (idx : List ℕ)
      → element_of l ≡ element_of r
      → value (binary i maxsi l r) idx ≡ max_ℤ (value l idx) (value r idx)
  pub andi_lem :
      (i : ℕ) (l r : Value) (idx : List ℕ)
      → element_of l ≡ i1
      → element_of r ≡ i1
      → value (binary i andi l r) idx ≡ (if is_set (value l idx) then value r idx else pos 0)
  pub remsi_lem :
      (i : ℕ) (l r : Value) (idx : List ℕ)
      → value r idx ≢ pos 0
      → value (binary i remsi l r) idx ≡ rem_ℤ (value l idx) (value r idx)
  pub divsi_lem :
      (i : ℕ) (l r : Value) (idx : List ℕ)
      → value r idx ≢ pos 0
      → InRange (half_range (element_of l)) (div_ℤ (value l idx) (value r idx))
      → value (binary i divsi l r) idx ≡ div_ℤ (value l idx) (value r idx)
  pub addptr_lem :
      (i : ℕ) (l r : Value) (idx : List ℕ)
      → element_of l ≡ pointer
      → value (binary i addptr l r) idx ≡ wrap (half_range pointer) (value l idx +ℤ value r idx)
  pub cmpi_lem :
      (i : ℕ) (p : Predicate) (l r : Value) (idx : List ℕ)
      → value (cmpi i p l r) idx
        ≡ bit (compare_by (half_range (element_of l)) p (value l idx) (value r idx))
  pub select_lem :
      (i : ℕ) (c t f : Value)
      → element_of t ≡ element_of f
      → value (select i c t f) [] ≡ (if is_set (value c []) then value t [] else value f [])
  pub index_cast_lem :
      (i : ℕ) (t : Ty) (v : Value) (idx : List ℕ)
      → value (index_cast i t v) idx ≡ wrap (half_range (element_type t)) (value v idx)
  pub ext_si_lem :
      (i : ℕ) (t : Ty) (v : Value) (idx : List ℕ)
      → value (ext_si i t v) idx ≡ wrap (half_range (element_type t)) (value v idx)
  pub make_range_lem :
      (i start end n k : ℕ)
      → k < n
      → value (make_range i start end n) (k ∷ [])
        ≡ wrap (half_range (element_of (make_range i start end n))) (pos (start + k))
  pub splat_lem :
      (i : ℕ) (t : Ty) (v : Value) (idx : List ℕ)
      → element_type t ≡ element_of v
      → value (splat i t v) idx ≡ value v []
  pub broadcast_lem :
      (i : ℕ) (t : Ty) (v : Value) (idx : List ℕ)
      → element_type t ≡ element_of v
      → value (broadcast i t v) idx ≡ value v (stretch (shape_of (type_of v)) idx)
  pub expand_dims_lem :
      (i : ℕ) (t : Ty) (axis : ℕ) (v : Value) (idx : List ℕ)
      → element_type t ≡ element_of v
      → value (expand_dims i t axis v) idx ≡ value v (drop_at axis idx)
