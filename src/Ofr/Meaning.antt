-- ===== src/Ofr/Meaning.antt =====
-- What an OpFoldResult of index type stands for in a run, and what the created operations compute.
use spine_triton.Prelude.{
  [], ℕ, Option, none, some, ℤ, pos, In64, wrap_self, half64, ◌≡◌, refl, sym, ap, ◌∙◌,
}
use spine_triton.Ir.{
  Value, BinaryOp, binary, index_ty, type_of, element_type, half_range, constant, constant_attr,
  ConstAttr, integer_attr, dense_splat, dense_other, Interp, Returns, Returns-bind,
}
use spine_triton.Ofr.Basic.{Ofr, attr, value, int_attr, other_attr, get_int_attr}
use spine_triton.Ofr.Arith.{emit, operand}

-- The integer of an index constant is an int64_t.
abbrev pub FitsConstant : Option ConstAttr → Type 0
FitsConstant none = Unit
FitsConstant (some (integer_attr z)) = In64 z
FitsConstant (some (dense_splat _)) = ⊥
FitsConstant (some dense_other) = ⊥

abbrev pub IsIndexValue : Value → Type 0
IsIndexValue v = (type_of v ≡ index_ty) × FitsConstant (constant_attr v)

abbrev pub IsIndex : Ofr → Type 0
IsIndex (attr (int_attr z)) = In64 z
IsIndex (attr other_attr) = ⊥
IsIndex (value v) = IsIndexValue v

module _ (I : Interp) where
  abbrev pub ofr_value : Ofr → ℤ
  ofr_value (attr (int_attr z)) = z
  ofr_value (attr other_attr) = pos 0
  ofr_value (value v) = I.value v []

  pub constant_value :
      (i : ℕ) (z : ℤ) → In64 z → I.value (constant i index_ty (integer_attr z)) [] ≡ z
  constant_value i z h = I.constant_lem i index_ty z [] ∙ wrap_self half64 z h

  pub index_fits : (v : Value) → IsIndexValue v → In64 (I.value v [])
  index_fits v h = rw (ap (λ t. half_range (element_type t)) h.0) at (I.value_fits v [])

  pub ofr_fits : (o : Ofr) → IsIndex o → In64 (ofr_value o)
  ofr_fits (attr (int_attr z)) h = h
  ofr_fits (attr other_attr) h = absurd h
  ofr_fits (value v) h = index_fits v h

  -- `o` is the result of a new operation on two index values that hold what `l` and `r` hold.
  pub record Emitted (op : BinaryOp) (l r o : Ofr) : Type 0 where
    pub number : ℕ
    pub lhs : Value
    pub rhs : Value
    pub made : o ≡ value (binary number op lhs rhs)
    pub lhs_index : type_of lhs ≡ index_ty
    pub rhs_index : type_of rhs ≡ index_ty
    pub lhs_value : I.value lhs [] ≡ ofr_value l
    pub rhs_value : I.value rhs [] ≡ ofr_value r

  -- What the folding knows of an operand: its value, or that it is no integer attribute.
  abbrev pub Knows : Option ℤ → Ofr → Type 0
  Knows none o = get_int_attr o ≡ none
  Knows (some z) o = In64 z × (ofr_value o ≡ z)

  pub Knows-get_int_attr : (o : Ofr) → IsIndex o → Knows (get_int_attr o) o
  Knows-get_int_attr (attr (int_attr z)) h = (h, refl)
  Knows-get_int_attr (attr other_attr) h = refl
  Knows-get_int_attr (value v) h = refl

  pub record Operand (o : Ofr) (v : Value) : Type 0 where
    pub is_index : type_of v ≡ index_ty
    pub same : I.value v [] ≡ ofr_value o

  operand_lem :
      (a : Option ℤ) (o : Ofr) (n : ℕ)
      → Knows a o
      → IsIndex o
      → Returns (λ v m. Operand o v) (operand a o n)
  operand_lem (some z) o n k h = record { is_index = refl; same = constant_value n z k.0 ∙ sym k.1 }
  operand_lem none (attr (int_attr z)) n k h = cc
  operand_lem none (attr other_attr) n k h = absurd h
  operand_lem none (value v) n k h = record { is_index = h.0; same = refl }

  pub emit_lem :
      (op : BinaryOp) (a b : Option ℤ) (l r : Ofr) (n : ℕ)
      → Knows a l
      → Knows b r
      → IsIndex l
      → IsIndex r
      → Returns (λ o m. Emitted op l r o) (emit op a b l r n)
  unfolding emit
  emit_lem op a b l r n j k p q =
      Returns-bind (λ o m. Emitted op l r o) (operand a l n) _ (operand_lem a l n j p)
        λ x i hx.
          Returns-bind (λ o m. Emitted op l r o) (operand b r i) _ (operand_lem b r i k q)
            λ y m hy. record {
              number = m;
              lhs = x;
              rhs = y;
              made = refl;
              lhs_index = hx.is_index;
              rhs_index = hy.is_index;
              lhs_value = hx.same;
              rhs_value = hy.same;
            }

  pub emit_attrs :
      (op : BinaryOp) (l r : Ofr) (n : ℕ)
      → IsIndex l
      → IsIndex r
      → Returns (λ o m. Emitted op l r o) (emit op (get_int_attr l) (get_int_attr r) l r n)
  emit_attrs op l r n p q =
      emit_lem op _ _ l r n (Knows-get_int_attr l p) (Knows-get_int_attr r q) p q
