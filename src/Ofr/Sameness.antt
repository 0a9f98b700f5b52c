-- ===== src/Ofr/Sameness.antt =====
-- sameOFR answers true only for sizes that are equal in every run.
use spine_triton.Prelude.{
  [], ◌∷◌, List, ℕ, zero, suc, All, get_elem?, Bool, true, false, ◌&&◌, ◌||◌, Bool-cases, Option,
  none, some, Option-cases, ==_iff, ℤ, ◌-ℤ◌, min_ℤ, eqb_ℤ_iff, ◌⊎◌, inl, inr, ◌≡◌, refl, sym, ap,
  ap₂, ◌∙◌, arith,
}
use mathlib.Core.Path.{subst}
use spine_triton.Ir.{
  Value, integer_attr, constant, index_cast, binary, minsi, subi, scalar, id_of, same_value,
  element_of, Interp,
}
use spine_triton.Ofr.Basic.{Ofr, attr, value, int_attr, other_attr}
use spine_triton.Ofr.Same.{
  get_constant_int_like, same_value_or_equivalent_cast, peel_trivial_index_expr, same_min_si_op,
  same_sub_i_op, is_cast_of, known_is, by_constants, same_peeled, same_bounded_size_expr, same_ofr,
}
use spine_triton.Ofr.Meaning.{ofr_value}

-- The operations of a program, each at its identity.
abbrev pub IsIn : List Value → Value → Type 0
IsIn ps v = get_elem? ps (id_of v) ≡ some v

-- What the comparison relies on: operands are in the program, constants and casts keep the integer,
-- subtractions of sizes do not overflow.
abbrev pub IsExact : Interp → List Value → Value → Type 0
IsExact I ps (index_cast i t v) = IsIn ps v × (I.value (index_cast i t v) [] ≡ I.value v [])
IsExact I ps (binary i minsi a b) = IsIn ps a × IsIn ps b × (element_of a ≡ element_of b)
IsExact I ps (binary i subi a b) =
    IsIn ps a × IsIn ps b × (I.value (binary i subi a b) [] ≡ I.value a [] -ℤ I.value b [])
IsExact I ps (constant i (scalar e) (integer_attr z)) =
    I.value (constant i (scalar e) (integer_attr z)) [] ≡ z
IsExact I ps _ = Unit

some_eq {ℓ} : {A : Type ℓ} {a b : A} → some a ≡ some b → a ≡ b
some_eq h = cc

All-get_elem? {ℓ κ} :
    {A : Type ℓ} (P : A → Type κ) (xs : List A) (i : ℕ) (x : A)
    → All P xs
    → get_elem? xs i ≡ some x
    → P x
All-get_elem? P (y ∷ xs) zero x h e = subst P (some_eq e) h.0
All-get_elem? P (y ∷ xs) (suc i) x h e = All-get_elem? P xs i x h.1 e
All-get_elem? P [] i x h e = cc

||_cases : (a b : Bool) → (a || b) ≡ true → (a ≡ true) ⊎ (b ≡ true)
||_cases a b h = ground arith

&&_parts : (a b : Bool) → (a && b) ≡ true → (a ≡ true) × (b ≡ true)
&&_parts a b h = ground arith

min_ℤ_comm : (a b : ℤ) → min_ℤ a b ≡ min_ℤ b a
min_ℤ_comm a b = ground arith

known_none : (z : ℤ) (o : Option ℤ) → o ≡ none → known_is z o ≡ false
unfolding known_is
known_none z o e = rw e

module _ (I : Interp) (ps : List Value) (exact : All (IsExact I ps) ps) where
  IsExact-at : (v : Value) → IsIn ps v → IsExact I ps v
  IsExact-at v h = All-get_elem? (IsExact I ps) ps (id_of v) v exact h

  same_value_lem :
      (v w : Value) → IsIn ps v → IsIn ps w → same_value v w ≡ true → I.value v [] ≡ I.value w []
  same_value_lem v w p q h =
      let e : id_of v ≡ id_of w = (==_iff (id_of v) (id_of w)).0 h in
      ap (λ u. I.value u []) (some_eq (sym p ∙ ap (get_elem? ps) e ∙ q))

  peel_lem :
      (v : Value)
      → IsIn ps v
      → IsIn ps (peel_trivial_index_expr v)
        × (I.value (peel_trivial_index_expr v) [] ≡ I.value v [])
  unfolding peel_trivial_index_expr
  peel_lem (index_cast i t v) h =
      let e = IsExact-at (index_cast i t v) h in let r = peel_lem v e.0 in (r.0, r.1 ∙ sym e.1)
  peel_lem v h = (h, refl)

  constant_lem :
      (v : Value) (z : ℤ) → IsIn ps v → get_constant_int_like v ≡ some z → I.value v [] ≡ z
  unfolding get_constant_int_like
  constant_lem (constant i (scalar e) (integer_attr c)) z h k =
      IsExact-at (constant i (scalar e) (integer_attr c)) h ∙ some_eq k
  constant_lem (index_cast i t v) z h k =
      let e = IsExact-at (index_cast i t v) h in e.1 ∙ constant_lem v z e.0 k
  constant_lem v z h k = cc

  cast_lem :
      (v w : Value) → IsIn ps v → IsIn ps w → is_cast_of v w ≡ true → I.value v [] ≡ I.value w []
  unfolding is_cast_of
  cast_lem (index_cast i t v) w p q h =
      let e = IsExact-at (index_cast i t v) p in e.1 ∙ same_value_lem v w e.0 q h
  cast_lem v w p q h = cc

  equivalent_lem :
      (v w : Value)
      → IsIn ps v
      → IsIn ps w
      → same_value_or_equivalent_cast v w ≡ true
      → I.value v [] ≡ I.value w []
  unfolding same_value_or_equivalent_cast
  equivalent_lem v w p q h = elim (||_cases _ _ h) [
    | inl a ↦ same_value_lem v w p q a
    | inr b ↦ elim (||_cases _ _ b) [
      | inl c ↦ cast_lem v w p q c
      | inr d ↦ sym (cast_lem w v q p d)
    ]
  ]

  by_constants_lem :
      (a b : Option ℤ) (other : Bool) (x y : ℤ)
      → ((z : ℤ) → a ≡ some z → x ≡ z)
      → ((z : ℤ) → b ≡ some z → y ≡ z)
      → (other ≡ true → x ≡ y)
      → by_constants a b other ≡ true
      → x ≡ y
  unfolding by_constants
  by_constants_lem (some a) (some b) other x y p q o h =
      p a refl ∙ (eqb_ℤ_iff a b).0 h ∙ sym (q b refl)
  by_constants_lem (some a) none other x y p q o h = o h
  by_constants_lem none b other x y p q o h = o h

  peeled_lem :
      (l r : Value) (other : Bool)
      → IsIn ps l
      → IsIn ps r
      → (other ≡ true → I.value l [] ≡ I.value r [])
      → same_peeled l r other ≡ true
      → I.value l [] ≡ I.value r []
  unfolding same_peeled
  peeled_lem l r other p q o h = elim (Bool-cases (same_value_or_equivalent_cast l r)) [
    | inl e ↦ equivalent_lem l r p q e
    | inr e ↦
        by_constants_lem _ _ other _ _ (λ z. constant_lem l z p) (λ z. constant_lem r z q) o
          (rw e at h)
  ]

  min_lem :
      (i : ℕ) (a b : Value) (same_a same_b : Value → Bool) (r : Value)
      → IsIn ps (binary i minsi a b)
      → IsIn ps r
      → ((w : Value) → IsIn ps w → same_a w ≡ true → I.value a [] ≡ I.value w [])
      → ((w : Value) → IsIn ps w → same_b w ≡ true → I.value b [] ≡ I.value w [])
      → same_min_si_op same_a same_b r ≡ true
      → I.value (binary i minsi a b) [] ≡ I.value r []
  unfolding same_min_si_op
  min_lem i a b same_a same_b (binary j minsi c d) p q ha hb h =
      let l_ok = IsExact-at (binary i minsi a b) p in
      let r_ok = IsExact-at (binary j minsi c d) q in
      let c' = peel_lem c r_ok.0 in
      let d' = peel_lem d r_ok.1 in
      let start : min_ℤ (I.value a []) (I.value b []) ≡ min_ℤ (I.value c []) (I.value d []) =
        elim (||_cases _ _ h) [
          | inl e ↦
              let (x, y) = &&_parts _ _ e in ap₂ min_ℤ (ha _ c'.0 x ∙ c'.1) (hb _ d'.0 y ∙ d'.1)
          | inr e ↦
              let (x, y) = &&_parts _ _ e in
              ap₂ min_ℤ (ha _ d'.0 x ∙ d'.1) (hb _ c'.0 y ∙ c'.1)
              ∙ min_ℤ_comm (I.value d []) (I.value c [])
        ] in
      I.minsi_lem i a b [] l_ok.2 ∙ start ∙ sym (I.minsi_lem j c d [] r_ok.2)
  min_lem i a b same_a same_b r p q ha hb h = cc

  sub_lem :
      (i : ℕ) (a b : Value) (same_a same_b : Value → Bool) (r : Value)
      → IsIn ps (binary i subi a b)
      → IsIn ps r
      → ((w : Value) → IsIn ps w → same_a w ≡ true → I.value a [] ≡ I.value w [])
      → ((w : Value) → IsIn ps w → same_b w ≡ true → I.value b [] ≡ I.value w [])
      → same_sub_i_op same_a same_b r ≡ true
      → I.value (binary i subi a b) [] ≡ I.value r []
  unfolding same_sub_i_op
  sub_lem i a b same_a same_b (binary j subi c d) p q ha hb h =
      let l_ok = IsExact-at (binary i subi a b) p in
      let r_ok = IsExact-at (binary j subi c d) q in
      let (x, y) = &&_parts _ _ h in l_ok.2 ∙ ap₂ ◌-ℤ◌ (ha c r_ok.0 x) (hb d r_ok.1 y) ∙ sym r_ok.2
  sub_lem i a b same_a same_b r p q ha hb h = cc

  bounded_lem :
      (l r : Value)
      → IsIn ps l
      → IsIn ps r
      → same_bounded_size_expr l r ≡ true
      → I.value l [] ≡ I.value r []
  unfolding same_bounded_size_expr
  bounded_lem (index_cast i t v) r p q h =
      let e = IsExact-at (index_cast i t v) p in e.1 ∙ bounded_lem v r e.0 q h
  bounded_lem (binary i minsi a b) r p q h =
      let ok = IsExact-at (binary i minsi a b) p in
      let r' = peel_lem r q in
      peeled_lem (binary i minsi a b) _ _ p r'.0
        (min_lem i a b _ _ _ p r'.0 (λ w k. bounded_lem a w ok.0 k) (λ w k. bounded_lem b w ok.1 k))
        h
      ∙ r'.1
  bounded_lem (binary i subi a b) r p q h =
      let ok = IsExact-at (binary i subi a b) p in
      let r' = peel_lem r q in
      peeled_lem (binary i subi a b) _ _ p r'.0
        (sub_lem i a b _ _ _ p r'.0 (λ w k. bounded_lem a w ok.0 k) (λ w k. bounded_lem b w ok.1 k))
        h
      ∙ r'.1
  bounded_lem l r p q h =
      let r' = peel_lem r q in
      peeled_lem l (peel_trivial_index_expr r) false p r'.0 (λ e. cc) h ∙ r'.1

  known_lem :
      (v : Value) (z : ℤ)
      → IsIn ps v
      → known_is z (get_constant_int_like v) ≡ true
      → I.value v [] ≡ z
  unfolding known_is
  known_lem v z p h = elim (Option-cases (get_constant_int_like v)) [
    | inl e ↦ cc (known_none z (get_constant_int_like v) e)
    | inr (c, e) ↦ constant_lem v c p e ∙ (eqb_ℤ_iff c z).0 (rw e at h)
  ]

  -- An OpFoldResult of the program: an integer, or one of its values.
  abbrev pub InProgram : Ofr → Type 0
  InProgram (attr _) = Unit
  InProgram (value v) = IsIn ps v

  -- Sizes that sameOFR takes for equal have equal values: the constants agree, or the expressions do
  -- through casts that keep the integer, minimums in either order and subtractions.
  pub same_ofr_sound :
      (l r : Ofr) → InProgram l → InProgram r → same_ofr l r ≡ true → ofr_value I l ≡ ofr_value I r
  unfolding same_ofr
  same_ofr_sound (attr (int_attr a)) (attr (int_attr b)) p q h = (eqb_ℤ_iff a b).0 h
  same_ofr_sound (attr (int_attr a)) (attr other_attr) p q h = cc
  same_ofr_sound (attr other_attr) (attr b) p q h = cc
  same_ofr_sound (attr (int_attr a)) (value w) p q h = sym (known_lem w a q h)
  same_ofr_sound (attr other_attr) (value w) p q h = cc
  same_ofr_sound (value v) (attr (int_attr b)) p q h = known_lem v b p h
  same_ofr_sound (value v) (attr other_attr) p q h = cc
  same_ofr_sound (value v) (value w) p q h = bounded_lem v w p q h
