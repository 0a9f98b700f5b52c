-- ===== src/Ptr/Wraparound.antt =====
-- createSideBySideCastOps: the two chunks of a tile whose columns wrap around.
pub mod Chunks
use mathlib.Core.Path.{subst}
use spine_triton.Prelude.{
  ℕ, suc, ◌+◌, ◌-◌, ◌%◌, ◌^◌, ◌<◌, ◌≤◌, Bool-cases, tests, ◌⊎◌, inl, inr, pos_part, ltb, List, [],
  ℤ, pos, ◌+ℤ◌, ◌-ℤ◌, min_ℤ, rem_ℤ, wrap, wrap_self, half64, InRange, ◌≡◌, refl, sym, ap, ap₂, ◌∙◌,
  int_laws, arith,
}
use native.Mathlib.Nat.{mod-eq_of_lt, mod-le, mod-lt, add-mod_left}
use spine_triton.Ir.{
  Value, index_ty, type_of, element_of, element_type, half_range, index_cast, binary, remsi, subi,
  addi, minsi, Interp, M, Returns, Returns-bind,
}
use spine_triton.Ptr.Casts.{side_by_side_split}

module _ (I : Interp) where
  -- A value of index type that holds an integer.
  abbrev pub HoldsIndex : Value → ℤ → Type 0
  HoldsIndex v z = (type_of v ≡ index_ty) × (I.value v [] ≡ z)

  index_half : (v : Value) → type_of v ≡ index_ty → half_range (element_of v) ≡ half64
  index_half v t = ap (λ ty. half_range (element_type ty)) t

  sub_exact :
      (i : ℕ) (a b : Value) (p q r : ℤ)
      → HoldsIndex a p
      → HoldsIndex b q
      → p -ℤ q ≡ r
      → InRange half64 r
      → HoldsIndex (binary i subi a b) r
  sub_exact i a b p q r ha hb e h = (
    ha.0,
    I.subi_lem i a b []
        ∙ ap₂ wrap (index_half a ha.0) (ap₂ (λ x y. x -ℤ y) ha.1 hb.1 ∙ e)
        ∙ wrap_self half64 r h,
  )

  add_exact :
      (i : ℕ) (a b : Value) (p q r : ℤ)
      → HoldsIndex a p
      → HoldsIndex b q
      → p +ℤ q ≡ r
      → InRange half64 r
      → HoldsIndex (binary i addi a b) r
  add_exact i a b p q r ha hb e h = (
    ha.0,
    I.addi_lem i a b []
        ∙ ap₂ wrap (index_half a ha.0) (ap₂ (λ x y. x +ℤ y) ha.1 hb.1 ∙ e)
        ∙ wrap_self half64 r h,
  )

  min_exact :
      (i : ℕ) (a b : Value) (p q : ℤ)
      → HoldsIndex a p
      → HoldsIndex b q
      → HoldsIndex (binary i minsi a b) (min_ℤ p q)
  min_exact i a b p q ha hb =
      (ha.0, I.minsi_lem i a b [] (ap element_type (ha.0 ∙ sym hb.0)) ∙ ap₂ min_ℤ ha.1 hb.1)

  rem_exact :
      (i : ℕ) (a b : Value) (m n : ℕ)
      → 0 < n
      → HoldsIndex a (pos m)
      → HoldsIndex b (pos n)
      → HoldsIndex (binary i remsi a b) (pos (m % n))
  rem_exact i a b m n h ha hb = (
    ha.0,
    I.remsi_lem i a b [] (λ e. not_zero (sym hb.1 ∙ e))
        ∙ ap₂ rem_ℤ ha.1 hb.1
        ∙ ap (λ k. pos (m % k)) plus_zero,
  )
    where
      plus_zero : n + 0 ≡ n
      plus_zero = omega arith

      not_zero : pos n ≡ pos 0 → ⊥
      not_zero e = absurd (omega (arith, ap pos_part e))

  cast_exact :
      (i : ℕ) (v : Value) (n : ℕ)
      → n < 2 ^ 63
      → I.value v [] ≡ pos n
      → HoldsIndex (index_cast i index_ty v) (pos n)
  cast_exact i v n h e = (
    refl,
    I.index_cast_lem i index_ty v [] ∙ ap (wrap half64) e ∙ wrap_self half64 (pos n) (omega arith),
  )

  -- The chunks of a tile of w columns that starts at element t of a matrix of rows of n elements: a
  -- columns from t on, then b columns from the start of the row on.
  pub record Wrapped (t n w : ℕ) (d1 d2 y : Value) : Type 0 where
    pub a : ℕ
    pub b : ℕ
    pub first_size : I.value d1 [] ≡ pos a
    pub second_size : I.value d2 [] ≡ pos b
    pub whole : a + b ≡ w
    pub row : I.value y [] ≡ pos (t - t % n)
    pub first_reads : (j : ℕ) → j < a → t + j ≡ (t - t % n) + (t % n + j) % n
    pub second_reads : (j : ℕ) → j < b → (t - t % n) + j ≡ (t - t % n) + (t % n + (a + j)) % n

  -- The value of a minimum of two numbers.
  smaller :
      (a b : ℕ)
      → (c : ℕ) × (min_ℤ (pos a) (pos b) ≡ pos c) × (c ≤ a) × (c ≤ b) × ((c ≡ a) ⊎ (c ≡ b))
  smaller a b = elim (Bool-cases (ltb b a)) [
    | inl e ↦ (b, ground arith, omega (tests, e), omega arith, inr refl)
    | inr e ↦ (a, ground arith, omega arith, ground arith, inl refl)
  ]

  -- The two widths and the two starts, next to the strides that are created in between.
  pub side_by_side_split_lem :
      (P : List Value → Type 0) (target col_size modulo : Value) (strides : M (List Value))
      (t n w m : ℕ)
      → HoldsIndex target (pos t)
      → HoldsIndex col_size (pos w)
      → I.value modulo [] ≡ pos n
      → ((i : ℕ) → Returns (λ vs j. P vs) (strides i))
      → 0 < n
      → t < 2 ^ 61
      → n < 2 ^ 61
      → w < 2 ^ 61
      → t % n + w ≤ n + n
      → Returns
          (λ r j. Wrapped t n w r.0.0.0 r.0.0.1 r.0.1 × P r.1)
          (side_by_side_split target col_size modulo strides m)
  unfolding side_by_side_split
  side_by_side_split_lem P target col_size modulo strides t n w m ht hw hn hs some_columns st sn sw
        reach =
      Returns-bind Q (strides (suc (suc (suc m)))) _ (hs _) λ vs k u.
        let (c, made, below_next, below_end, which) = smaller (t % n + w) n in
        let next =
          add_exact k x col_size (pos (t % n)) (pos w) (pos (t % n + w)) hx hw (omega int_laws)
            (omega arith) in
        let clamped : HoldsIndex (binary (suc k) minsi (binary k addi x col_size) mod_n) (pos c) =
          subst (HoldsIndex _) made (min_exact (suc k) _ mod_n (pos (t % n + w)) (pos n) next hm) in
        let d1 =
          sub_exact (suc (suc k)) _ x (pos c) (pos (t % n)) (pos (c - t % n)) clamped hx
            (omega int_laws) (omega arith) in
        let d2 =
          sub_exact (suc (suc (suc k))) col_size _ (pos w) (pos (c - t % n)) (pos (w - (c - t % n)))
            hw d1 (omega int_laws) (omega arith) in
        (
          record {
            a = c - t % n;
            b = w - (c - t % n);
            first_size = d1.1;
            second_size = d2.1;
            whole = omega arith;
            row = hy.1;
            first_reads = λ j h. first_at j c below_end h;
            second_reads = λ j h. second_at j c which h;
          },
          u,
        )
    where
      Q : ((Value × Value) × Value) × List Value → ℕ → Type 0
      Q r j = Wrapped t n w r.0.0.0 r.0.0.1 r.0.1 × P r.1

      mod_n : Value
      mod_n = index_cast m index_ty modulo

      x : Value
      x = binary (suc m) remsi target mod_n

      hm : HoldsIndex mod_n (pos n)
      hm = cast_exact m modulo n (omega arith) hn

      hx : HoldsIndex x (pos (t % n))
      hx = rem_exact (suc m) target mod_n t n some_columns ht hm

      hy : HoldsIndex (binary (suc (suc m)) subi target x) (pos (t - t % n))
      hy =
          let le = mod-le t n in
          sub_exact (suc (suc m)) target x (pos t) (pos (t % n)) _ ht hx (omega int_laws)
            (omega arith)

      first_at : (j c : ℕ) → c ≤ n → j < c - t % n → t + j ≡ (t - t % n) + (t % n + j) % n
      first_at j c e h =
          let le = mod-le t n in
          let small : (t % n + j) % n ≡ t % n + j = mod-eq_of_lt (omega arith) in
          omega (arith, small)

      second_at :
          (j c : ℕ)
          → (c ≡ t % n + w) ⊎ (c ≡ n)
          → j < w - (c - t % n)
          → (t - t % n) + j ≡ (t - t % n) + (t % n + ((c - t % n) + j)) % n
      second_at j c (inl e) h = absurd (omega arith)
      second_at j c (inr e) h =
          let lt = mod-lt t {m = n} some_columns in
          let total : t % n + ((c - t % n) + j) ≡ n + j = omega arith in
          let small : j < n = omega arith in
          ap (λ k. t - t % n + k)
            (sym (ap (λ k. k % n) total ∙ add-mod_left n j ∙ mod-eq_of_lt small))
