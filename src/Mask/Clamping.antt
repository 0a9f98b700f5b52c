-- ===== src/Mask/Clamping.antt =====
-- The dimension that parseCmp finds for a range, and the size that it clamps to.
use spine_triton.Prelude.{
  ℕ, zero, suc, ◌+◌, ◌^◌, ◌≤◌, ◌<◌, get_elem?, List, [], ◌∷◌, some, none, true, false, ℤ, pos, ◌+ℤ◌,
  ◌-ℤ◌, ◌<ℤ◌, ◌≤ℤ◌, ltb_ℤ, min_ℤ, max_ℤ, In64, int_laws, one_sided, ◌⊎◌, inl, inr, ◌↔◌, ◌≡◌, refl,
  ap, ◌∙◌, arith,
}
use spine_triton.Ir.{ok}
use spine_triton.Mask.Parse.{find_cmp_dim, is_one, shape_dims}
use spine_triton.Mask.Coordinates.{InBounds}
use spine_triton.Mask.Supported.{OneWide}

-- The scan of the dimensions.
pub is_one_wide : (m : ℕ) → 2 ≤ m → is_one (some (pos m)) ≡ false
is_one_wide zero h = refl
is_one_wide (suc zero) h = absurd (omega arith)
is_one_wide (suc (suc m)) h = refl

pub find_found :
    (ns : List ℕ) (i j n : ℕ)
    → ((a m : ℕ) → get_elem? ns a ≡ some m → m ≡ 1)
    → find_cmp_dim (some j) i (shape_dims ns) n ≡ ok (some j) n
unfolding find_cmp_dim
find_found [] i j n h = refl
find_found (x ∷ xs) i j n h =
    let one : x ≡ 1 = h 0 x refl in rw one (find_found xs (suc i) j n (λ a m e. h (suc a) m e))

pub find_axis :
    (ns : List ℕ) (i k n m : ℕ)
    → OneWide ns k
    → get_elem? ns k ≡ some m
    → 2 ≤ m
    → find_cmp_dim none i (shape_dims ns) n ≡ ok (some (i + k)) n
unfolding find_cmp_dim
find_axis [] i k n m o g h = cc
find_axis (x ∷ xs) i zero n m o g h =
    let same : x ≡ m = cc in
    rw (same, is_one_wide m h)
      (find_found xs (suc i) i n (λ a l e. o (suc a) l e (omega arith))
        ∙ ap (λ k. ok (some k) n) (omega arith))
find_axis (x ∷ xs) i (suc k) n m o g h =
    let one : x ≡ 1 = o 0 x refl (omega arith) in
    rw one (
      find_axis xs (suc i) k n m (λ a l e ne. o (suc a) l e (λ q. ne (omega arith))) g h
      ∙ ap (λ k. ok (some k) n) (omega arith))

-- The extent of an axis bounds its coordinate.
pub coordinate :
    (ns idx : List ℕ) (k m : ℕ)
    → InBounds ns idx
    → get_elem? ns k ≡ some m
    → (j : ℕ) × (get_elem? idx k ≡ some j) × (j < m)
coordinate [] idx k m b g = cc
coordinate (x ∷ xs) [] k m b g = absurd b
coordinate (x ∷ xs) (i ∷ idx) zero m b g = let same : x ≡ m = cc in (i, refl, rw (← same) b.0)
coordinate (x ∷ xs) (i ∷ idx) (suc k) m b g = coordinate xs idx k m b.1 g

pub ltb_ℤ_iff : (a b : ℤ) → (ltb_ℤ a b ≡ true) ↔ (a <ℤ b)
ltb_ℤ_iff a b = ground arith

abbrev pub clamped : ℤ → ℤ → ℤ → ℤ
clamped a b c = max_ℤ (min_ℤ c b) a

pub clamped_cases :
    (a b c : ℤ)
    → a ≤ℤ c
    → ((clamped a b c ≡ c) × (c ≤ℤ b))
      ⊎ (((clamped a b c ≡ b) × (b ≤ℤ c) × (a ≤ℤ b)) ⊎ ((clamped a b c ≡ a) × (b ≤ℤ a)))
clamped_cases a b c h = ground arith

pub shift_le : (a c : ℤ) (n : ℕ) → c ≡ a +ℤ pos n → a ≤ℤ c
shift_le a c n e = rw e (omega int_laws)

-- a + j < b exactly if j lies below the clamped size.
pub clamp_exact :
    (a b c : ℤ) (n j : ℕ)
    → c ≡ a +ℤ pos n
    → j < n
    → (a +ℤ pos j <ℤ b) ↔ (pos j <ℤ clamped a b c -ℤ a)
clamp_exact a b c n j e h = elim (clamped_cases a b c (shift_le a c n e)) [
  | inl p ↦
      let k : a +ℤ pos n ≤ℤ b = rw e at p.1 in
      rw (p.0, e) (λ q. omega int_laws, λ q. omega int_laws)
  | inr r ↦ elim r [
    | inl p ↦ rw p.0 (λ q. omega int_laws, λ q. omega int_laws)
    | inr p ↦ rw p.0 (λ q. omega int_laws, λ q. omega int_laws)
  ]
]

pub clamp_range : (a b c : ℤ) (n : ℕ) → c ≡ a +ℤ pos n → n < 2 ^ 62 → In64 (clamped a b c -ℤ a)
clamp_range a b c n e h = elim (clamped_cases a b c (shift_le a c n e)) [
  | inl p ↦ rw (p.0, e) (omega (int_laws, one_sided (a +ℤ pos n -ℤ a)))
  | inr r ↦ elim r [
    | inl p ↦
        let k : b ≤ℤ a +ℤ pos n = rw e at p.1 in rw p.0 (omega (int_laws, one_sided (b -ℤ a), p.2))
    | inr p ↦ rw p.0 (omega (int_laws, one_sided (a -ℤ a)))
  ]
]
