-- ===== src/Scan/Enumerate.antt =====
-- The loops over linear indices against the indices of the leading dimensions.
use native.Mathlib.Nat.{
  mul-add-mod_self_right, mul-add-div_right, div-eq_of_lt, mod-eq_of_lt, mod-lt, div-add-mod',
  div-lt_iff_lt-mul, mul_assoc, add-mul, add-zero,
}
use spine_triton.Prelude.{
  ℕ, ◌+◌, ◌*◌, ◌/◌, ◌%◌, ◌<◌, List, [], ◌∷◌, ◌++◌, some, length, ◌≡◌, refl, sym, ap, ap₂, ◌∙◌,
  arith,
}
use spine_triton.Scan.Meaning.{Within, product, row_major, coordinates}
use spine_triton.Scan.Dispatch.{take, back, pop_back}

-- The row-major position of an index.
abbrev pub linear : List ℕ → List ℕ → ℕ
linear [] lead = 0
linear (k ∷ at) [] = 0
linear (k ∷ at) (n ∷ lead) = k * product lead + linear at lead

-- The strides of the leading dimensions, where `inner` elements stand below each index.
abbrev pub scaled : List ℕ → ℕ → List ℕ
scaled [] inner = []
scaled (n ∷ lead) inner = product lead * inner ∷ scaled lead inner

mul_lt_mul : (a b p : ℕ) → 0 < p → a < b → a * p < b * p
mul_lt_mul a b p h k = grind arith

linear_step : (k q l n : ℕ) → k < n → l < q → k * q + l < n * q
linear_step k q l n h b = grind arith

pub linear-lt : (at lead : List ℕ) → Within at lead → linear at lead < product lead
linear-lt [] [] w = omega arith
linear-lt [] (n ∷ lead) w = absurd w
linear-lt (k ∷ at) [] w = absurd w
linear-lt (k ∷ at) (n ∷ lead) w = linear_step k (product lead) _ n w.0 (linear-lt at lead w.1)

-- delinearize takes the position back to the index.
pub coordinates-linear :
    (at lead : List ℕ) (inner : ℕ)
    → 0 < inner
    → Within at lead
    → coordinates (linear at lead * inner) (scaled lead inner) ≡ at
coordinates-linear [] [] inner p w = refl
coordinates-linear [] (n ∷ lead) inner p w = absurd w
coordinates-linear (k ∷ at) [] inner p w = absurd w
coordinates-linear (k ∷ at) (n ∷ lead) inner p w =
    let l : ℕ = linear at lead in
    let size : ℕ = product lead * inner in
    let below : l * inner < size = mul_lt_mul l (product lead) inner p (linear-lt at lead w.1) in
    let split : (k * product lead + l) * inner ≡ k * size + l * inner =
      add-mul _ _ _ ∙ ap (λ (x : ℕ). x + l * inner) (mul_assoc k (product lead) inner) in
    ap₂ ◌∷◌
      (ap (λ (x : ℕ). x / size) split
        ∙ mul-add-div_right (omega arith) k (l * inner)
        ∙ ap (λ (x : ℕ). k + x) (div-eq_of_lt below)
        ∙ add-zero k)
      (ap (λ (x : ℕ). coordinates (x % size) (scaled lead inner)) split
        ∙ ap (λ (x : ℕ). coordinates x (scaled lead inner))
            (mul-add-mod_self_right k size (l * inner) ∙ mod-eq_of_lt below)
        ∙ coordinates-linear at lead inner p w.1)

-- Every position below the number of indices is that of one.
pub linear_surjective :
    (j : ℕ) (lead : List ℕ)
    → j < product lead
    → (at : List ℕ) × Within at lead × (linear at lead ≡ j)
linear_surjective j [] h = ([], tt, omega arith)
linear_surjective j (n ∷ lead) h =
    let q : ℕ = product lead in
    let full : 0 < q = grind arith in
    let (at, w, e) = linear_surjective (j % q) lead (mod-lt j full) in
    (
      j / q ∷ at,
      ((div-lt_iff_lt-mul full).1 h, w),
      ap (λ (x : ℕ). j / q * q + x) e ∙ div-add-mod' j q,
    )

pub product-append : (lead tail : List ℕ) → product (lead ++ tail) ≡ product lead * product tail
product-append [] tail = omega arith
product-append (n ∷ lead) tail =
    ap (λ (x : ℕ). n * x) (product-append lead tail)
    ∙ sym (mul_assoc n (product lead) (product tail))

pub take-row_major :
    (lead tail : List ℕ)
    → take (length lead) (row_major (lead ++ tail)) ≡ scaled lead (product tail)
unfolding take
take-row_major [] tail = refl
take-row_major (n ∷ lead) tail = ap₂ ◌∷◌ (product-append lead tail) (take-row_major lead tail)

pub pop_back-row_major :
    (lead : List ℕ) (n : ℕ) → pop_back (row_major (lead ++ n ∷ [])) ≡ scaled lead n
unfolding pop_back
pop_back-row_major [] n = refl
pop_back-row_major (a ∷ []) n = ap (λ (x : ℕ). x ∷ []) (omega arith)
pop_back-row_major (a ∷ b ∷ lead) n =
    ap₂ ◌∷◌
      (product-append (b ∷ lead) (n ∷ []) ∙ ap (λ (x : ℕ). product (b ∷ lead) * x) (omega arith))
      (pop_back-row_major (b ∷ lead) n)

pub back-append : (lead : List ℕ) (n : ℕ) → back (lead ++ n ∷ []) ≡ some n
unfolding back
back-append [] n = refl
back-append (a ∷ []) n = refl
back-append (a ∷ b ∷ lead) n = back-append (b ∷ lead) n

pub back-scaled : (a : ℕ) (lead : List ℕ) (inner : ℕ) → back (scaled (a ∷ lead) inner) ≡ some inner
unfolding back
back-scaled a [] inner = ap some (omega arith)
back-scaled a (b ∷ lead) inner = back-scaled b lead inner
