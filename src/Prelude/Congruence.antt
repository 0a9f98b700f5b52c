-- ===== src/Prelude/Congruence.antt =====
-- Equality of integers up to a multiple of 2 ^ 64, which index arithmetic keeps.
use Prim.Native.Nat.{ℕ, ◌+◌, ◌*◌, ◌/◌, ◌^◌, ◌<◌}
use mathlib.Core.Path.{◌≡◌, ap}
use mathlib.Core.Logic.{inl, inr}
use native.Mathlib.Omega.{arith}
use spine_triton.Prelude.Tests.{ltb, Bool-cases}
use spine_triton.Prelude.Int.{
  ℤ, pos, negsuc, pos_part, neg_part, sub_ℕ, ◌+ℤ◌, ◌-ℤ◌, ◌*ℤ◌, +ℤ_parts, -ℤ_parts, int_laws,
}
use spine_triton.Prelude.Wrap.{wrap64, wrap, bit_pattern, of_pattern, half64}

-- a + over * 2^64 = b + under * 2^64
pub record Congruent (a b : ℤ) : Type 0 where
  pub over : ℕ
  pub under : ℕ
  pub balance : pos_part a + neg_part b + over * 2 ^ 64 ≡ pos_part b + neg_part a + under * 2 ^ 64

pub Congruent-of_eq : {a b : ℤ} → a ≡ b → Congruent a b
Congruent-of_eq {a} {b} h = record { over = 0; under = 0; balance = rw h (omega arith) }

pub Congruent-sym : {a b : ℤ} → Congruent a b → Congruent b a
Congruent-sym h = record { over = h.under; under = h.over; balance = omega (arith, h.balance) }

pub Congruent-trans : {a b c : ℤ} → Congruent a b → Congruent b c → Congruent a c
Congruent-trans h j = record {
  over = h.over + j.over;
  under = h.under + j.under;
  balance = omega (arith, h.balance, j.balance);
}

pub +ℤ-Congruent : {a b c d : ℤ} → Congruent a b → Congruent c d → Congruent (a +ℤ c) (b +ℤ d)
+ℤ-Congruent h j = record {
  over = h.over + j.over;
  under = h.under + j.under;
  balance = omega (int_laws, h.balance, j.balance);
}

pub -ℤ-Congruent : {a b c d : ℤ} → Congruent a b → Congruent c d → Congruent (a -ℤ c) (b -ℤ d)
-ℤ-Congruent h j = record {
  over = h.over + j.under;
  under = h.under + j.over;
  balance = omega (int_laws, h.balance, j.balance);
}

of_pattern-Congruent : (p : ℕ) → p < 2 ^ 64 → Congruent (of_pattern half64 p) (pos p)
unfolding of_pattern
of_pattern-Congruent p r = elim (Bool-cases (ltb p half64)) [
  | inl e ↦ rw e (record { over = 0; under = 0; balance = omega arith })
  | inr e ↦ rw e (record { over = 1; under = 0; balance = omega arith })
]

pattern-Congruent : (z : ℤ) → Congruent (pos (bit_pattern half64 z)) z
unfolding bit_pattern
pattern-Congruent (pos n) = record { over = n / 2 ^ 64; under = 0; balance = omega arith }
pattern-Congruent (negsuc n) = record { over = 0; under = n / 2 ^ 64 + 1; balance = omega arith }

pattern-lt : (z : ℤ) → bit_pattern half64 z < 2 ^ 64
unfolding bit_pattern
pattern-lt (pos n) = omega arith
pattern-lt (negsuc n) = omega arith

pub wrap64-Congruent : (z : ℤ) → Congruent (wrap64 z) z
unfolding wrap64 wrap
wrap64-Congruent z =
    Congruent-trans (of_pattern-Congruent (bit_pattern half64 z) (pattern-lt z))
      (pattern-Congruent z)

sub_ℕ_parts : (m n : ℕ) → pos_part (sub_ℕ m n) + n ≡ neg_part (sub_ℕ m n) + m
sub_ℕ_parts m n = ground arith

-- The two parts of a product.
*ℤ_parts :
    (a x : ℤ)
    → pos_part (a *ℤ x) + (pos_part a * neg_part x + neg_part a * pos_part x)
      ≡ neg_part (a *ℤ x) + (pos_part a * pos_part x + neg_part a * neg_part x)
unfolding ◌*ℤ◌
*ℤ_parts a x =
    sub_ℕ_parts (pos_part a * pos_part x + neg_part a * neg_part x)
      (pos_part a * neg_part x + neg_part a * pos_part x)

pub *ℤ-Congruent_left : {a b : ℤ} (x : ℤ) → Congruent a b → Congruent (a *ℤ x) (b *ℤ x)
*ℤ-Congruent_left {a} {b} x h = record {
  over = h.over * pos_part x + h.under * neg_part x;
  under = h.over * neg_part x + h.under * pos_part x;
  balance = omega (
    arith,
    *ℤ_parts a x,
    *ℤ_parts b x,
    ap (λ t. t * pos_part x) h.balance,
    ap (λ t. t * neg_part x) h.balance,
  );
}

pub *ℤ-+ℤ_right : (a b x : ℤ) → (a +ℤ b) *ℤ x ≡ a *ℤ x +ℤ b *ℤ x
*ℤ-+ℤ_right a b x = omega (
  int_laws,
  *ℤ_parts (a +ℤ b) x,
  *ℤ_parts a x,
  *ℤ_parts b x,
  ap (λ t. t * pos_part x) (+ℤ_parts a b),
  ap (λ t. t * neg_part x) (+ℤ_parts a b),
)

pub *ℤ--ℤ_right : (a b x : ℤ) → (a -ℤ b) *ℤ x ≡ a *ℤ x -ℤ b *ℤ x
*ℤ--ℤ_right a b x = omega (
  int_laws,
  *ℤ_parts (a -ℤ b) x,
  *ℤ_parts a x,
  *ℤ_parts b x,
  ap (λ t. t * pos_part x) (-ℤ_parts a b),
  ap (λ t. t * neg_part x) (-ℤ_parts a b),
)

pub *ℤ_swap : (a b x : ℤ) → a *ℤ b *ℤ x ≡ a *ℤ x *ℤ b
*ℤ_swap a b x = omega (
  int_laws,
  *ℤ_parts (a *ℤ b) x,
  *ℤ_parts (a *ℤ x) b,
  ap (λ t. t * pos_part x) (*ℤ_parts a b),
  ap (λ t. t * neg_part x) (*ℤ_parts a b),
  ap (λ t. t * pos_part b) (*ℤ_parts a x),
  ap (λ t. t * neg_part b) (*ℤ_parts a x),
)

pub *ℤ_comm : (a b : ℤ) → a *ℤ b ≡ b *ℤ a
*ℤ_comm a b = omega (int_laws, *ℤ_parts a b, *ℤ_parts b a)

pub *ℤ-Congruent : {a b c d : ℤ} → Congruent a b → Congruent c d → Congruent (a *ℤ c) (b *ℤ d)
*ℤ-Congruent {a} {b} {c} {d} h k = Congruent-trans (*ℤ-Congruent_left c h) (
    Congruent-trans (Congruent-of_eq (*ℤ_comm b c))
      (Congruent-trans (*ℤ-Congruent_left b k) (Congruent-of_eq (*ℤ_comm d b))))
