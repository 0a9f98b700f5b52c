-- ===== src/Prelude/Wrap.antt =====
-- The value of an integer of a machine type: two's complement, with the wrap-around written out.
-- A type is given by `h`, half of its 2 ^ width values.
use Prim.Native.Nat.{ℕ, ◌+◌, ◌-◌, ◌%◌, ◌^◌, ◌≤◌, ◌<◌}
use mathlib.Core.Path.{◌≡◌}
use native.Mathlib.Nat.{mod-eq_of_lt}
use native.Mathlib.Omega.{arith}
use spine_triton.Prelude.Tests.{ltb, if◌then◌else◌}
use spine_triton.Prelude.Int.{ℤ, pos, negsuc, pos_part, neg_part}

-- The bit pattern of an integer, a number below 2 * h.
unfoldable pub bit_pattern : ℕ → ℤ → ℕ
bit_pattern h (pos n) = n % (h + h)
bit_pattern h (negsuc n) = h + h - 1 - n % (h + h)

unfoldable pub of_pattern : ℕ → ℕ → ℤ
of_pattern h p = if ltb p h then pos p else negsuc (h + h - 1 - p)

unfoldable pub wrap : ℕ → ℤ → ℤ
unfolding bit_pattern of_pattern
wrap h z = of_pattern h (bit_pattern h z)

-- -h ≤ z < h
abbrev pub InRange : ℕ → ℤ → Type 0
InRange h z = (pos_part z < h) × (neg_part z ≤ h)

pub wrap_self : (h : ℕ) (z : ℤ) → InRange h z → wrap h z ≡ z
unfolding wrap
wrap_self h (pos n) r = let e : n % (h + h) ≡ n = mod-eq_of_lt (omega arith) in rw e (ground arith)
wrap_self h (negsuc n) r =
    let e : n % (h + h) ≡ n = mod-eq_of_lt (omega arith) in rw e (ground arith)

pub bit_pattern-lt : (h : ℕ) (z : ℤ) → 0 < h → bit_pattern h z < h + h
unfolding bit_pattern
bit_pattern-lt h (pos n) r = omega arith
bit_pattern-lt h (negsuc n) r = omega arith

of_pattern-InRange : (h p : ℕ) → p < h + h → InRange h (of_pattern h p)
unfolding of_pattern
of_pattern-InRange h p r = ground arith

pub wrap-InRange : (h : ℕ) (z : ℤ) → 0 < h → InRange h (wrap h z)
unfolding wrap
wrap-InRange h z r = of_pattern-InRange h (bit_pattern h z) (bit_pattern-lt h z r)

-- The 64-bit integers of `int64_t` and of the index type.
abbrev pub half64 : ℕ
half64 = 2 ^ 63

unfoldable pub wrap64 : ℤ → ℤ
unfolding wrap
wrap64 z = wrap half64 z

abbrev pub In64 : ℤ → Type 0
In64 z = InRange half64 z

pub wrap64_self : (z : ℤ) → In64 z → wrap64 z ≡ z
unfolding wrap64
wrap64_self z r = wrap_self half64 z r

pub wrap64-In64 : (z : ℤ) → In64 (wrap64 z)
unfolding wrap64
wrap64-In64 z = wrap-InRange half64 z (omega arith)
