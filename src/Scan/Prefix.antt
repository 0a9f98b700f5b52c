-- ===== src/Scan/Prefix.antt =====
-- The scan as Triton defines it, a fold from the first element on, and the combination of a stretch
-- of elements, which the rounds of the doubling loop compute.
use spine_triton.Prelude.{
  ℕ, zero, suc, ◌+◌, ◌-◌, ◌*◌, ◌<◌, Bool, true, false, if◌then◌else◌, ltb, ◌≡◌, refl, sym, ap, ap₂,
  ◌∙◌, arith,
}

module _ {T : Type 0} (f : T → T → T) where
  -- The elements `lo` to `lo + n`, combined from the left.
  unfoldable pub stretch_from : (ℕ → T) → ℕ → ℕ → T
  stretch_from x lo zero = x lo
  stretch_from x lo (suc n) = f (stretch_from x lo n) (x (lo + suc n))

  -- The scan: element `k` combines the elements up to it, in the order of the scan.
  unfoldable pub scan_forward : (ℕ → T) → ℕ → T
  scan_forward x zero = x 0
  scan_forward x (suc k) = f (scan_forward x k) (x (suc k))

  -- A reverse scan starts at the last element.
  unfoldable pub mirrored : Bool → ℕ → ℕ → ℕ
  mirrored true size k = size - 1 - k
  mirrored false size k = k

  unfoldable pub scanned : Bool → ℕ → (ℕ → T) → ℕ → T
  unfolding mirrored
  scanned reverse size x k =
      scan_forward (λ j. x (mirrored reverse size j)) (mirrored reverse size k)

  pub stretch_from_zero : (x : ℕ → T) (k : ℕ) → stretch_from x 0 k ≡ scan_forward x k
  unfolding stretch_from scan_forward
  stretch_from_zero x zero = refl
  stretch_from_zero x (suc k) = ap₂ f (stretch_from_zero x k) (ap x (omega arith))

  -- What element `k` holds once the stride is `s`: the last `s` elements up to it.
  unfoldable pub window : (ℕ → T) → ℕ → ℕ → T
  window x s k = if ltb k s then stretch_from x 0 k else stretch_from x (suc k - s) (s - 1)

  module _ (Good : T → Type 0) (good : (a b : T) → Good a → Good b → Good (f a b))
      (assoc : (a b c : T) → Good a → Good b → Good c → f (f a b) c ≡ f a (f b c)) (x : ℕ → T)
      (bound : ℕ) (all : (k : ℕ) → k < bound → Good (x k)) where
    pub stretch_from_good : (lo n : ℕ) → lo + n < bound → Good (stretch_from x lo n)
    unfolding stretch_from
    stretch_from_good lo zero h = all lo (omega arith)
    stretch_from_good lo (suc n) h =
        good _ _ (stretch_from_good lo n (omega arith)) (all (lo + suc n) h)

    -- Two stretches, one after the other, make one.
    stretch_from-append :
        (lo m n : ℕ)
        → lo + suc m + n < bound
        → f (stretch_from x lo m) (stretch_from x (lo + suc m) n) ≡ stretch_from x lo (m + suc n)
    unfolding stretch_from
    stretch_from-append lo m zero h = let e : m + 1 ≡ suc m = omega arith in rw e refl
    stretch_from-append lo m (suc n) h =
        let e : m + suc (suc n) ≡ suc (m + suc n) = omega arith in
        let k : lo + suc m + suc n ≡ lo + suc (m + suc n) = omega arith in
        rw e (
          sym (
            assoc _ _ _ (stretch_from_good lo m (omega arith))
              (stretch_from_good (lo + suc m) n (omega arith)) (all _ h))
          ∙ ap₂ f (stretch_from-append lo m n (omega arith)) (ap x k))

    joined :
        (lo m lo' n total : ℕ)
        → lo' ≡ lo + suc m
        → total ≡ m + suc n
        → lo + total < bound
        → f (stretch_from x lo m) (stretch_from x lo' n) ≡ stretch_from x lo total
    joined lo m lo' n total p q h = rw (p, q) (stretch_from-append lo m n (omega arith))

    -- One round doubles the window.
    pub window-double :
        (s k : ℕ)
        → 0 < s
        → k < bound
        → window x (s * 2) k
          ≡ (if ltb k s then window x s k else f (window x s (k - s)) (window x s k))
    unfolding window
    window-double s k p h = ground (
      arith,
      joined 0 (k - s) (suc k - s) (s - 1) k,
      joined (suc k - s * 2) (s - 1) (suc k - s) (s - 1) (s * 2 - 1),
    )
