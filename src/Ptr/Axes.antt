-- ===== src/Ptr/Axes.antt =====
-- The axes that splats, expansions and broadcasts add to a pointer state.
use spine_triton.Prelude.{
  ℕ, zero, suc, ◌≤◌, ◌==◌, leb, if◌then◌else◌, List, [], ◌∷◌, pos, ◌+ℤ◌, ◌*ℤ◌, All, length,
  replicate, Option, none, some, true, false, ◌≡◌, refl, ap, inl, inr, int_laws, arith, zero-*ℤ,
}
use spine_triton.Ir.{Interp, stretch, drop_at, ok, Value}
use spine_triton.Ofr.{Ofr, IsIndex, ofr_value, index_attr}
use spine_triton.Mask.Parse.{insert_at}
use spine_triton.Mask.Coordinates.{Stretches}
use spine_triton.Ptr.State.{any_value}
use spine_triton.Ptr.Visit.{zeros, extents, insert_axis, broadcast_sizes}
use spine_triton.Ptr.Meaning.{total, walk}

pub zeros-IsIndex : (n : ℕ) → All IsIndex (zeros n)
zeros-IsIndex zero = tt
zeros-IsIndex (suc n) = (omega arith, zeros-IsIndex n)

pub insert_at-IsIndex :
    (a : ℕ) (os : List Ofr) → All IsIndex os → All IsIndex (insert_at a (index_attr (pos 0)) os)
insert_at-IsIndex zero os h = (omega arith, h)
insert_at-IsIndex (suc a) [] h = (omega arith, tt)
insert_at-IsIndex (suc a) (o ∷ os) h = (h.0, insert_at-IsIndex a os h.1)

pub no_modulos : (n : ℕ) → any_value (replicate n none) ≡ false
no_modulos zero = refl
no_modulos (suc n) = no_modulos n

pub any_value-insert_at :
    (a : ℕ) (ms : List (Option Value))
    → any_value ms ≡ false
    → any_value (insert_at a none ms) ≡ false
any_value-insert_at zero ms h = h
any_value-insert_at (suc a) [] h = refl
any_value-insert_at (suc a) (none ∷ ms) h = any_value-insert_at a ms h
any_value-insert_at (suc a) (some m ∷ ms) h = cc

module _ {ℓ} {A : Type ℓ} where
  pub length-insert_at : (a : ℕ) (d : A) (ds : List A) → length (insert_at a d ds) ≡ suc (length ds)
  length-insert_at zero d ds = refl
  length-insert_at (suc a) d [] = refl
  length-insert_at (suc a) d (e ∷ ds) = ap suc (length-insert_at a d ds)

  pub insert_axis_lem :
      (a : ℕ) (d : A) (ds : List A) (n : ℕ)
      → a ≤ length ds
      → insert_axis a d ds n ≡ ok (insert_at a d ds) n
  unfolding insert_axis
  insert_axis_lem zero d ds n h = refl
  insert_axis_lem (suc a) d [] n h = absurd (omega arith)
  insert_axis_lem (suc a) d (e ∷ ds) n h = rw (insert_axis_lem a d ds n (omega arith)) refl

pub stretch-drop_at :
    (a : ℕ) (ns idx : List ℕ)
    → a ≤ length ns
    → drop_at a (stretch (insert_at a 1 ns) idx) ≡ stretch ns (drop_at a idx)
stretch-drop_at zero [] [] h = refl
stretch-drop_at zero (n ∷ ns) [] h = refl
stretch-drop_at zero ns (i ∷ idx) h = refl
stretch-drop_at (suc a) [] idx h = absurd (omega arith)
stretch-drop_at (suc a) (n ∷ ns) [] h = refl
stretch-drop_at (suc a) (n ∷ ns) (i ∷ idx) h =
    ap (λ r. (if n == 1 then 0 else i) ∷ r) (stretch-drop_at a ns idx (omega arith))

pub stretch_twice :
    (ms ns idx : List ℕ) → Stretches ms ns → stretch ms (stretch ns idx) ≡ stretch ms idx
stretch_twice [] [] idx h = refl
stretch_twice (m ∷ ms) (n ∷ ns) [] h = refl
stretch_twice (m ∷ ms) (n ∷ ns) (i ∷ idx) h =
    rw (stretch_twice ms ns idx h.1) (ap (λ r. r ∷ stretch ms idx) head)
  where
    head : (if m == 1 then 0 else (if n == 1 then 0 else i)) ≡ (if m == 1 then 0 else i)
    head = elim h.0 [ inl e ↦ ground arith | inr e ↦ ground arith ]
stretch_twice [] (n ∷ ns) idx h = absurd h
stretch_twice (m ∷ ms) [] idx h = absurd h

pub broadcast_sizes_lem :
    (ms ns : List ℕ) (n : ℕ)
    → Stretches ms ns
    → broadcast_sizes ms ns (extents ms) n ≡ ok (extents ns) n
unfolding broadcast_sizes
broadcast_sizes_lem [] [] n h = refl
broadcast_sizes_lem (m ∷ ms) (k ∷ ns) n h = rw (fits, broadcast_sizes_lem ms ns n h.1, pick) refl
  where
    fits : leb m k ≡ true
    fits = elim h.0 [ inl e ↦ ground arith | inr e ↦ ground arith ]

    pick : (if m == k then index_attr (pos m) else index_attr (pos k)) ≡ index_attr (pos k)
    pick = elim h.0 [ inl e ↦ rw e (ground arith) | inr e ↦ ground arith ]
broadcast_sizes_lem [] (k ∷ ns) n h = absurd h
broadcast_sizes_lem (m ∷ ms) [] n h = absurd h

module _ (I : Interp) where
  pub total-zeros : (n : ℕ) → total I (zeros n) ≡ pos 0
  total-zeros zero = refl
  total-zeros (suc n) = rw (total-zeros n) (omega int_laws)

  pub walk-zeros : (n : ℕ) (idx : List ℕ) → walk I (zeros n) idx ≡ pos 0
  walk-zeros zero idx = refl
  walk-zeros (suc n) [] = refl
  walk-zeros (suc n) (i ∷ idx) = rw (walk-zeros n idx, zero-*ℤ (pos i)) (omega int_laws)

  pub total-insert_at :
      (a : ℕ) (os : List Ofr) → total I (insert_at a (index_attr (pos 0)) os) ≡ total I os
  total-insert_at zero os = omega int_laws
  total-insert_at (suc a) [] = omega int_laws
  total-insert_at (suc a) (o ∷ os) = ap (λ t. ofr_value I o +ℤ t) (total-insert_at a os)

  pub walk-insert_at :
      (a : ℕ) (ss : List Ofr) (idx : List ℕ)
      → a ≤ length ss
      → walk I (insert_at a (index_attr (pos 0)) ss) idx ≡ walk I ss (drop_at a idx)
  walk-insert_at zero [] [] h = refl
  walk-insert_at zero (s ∷ ss) [] h = refl
  walk-insert_at zero ss (i ∷ idx) h = rw (zero-*ℤ (pos i)) (omega int_laws)
  walk-insert_at (suc a) [] idx h = absurd (omega arith)
  walk-insert_at (suc a) (s ∷ ss) [] h = refl
  walk-insert_at (suc a) (s ∷ ss) (i ∷ idx) h =
      ap (λ t. ofr_value I s *ℤ pos i +ℤ t) (walk-insert_at a ss idx (omega arith))
