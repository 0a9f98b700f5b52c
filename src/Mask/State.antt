-- ===== src/Mask/State.antt =====
-- include/triton-shared/Analysis/MaskAnalysis.h and lib/Analysis/MaskAnalysis.cpp: the state of the
-- mask analysis and the operations on states. `useUnsafeMask` is not modelled: no parser reads it.
use spine_triton.Prelude.{
  ℕ, length, Bool, true, false, not, ◌&&◌, ◌==◌, Option, none, some, List, [], ◌∷◌, if◌then◌else◌,
}
use spine_triton.Ir.{M, pure, fail, crash, ◌>>=◌}
use spine_triton.Ofr.{Ofr, add_ofrs, min_ofrs}

pub record MaskState : Type 0 where
  pub start : Option Ofr
  pub end : Option Ofr
  pub dims : List Ofr
  pub scalar : Option Ofr

abbrev pub is_some {ℓ} : {A : Type ℓ} → Option A → Bool
is_some (some _) = true
is_some none = false

abbrev pub get_rank : MaskState → ℕ
get_rank s = length s.dims

abbrev pub is_empty : MaskState → Bool
is_empty s =
    (get_rank s == 0) && (not (is_some s.scalar) && (not (is_some s.start) && not (is_some s.end)))

abbrev pub is_mask : MaskState → Bool
is_mask s =
    not (is_some s.start)
    && (not (is_some s.end) && (not (is_some s.scalar) && not (get_rank s == 0)))

-- A state of `dims` alone, as a mask has.
abbrev pub dims_only : List Ofr → MaskState
dims_only ds = record { start = none; end = none; dims = ds; scalar = none }

-- Reading a null OpFoldResult, or past the end of `dims`, is a fault.
abbrev pub need {ℓ} : {A : Type ℓ} → Option A → M A
need (some o) = pure o
need none = crash

unfoldable pub add_state_scalar : MaskState → Ofr → M MaskState
add_state_scalar s scalar = do
  old_start ← need s.start
  new_start ← add_ofrs old_start scalar
  old_end ← need s.end
  new_end ← add_ofrs old_end scalar
  pure (record { start = some new_start; end = some new_end; dims = s.dims; scalar = none })

add_by_scalars : Option Ofr → Option Ofr → MaskState → MaskState → M MaskState
unfolding add_state_scalar
add_by_scalars (some _) (some _) l r = fail
add_by_scalars none none l r = fail
add_by_scalars (some a) none l r = add_state_scalar r a
add_by_scalars none (some b) l r = add_state_scalar l b

unfoldable pub add_states : MaskState → MaskState → M MaskState
unfolding add_by_scalars
add_states l r = add_by_scalars l.scalar r.scalar l r

-- The minimum of one dimension with each of a list.
min_left : Ofr → List Ofr → M (List Ofr)
min_left d [] = pure []
min_left d (e ∷ es) = do m ← min_ofrs d e; ms ← min_left d es; pure (m ∷ ms)

unfoldable pub min_right : List Ofr → Ofr → M (List Ofr)
min_right [] e = pure []
min_right (d ∷ ds) e = do m ← min_ofrs d e; ms ← min_right ds e; pure (m ∷ ms)

abbrev pub first {ℓ} : {A : Type ℓ} → List A → Option A
first [] = none
first (x ∷ xs) = some x

-- The loops read `dims[0]` of the scalar side in each round.
min_first_left : List Ofr → List Ofr → M (List Ofr)
unfolding min_left
min_first_left ds [] = pure []
min_first_left ds es = do d ← need (first ds); min_left d es

unfoldable pub min_first_right : List Ofr → List Ofr → M (List Ofr)
unfolding min_right
min_first_right [] es = pure []
min_first_right ds es = do e ← need (first es); min_right ds e

min_firsts : List Ofr → List Ofr → M (List Ofr)
min_firsts ds es = do d ← need (first ds); e ← need (first es); m ← min_ofrs d e; pure (m ∷ [])

unfoldable pub min_by_scalars : Option Ofr → Option Ofr → List Ofr → List Ofr → M (List Ofr)
unfolding min_firsts min_first_left min_first_right
min_by_scalars (some _) (some _) ds es = min_firsts ds es
min_by_scalars (some _) none ds es = min_first_left ds es
min_by_scalars none (some _) ds es = min_first_right ds es
min_by_scalars none none ds es = fail

unfoldable pub min_state_scalar : MaskState → MaskState → M MaskState
unfolding min_by_scalars
min_state_scalar l r = do ds ← min_by_scalars l.scalar r.scalar l.dims r.dims; pure (dims_only ds)

-- Lists of different lengths stand for states of different ranks.
unfoldable pub min_dims : List Ofr → List Ofr → M (List Ofr)
min_dims [] [] = pure []
min_dims (d ∷ ds) (e ∷ es) = do m ← min_ofrs d e; ms ← min_dims ds es; pure (m ∷ ms)
min_dims _ _ = fail

unfoldable pub min_states : MaskState → MaskState → M MaskState
min_states l r =
    if get_rank l == get_rank r
    then (min_dims l.dims r.dims >>= λ ds. pure (dims_only ds))
    else fail
