-- ===== src/Mask/Parse.antt =====
-- lib/Analysis/MaskAnalysis.cpp: the parsers. A parser is called on an empty state and returns the
-- state that it fills in; the states of a failed call are dropped by every caller.
use spine_triton.Prelude.{
  ℕ, zero, suc, ◌+◌, ◌-◌, ◌/◌, ◌%◌, ◌^◌, length, get_elem?, set, ltb, Bool, true, false, not, ◌&&◌,
  ◌||◌, ◌==◌, Option, none, some, List, [], ◌∷◌, ◌++◌, map, ℤ, pos, if◌then◌else◌,
}
use spine_triton.Ir.{
  ElementType, Ty, integer, index_ty, shape_of, is_shaped, is_integer, is_integer_ty, element_type,
  Value, type_of, element_of, ConstAttr, integer_attr, dense_splat, dense_other, Predicate, slt,
  sge, ult, block_arg, loop_arg, constant, binary, addi, andi, cmpi, make_range, splat, broadcast,
  expand_dims, ext_si, M, pure, fail, crash, check, ◌>>=◌, ◌>>◌, create_constant, create_index_cast,
  create_select,
}
use spine_triton.Ofr.{
  Ofr, value, index_attr, get_int_attr, has_const_zero, ofr_to_index_value, add_ofrs, sub_ofrs,
  min_ofrs, max_ofrs, compare_ofrs,
}
use spine_triton.Mask.State.{
  MaskState, is_mask, dims_only, is_some, need, add_states, min_states, min_state_scalar,
}

abbrev pub shape_dims : List ℕ → List Ofr
shape_dims ns = map (λ n. index_attr (pos n)) ns

abbrev pub scalar_state : Ofr → List Ofr → MaskState
scalar_state o ds = record { start = none; end = none; dims = ds; scalar = some o }

-- A dense constant is materialised as an operation, and its integer kept.
unfoldable pub parse_constant : Ty → ConstAttr → M MaskState
parse_constant t (integer_attr z) = pure (scalar_state (index_attr z) (shape_dims (shape_of t)))
parse_constant t (dense_splat z) = do
  check (is_integer (element_type t))
  create_constant z
  pure (scalar_state (index_attr z) (shape_dims (shape_of t)))
parse_constant t dense_other = crash

unfoldable pub parse_int_scalar : Value → M MaskState
parse_int_scalar v = do c ← create_index_cast index_ty v; pure (scalar_state (value c) [])

unfoldable pub parse_add : M MaskState → M MaskState → M MaskState
parse_add lhs rhs = do l ← lhs; r ← rhs; add_states l r

unfoldable pub parse_and : M MaskState → M MaskState → M MaskState
parse_and lhs rhs = do
  l ← lhs
  r ← rhs
  (if not (is_mask l) || not (is_mask r) then min_state_scalar l r else min_states l r)

abbrev pub is_supported : Predicate → Bool
is_supported slt = true
is_supported ult = true
is_supported sge = true
is_supported _ = false

abbrev is_sge : Predicate → Bool
is_sge sge = true
is_sge _ = false

abbrev pub is_one : Option ℤ → Bool
is_one (some (pos (suc zero))) = true
is_one _ = false

-- The loop over the dimensions: the one whose size is not the constant 1, if `found` has none yet.
unfoldable pub find_cmp_dim : Option ℕ → ℕ → List Ofr → M (Option ℕ)
find_cmp_dim found i [] = pure found
find_cmp_dim found i (d ∷ ds) =
    let rest = find_cmp_dim found (suc i) ds in
    let here = find_cmp_dim (some i) (suc i) ds in
    if is_one (get_int_attr d) then rest else if is_some found then fail else here

-- The test of sge: the right side is the scalar zero.
unfoldable pub has_zero_scalar : Option Ofr → M Bool
has_zero_scalar (some o) = has_const_zero o
has_zero_scalar none = pure false

dim_at : List Ofr → Option ℕ → M Ofr
dim_at ds (some k) = need (get_elem? ds k)
dim_at ds none = crash

-- dim = max(min(end, scalar), start) - start
unfoldable pub clamp_dim : MaskState → MaskState → M Ofr
clamp_dim l r = do
  old_end ← need l.end
  bound ← need r.scalar
  start ← need l.start
  low ← min_ofrs old_end bound
  new_end ← max_ofrs low start
  sub_ofrs new_end start

-- dim = lhs < rhs ? lhs.dim : 0
unfoldable pub choose_dim : Predicate → Ofr → MaskState → MaskState → Option ℕ → M Ofr
unfolding dim_at
choose_dim p a l r k = do
  b ← need r.scalar
  d ← dim_at l.dims k
  compare_ofrs a b p d (index_attr (pos 0))

new_dim_of : Option Ofr → Predicate → MaskState → MaskState → Option ℕ → M Ofr
unfolding choose_dim clamp_dim dim_at
new_dim_of (some a) p l r k = choose_dim p a l r k
new_dim_of none slt l r k = clamp_dim l r
new_dim_of none ult l r k = clamp_dim l r
new_dim_of none _ l r k = dim_at l.dims k

-- The assertion before it: with no dimension found the left side is a range and the test is slt, or
-- the test is ult.
cmp_dim_ok : Option ℕ → Bool → Predicate → Bool
cmp_dim_ok (some _) has_scalar p = true
cmp_dim_ok none has_scalar slt = not has_scalar
cmp_dim_ok none has_scalar ult = true
cmp_dim_ok none has_scalar _ = false

replace_dim : List Ofr → Option ℕ → Ofr → List Ofr
replace_dim ds none d = ds
replace_dim ds (some k) d = set ds k d

unfoldable pub cmp_states : Predicate → MaskState → MaskState → M MaskState
unfolding find_cmp_dim cmp_dim_ok new_dim_of replace_dim
cmp_states p l r = do
  k ← find_cmp_dim (if is_some l.scalar && is_some r.scalar then some 0 else none) 0 l.dims
  check (cmp_dim_ok k (is_some l.scalar) p)
  d ← new_dim_of l.scalar p l r k
  pure (dims_only (replace_dim l.dims k d))

unfoldable pub parse_cmp : Predicate → M MaskState → M MaskState → M MaskState
unfolding has_zero_scalar
parse_cmp p lhs rhs = if not (is_supported p) then fail else (do
  l ← lhs
  r ← rhs
  zero_rhs ← (if is_sge p then has_zero_scalar r.scalar else pure true)
  (if zero_rhs then cmp_states p l r else fail))

-- A state with neither start nor end stands for its scalar.
init_range : MaskState → M MaskState
init_range s =
    if not (is_some s.start) && not (is_some s.end)
    then (do
      o ← need s.scalar
      pure (record {
        start = some (index_attr (pos 0));
        end = some o;
        dims = s.dims;
        scalar = s.scalar;
      }))
    else pure s

unfoldable pub parse_loop_iter_arg : Bool → M MaskState → Value → M MaskState
unfolding init_range
parse_loop_iter_arg nested init next = if nested then fail else (do
  parsed ← init
  s ← init_range parsed
  start ← need s.start
  end ← need s.end
  dist ← sub_ofrs end start
  new_end ← add_ofrs (value next) dist
  pure (record { start = some (value next); end = some new_end; dims = s.dims; scalar = none }))

-- `end - start` is of uint32_t, and the division of int64_t.
unfoldable pub parse_make_range : ℕ → ℕ → ℕ → M MaskState
parse_make_range start end n =
    if (((end + 2 ^ 32 - start) % 2 ^ 32 + n - 1) / n) == 1
    then pure (record {
      start = some (index_attr (pos start));
      end = some (index_attr (pos end));
      dims = index_attr (pos n) ∷ [];
      scalar = none;
    })
    else fail

-- The extents that a broadcast stretches replace those of the state; `none` is the unreachable case.
unfoldable pub broadcast_dims : List ℕ → List ℕ → List Ofr → M (List Ofr)
broadcast_dims (m ∷ ms) (n ∷ ns) (d ∷ ds) = if ltb n m then crash else (do
  rest ← broadcast_dims ms ns ds
  pure ((if m == n then d else index_attr (pos n)) ∷ rest))
broadcast_dims (m ∷ ms) _ _ = crash
broadcast_dims [] ns ds = pure ds

unfoldable pub parse_broadcast : Ty → Ty → M MaskState → M MaskState
unfolding broadcast_dims
parse_broadcast src dst parsed = do
  check (is_shaped src)
  check (length (shape_of src) == length (shape_of dst))
  s ← parsed
  (if ltb (length s.dims) (length (shape_of src)) then fail else (do
    ds ← broadcast_dims (shape_of src) (shape_of dst) s.dims
    pure (record s { dims = ds })))

-- dim[i] = select(src, shape[i], 0)
unfoldable pub select_dims : Value → List ℕ → M (List Ofr)
select_dims v [] = pure []
select_dims v (n ∷ ns) = do
  full ← ofr_to_index_value (index_attr (pos n))
  empty ← ofr_to_index_value (index_attr (pos 0))
  d ← create_select v full empty
  ds ← select_dims v ns
  pure (value d ∷ ds)

abbrev pub is_i1 : ElementType → Bool
is_i1 (integer (suc zero)) = true
is_i1 _ = false

unfoldable pub parse_splat : Value → Ty → M MaskState → M MaskState
unfolding select_dims
parse_splat v dst parsed =
    if not (is_integer_ty (type_of v))
    then fail
    else (if is_i1 (element_of v)
        then (select_dims v (shape_of dst) >>= λ ds. pure (dims_only ds))
        else (parsed >>= λ s. pure (record s { dims = s.dims ++ shape_dims (shape_of dst) })))

module _ {ℓ} {A : Type ℓ} where
  abbrev pub insert_at : ℕ → A → List A → List A
  insert_at zero d ds = d ∷ ds
  insert_at (suc k) d [] = d ∷ []
  insert_at (suc k) d (e ∷ ds) = e ∷ insert_at k d ds

unfoldable pub parse_expand_dims : Ty → ℕ → M MaskState → M MaskState
parse_expand_dims dst axis parsed = do
  s ← parsed
  extent ← need (get_elem? (shape_of dst) axis)
  check (extent == 1)
  (if ltb (length s.dims) axis
      then fail
      else pure (record s { dims = insert_at axis (index_attr (pos 1)) s.dims }))

-- An operand of integer type is a scalar, whatever defines it but a constant.
unfoldable pub scalar_or : Value → M MaskState → M MaskState
unfolding parse_int_scalar
scalar_or v other = if is_integer_ty (type_of v) then parse_int_scalar v else other

unfoldable pub parse : Value → M MaskState
unfolding scalar_or
parse (constant i t a) = parse_constant t a
parse (binary i addi l r) = scalar_or (binary i addi l r) (parse_add (parse l) (parse r))
parse (binary i andi l r) = scalar_or (binary i andi l r) (parse_and (parse l) (parse r))
parse (cmpi i p l r) = scalar_or (cmpi i p l r) (parse_cmp p (parse l) (parse r))
parse (make_range i start end n) = parse_make_range start end n
parse (broadcast i t v) = scalar_or (broadcast i t v) (parse_broadcast (type_of v) t (parse v))
parse (splat i t v) = scalar_or (splat i t v) (parse_splat v t (parse v))
parse (expand_dims i t axis v) =
    scalar_or (expand_dims i t axis v) (parse_expand_dims t axis (parse v))
parse (block_arg i t) = scalar_or (block_arg i t) fail
parse (loop_arg i t nested init next) =
    scalar_or (loop_arg i t nested init next) (parse_loop_iter_arg nested (parse init) next)
parse (ext_si i t v) = scalar_or (ext_si i t v) (parse v)
parse v = scalar_or v fail
