-- ===== src/Scan/Line/Rounds.antt =====
-- One round of lower1DInput's loop, lane by lane.
use spine_triton.Prelude.{
  ℕ, suc, ◌+◌, ◌-◌, ◌<◌, Bool, true, false, if◌then◌else◌, List, [], ◌∷◌, some, length, get_elem?,
  All, ◌≡◌, refl, sym, ap, ap₂, ◌∙◌, arith,
}
use spine_triton.Scan.Region.{Block, Dialect, Mapping, Yields, Yields-bind, accumulate}
use spine_triton.Scan.Meaning.{Meaning, lanes}
use spine_triton.Scan.Accumulate.{Fits}
use spine_triton.Scan.Combining.{CombinesBy, accumulate-Tuple}
use spine_triton.Scan.Line.{shuffle_indices, mask_values, shuffle_each, select_each, line_round}
use spine_triton.Scan.Line.Indices.{
  takes_part, partner, shuffle_indices_lem, mask_values_lem, length-shuffle_indices,
}

module _ {V E : Type 0} {d : Dialect V} (m : Meaning d E) (size : ℕ) where
  abbrev pub Sized : List V → Type 0
  Sized vs = All (λ v. d.shape v ≡ size ∷ []) vs

  shuffle_each-Sized :
      (indices : List ℕ) (vs us : List V)
      → length indices ≡ size
      → Sized (shuffle_each d indices vs us)
  unfolding shuffle_each
  shuffle_each-Sized indices [] us h = tt
  shuffle_each-Sized indices (v ∷ vs) [] h = tt
  shuffle_each-Sized indices (v ∷ vs) (u ∷ us) h =
      (m.shuffle_shape v u indices ∙ ap (λ (n : ℕ). n ∷ []) h, shuffle_each-Sized indices vs us h)

  length-shuffle_each :
      (indices : List ℕ) (vs us : List V)
      → length us ≡ length vs
      → length (shuffle_each d indices vs us) ≡ length vs
  unfolding shuffle_each
  length-shuffle_each indices [] us h = refl
  length-shuffle_each indices (v ∷ vs) [] h = absurd (omega arith)
  length-shuffle_each indices (v ∷ vs) (u ∷ us) h =
      ap suc (length-shuffle_each indices vs us (omega arith))

  shuffle_each-lanes :
      (indices : List ℕ) (vs us : List V) (k j : ℕ)
      → Sized vs
      → length us ≡ length vs
      → get_elem? indices k ≡ some j
      → j < size
      → lanes m (k ∷ []) (shuffle_each d indices vs us) ≡ lanes m (j ∷ []) vs
  unfolding shuffle_each
  shuffle_each-lanes indices [] us k j a h e b = refl
  shuffle_each-lanes indices (v ∷ vs) [] k j a h e b = absurd (omega arith)
  shuffle_each-lanes indices (v ∷ vs) (u ∷ us) k j a h e b =
      ap₂ ◌∷◌ (m.shuffle_lane v u indices size k j a.0 e b)
        (shuffle_each-lanes indices vs us k j a.1 (omega arith) e b)

  pub record Selected (mask : List Bool) (news olds out : List V) : Type 0 where
    pub counted : length out ≡ length olds
    pub formed : Sized out
    pub chosen :
        (k : ℕ) (c : Bool)
        → get_elem? mask k ≡ some c
        → lanes m (k ∷ []) out ≡ (if c then lanes m (k ∷ []) news else lanes m (k ∷ []) olds)

  select_each-Selected :
      (mask : List Bool) (news olds : List V)
      → length news ≡ length olds
      → Sized olds
      → Yields (Selected mask news olds) (select_each d mask news olds)
  unfolding select_each
  select_each-Selected mask [] [] h a = record {
    counted = refl;
    formed = tt;
    chosen = λ k c e. ground arith;
  }
  select_each-Selected mask (n ∷ news) [] h a = absurd (omega arith)
  select_each-Selected mask [] (o ∷ olds) h a = absurd (omega arith)
  select_each-Selected mask (n ∷ news) (o ∷ olds) h a =
      Yields-bind (Selected mask (n ∷ news) (o ∷ olds)) (select_each d mask news olds) _
        (select_each-Selected mask news olds (omega arith) a.1)
        (λ rest r. record {
          counted = ap suc r.counted;
          formed = (m.select_shape mask n o ∙ a.0, r.formed);
          chosen = λ k c e. ground (arith, m.select_lane mask n o k c e, r.chosen k c e);
        })

module _ {V E : Type 0} {d : Dialect V} {m : Meaning d E} {block : Block} {width : ℕ}
    {f : List E → List E → List E} (c : CombinesBy m block width f) (size : ℕ)
    (pos : 0 < width) where
  -- As many vectors of the size as the region takes accumulators, with the given lanes.
  pub record Row (t : ℕ → List E) (r : List V × Mapping V) : Type 0 where
    pub counted : length r.0 ≡ width
    pub formed : Sized m size r.0
    pub valued : (k : ℕ) → k < size → lanes m (k ∷ []) r.0 ≡ t k
    pub fitting : Fits m (size ∷ []) r.1

  pub Row-map :
      (t u : ℕ → List E) (r : List V × Mapping V)
      → ((k : ℕ) → k < size → t k ≡ u k)
      → Row t r
      → Row u r
  Row-map t u r e w = record {
    counted = w.counted;
    formed = w.formed;
    valued = λ k h. w.valued k h ∙ e k h;
    fitting = w.fitting;
  }

  -- The lanes after a round.
  abbrev pub after_round : Bool → ℕ → (ℕ → List E) → ℕ → List E
  after_round reverse stride t k =
      if takes_part reverse size stride k then f (t (partner reverse stride k)) (t k) else t k

  lane_after :
      (reverse : Bool) (stride k : ℕ) (t : ℕ → List E) (old : ℕ → List E) (new : List E)
      → k < size
      → stride < size
      → ((k : ℕ) → k < size → old k ≡ t k)
      → new ≡ (
          if takes_part reverse size stride k
          then f
              (old (if takes_part reverse size stride k then partner reverse stride k else 0))
              (old k)
          else old k)
      → new ≡ after_round reverse stride t k
  lane_after true stride k t old new h b o e = ground (arith, o k, o (k + stride))
  lane_after false stride k t old new h b o e = ground (arith, o k, o (k - stride))

  partner_bound :
      (reverse : Bool) (stride k : ℕ)
      → k < size
      → (if takes_part reverse size stride k then partner reverse stride k else 0) < size
  partner_bound true stride k h = ground arith
  partner_bound false stride k h = ground arith

  pub line_round-Row :
      (reverse : Bool) (stride : ℕ) (dummies res : List V) (inv : Mapping V) (t : ℕ → List E)
      → stride < size
      → length dummies ≡ width
      → Row t (res, inv)
      → Yields
          (Row (after_round reverse stride t))
          (line_round d block reverse size stride dummies res inv)
  unfolding line_round
  line_round-Row reverse stride dummies res inv t h q w =
      let same : length dummies ≡ length res = q ∙ sym w.counted in
      Yields-bind (Row (after_round reverse stride t))
        (accumulate d block res (shuffled dummies res) inv) _
        (accumulate-Tuple c (size ∷ []) res _ inv pos w.counted
          (length-shuffle_each m size _ res dummies same ∙ w.counted) w.formed
          (shuffle_each-Sized m size _ res dummies (length-shuffle_indices reverse size stride))
          w.fitting)
        (λ r p.
          Yields-bind (Row (after_round reverse stride t))
            (select_each d (mask_values reverse size stride) r.0 res) _
            (select_each-Selected m size (mask_values reverse size stride) r.0 res
              (p.sized ∙ sym w.counted) w.formed)
            (λ out s. record {
              counted = s.counted ∙ w.counted;
              formed = s.formed;
              valued = λ k b.
                  lane_after reverse stride k t (λ k. lanes m (k ∷ []) res) _ b h w.valued
                    (s.chosen k _ (mask_values_lem reverse size stride k h b)
                      ∙ ap
                          (λ x.
                            if takes_part reverse size stride k then x else lanes m (k ∷ []) res)
                          (p.valued (k ∷ [])
                            ∙ ap (λ x. f x (lanes m (k ∷ []) res))
                                (shuffle_each-lanes m size _ res dummies k _ w.formed same
                                  (shuffle_indices_lem reverse size stride k h b)
                                  (partner_bound reverse stride k b))));
              fitting = p.fitting;
            }))
    where
      shuffled : List V → List V → List V
      shuffled dummies res = shuffle_each d (shuffle_indices reverse size stride) res dummies
