-- ===== src/Scan/Value/Bindings.antt =====
-- What maps that a loop fills in a different order have in common: what is looked up.
use spine_triton.Prelude.{
  ℕ, suc, ◌+◌, ◌<◌, ◌==◌, ==_iff, length, get_elem?, List, [], ◌∷◌, ◌++◌, some, All, Bool-cases,
  inl, inr, ◌≡◌, refl, ap, ◌∙◌, arith,
}
use mathlib.Core.Path.{subst}
use spine_triton.Scan.Region.{Mapping, look_up, map_pair, map_arguments, map_results}
use spine_triton.Scan.Value.{bind, Absent, Distinct}

-- From index `i` on, a list reads as another one does.
abbrev pub ReadsFrom : {B : Type 0} → List B → ℕ → List B → Type 0
ReadsFrom xs i ys = (j : ℕ) → j < length ys → get_elem? xs (i + j) ≡ get_elem? ys j

first_of :
    {B : Type 0} (xs : List B) (i : ℕ) (y : B) (ys : List B)
    → ReadsFrom xs i (y ∷ ys)
    → get_elem? xs i ≡ some y
first_of xs i y ys h = ap (get_elem? xs) (omega arith) ∙ h 0 (omega arith)

rest_of :
    {B : Type 0} (xs : List B) (i : ℕ) (y : B) (ys : List B)
    → ReadsFrom xs i (y ∷ ys)
    → ReadsFrom xs (suc i) ys
rest_of xs i y ys h j k = ap (get_elem? xs) (omega arith) ∙ h (suc j) (omega arith)

All-Absent : (q : ℕ) (qs ps : List ℕ) → All (λ p. Absent p (q ∷ qs)) ps → All (λ p. Absent p qs) ps
All-Absent q qs [] h = tt
All-Absent q qs (p ∷ ps) h = (h.0.1, All-Absent q qs ps h.1)

module _ {A : Type 0} where
  pub look_up-after :
      (front a b : Mapping A) (id : ℕ)
      → look_up a id ≡ look_up b id
      → look_up (front ++ a) id ≡ look_up (front ++ b) id
  unfolding look_up
  look_up-after [] a b id h = h
  look_up-after ((k, v) ∷ front) a b id h = elim (Bool-cases (k == id)) [
    | inl e ↦ rw e refl
    | inr e ↦ rw e (look_up-after front a b id h)
  ]

  look_up-bind-Absent :
      (ids : List ℕ) (xs : List A) (env : Mapping A) (id : ℕ)
      → Absent id ids
      → look_up (bind ids xs ++ env) id ≡ look_up env id
  unfolding look_up
  look_up-bind-Absent [] xs env id h = refl
  look_up-bind-Absent (k ∷ ids) [] env id h = refl
  look_up-bind-Absent (k ∷ ids) (a ∷ xs) env id h = rw h.0 (look_up-bind-Absent ids xs env id h.1)

  -- A new entry may go before or after entries of other keys.
  look_up-bind_newest :
      (ids : List ℕ) (xs : List A) (k : ℕ) (a : A) (env : Mapping A) (id : ℕ)
      → Absent k ids
      → look_up (bind ids xs ++ (k, a) ∷ env) id ≡ look_up ((k, a) ∷ (bind ids xs ++ env)) id
  unfolding look_up
  look_up-bind_newest ids xs k a env id h = elim (Bool-cases (k == id)) [
    | inl e ↦
        look_up-bind-Absent ids xs ((k, a) ∷ env) id
          (subst (λ i. Absent i ids) ((==_iff k id).0 e) h)
        ∙ rw e refl
    | inr e ↦ look_up-after (bind ids xs) ((k, a) ∷ env) env id (rw e refl) ∙ rw e refl
  ]

  pub look_up-map_results :
      (ids : List ℕ) (xs : List A) (env : Mapping A) (id : ℕ)
      → Distinct ids
      → look_up (map_results ids xs env) id ≡ look_up (bind ids xs ++ env) id
  unfolding map_results
  look_up-map_results [] xs env id h = refl
  look_up-map_results (k ∷ ids) [] env id h = refl
  look_up-map_results (k ∷ ids) (a ∷ xs) env id h =
      look_up-map_results ids xs ((k, a) ∷ env) id h.1 ∙ look_up-bind_newest ids xs k a env id h.0

  -- The loop over the arguments, on the lists that are left.
  unfoldable pub pair_up : List ℕ → List ℕ → List A → List A → Mapping A → Mapping A
  pair_up (p ∷ ps) (q ∷ qs) (a ∷ xs) (b ∷ ys) env = pair_up ps qs xs ys ((q, b) ∷ (p, a) ∷ env)
  pair_up _ _ _ _ env = env

  pub map_arguments-pair_up :
      (ps qs args : List ℕ) (xs ys acc inputs : List A) (i : ℕ) (env : Mapping A)
      → length qs ≡ length ps
      → length xs ≡ length ps
      → length ys ≡ length ps
      → ReadsFrom args i ps
      → ReadsFrom args (length acc + i) qs
      → ReadsFrom acc i xs
      → ReadsFrom inputs i ys
      → map_arguments (length ps) i args acc inputs env ≡ some (pair_up ps qs xs ys env)
  unfolding map_arguments map_pair pair_up
  map_arguments-pair_up [] qs args xs ys acc inputs i env lq la lb hp hq ha hb = refl
  map_arguments-pair_up (p ∷ ps) (q ∷ qs) args (a ∷ xs) (b ∷ ys) acc inputs i env lq la lb hp hq ha
        hb =
      rw
        (
          first_of args i p ps hp,
          first_of args (length acc + i) q qs hq,
          first_of acc i a xs ha,
          first_of inputs i b ys hb,
        )
        (map_arguments-pair_up ps qs args xs ys acc inputs (suc i) ((q, b) ∷ (p, a) ∷ env)
          (omega arith) (omega arith) (omega arith) (rest_of args i p ps hp)
          (λ j k. ap (get_elem? args) (omega arith) ∙ rest_of args (length acc + i) q qs hq j k)
          (rest_of acc i a xs ha) (rest_of inputs i b ys hb))
  map_arguments-pair_up (p ∷ ps) [] args xs ys acc inputs i env lq la lb hp hq ha hb =
      absurd (omega arith)
  map_arguments-pair_up (p ∷ ps) (q ∷ qs) args [] ys acc inputs i env lq la lb hp hq ha hb =
      absurd (omega arith)
  map_arguments-pair_up (p ∷ ps) (q ∷ qs) args (a ∷ xs) [] acc inputs i env lq la lb hp hq ha hb =
      absurd (omega arith)

  pub look_up-pair_up :
      (ps qs : List ℕ) (xs ys : List A) (env : Mapping A) (id : ℕ)
      → length qs ≡ length ps
      → length xs ≡ length ps
      → length ys ≡ length ps
      → Distinct ps
      → Distinct qs
      → All (λ p. Absent p qs) ps
      → look_up (pair_up ps qs xs ys env) id ≡ look_up (bind ps xs ++ (bind qs ys ++ env)) id
  unfolding look_up pair_up
  look_up-pair_up [] [] xs ys env id lq la lb dp dq d = refl
  look_up-pair_up [] (q ∷ qs) xs ys env id lq la lb dp dq d = absurd (omega arith)
  look_up-pair_up (p ∷ ps) [] xs ys env id lq la lb dp dq d = absurd (omega arith)
  look_up-pair_up (p ∷ ps) (q ∷ qs) [] ys env id lq la lb dp dq d = absurd (omega arith)
  look_up-pair_up (p ∷ ps) (q ∷ qs) (a ∷ xs) [] env id lq la lb dp dq d = absurd (omega arith)
  look_up-pair_up (p ∷ ps) (q ∷ qs) (a ∷ xs) (b ∷ ys) env id lq la lb dp dq d =
      look_up-pair_up ps qs xs ys ((q, b) ∷ (p, a) ∷ env) id (omega arith) (omega arith)
        (omega arith) dp.1 dq.1 (All-Absent q qs ps d.1)
      ∙ look_up-after (bind ps xs) (bind qs ys ++ (q, b) ∷ (p, a) ∷ env)
          ((p, a) ∷ (q, b) ∷ (bind qs ys ++ env)) id
          (look_up-bind_newest qs ys q b ((p, a) ∷ env) id dq.0
            ∙ look_up-after ((q, b) ∷ []) (bind qs ys ++ (p, a) ∷ env)
                ((p, a) ∷ (bind qs ys ++ env)) id (look_up-bind_newest qs ys p a env id d.0.1)
            ∙ look_up-bind_newest (q ∷ []) (b ∷ []) p a (bind qs ys ++ env) id (d.0.0, tt))
      ∙ look_up-bind_newest ps xs p a ((q, b) ∷ (bind qs ys ++ env)) id dp.0
