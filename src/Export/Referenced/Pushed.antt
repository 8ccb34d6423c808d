-- ===== src/Export/Referenced/Pushed.antt =====
-- What a round of getReferencedFromEntry pushes: the uses of a value, and their number.
use at_jit.Prelude.{
  none, some, ℕ, zero, suc, ◌+◌, ◌<◌, ◌≤◌, Bool, true, false, ◌||◌, List, [], ◌∷◌, ◌++◌, length,
  if◌then◌else◌, ◌==◌, ◌≡◌, inl, inr, refl, sym, ap, subst, arith, Bool-cases, ==_iff, ==_refl,
}
use at_jit.Export.Referenced.{Kind, function, variable, other, Values, mem, push_all, inner, uses}

pub mem-push_all :
    (v : ℕ) (us stack : List ℕ) → mem v (push_all us stack) ≡ (mem v us || mem v stack)
unfolding push_all
mem-push_all v [] stack = refl
mem-push_all v (u ∷ us) stack = ground (arith, mem-push_all v us (u ∷ stack))

pub length-push_all : (us stack : List ℕ) → length (push_all us stack) ≡ length us + length stack
unfolding push_all
length-push_all [] stack = omega arith
length-push_all (u ∷ us) stack = omega (arith, length-push_all us (u ∷ stack))

pub mem-append : (v u : ℕ) (us : List ℕ) → mem v (us ++ u ∷ []) ≡ (mem v us || u == v)
mem-append v u [] = ground arith
mem-append v u (w ∷ us) = ground (arith, mem-append v u us)

module _ (g : Values) where
  -- V is pushed for U.
  abbrev pub Pushed : ℕ → ℕ → Type 0
  Pushed u v = (mem v (g.operands u) || mem v (inner g (g.kind u))) ≡ true

  second : (a b : Bool) → b ≡ true → (a || b) ≡ true
  second a b h = ground arith

  -- U uses V.
  pub data Uses (u v : ℕ) : Type 0 where
    operand : mem v (g.operands u) ≡ true → Uses u v
    of_instruction : {ops : List ℕ} → g.kind u ≡ function ops → mem v ops ≡ true → Uses u v
    initializer : g.kind u ≡ variable (some v) → Uses u v

  by_kind : (k : Kind) (u v : ℕ) → g.kind u ≡ k → mem v (inner g k) ≡ true → Uses u v
  by_kind (function ops) u v e h = of_instruction e h
  by_kind (variable (some i)) u v e h =
      let same : i ≡ v = (==_iff i v).0 (only_one (i == v) h) in
      initializer (subst (λ j. g.kind u ≡ variable (some j)) same e)
    where
      only_one : (b : Bool) → (b || false) ≡ true → b ≡ true
      only_one b h = ground arith
  by_kind (variable none) u v e h = absurd (cc)
  by_kind other u v e h = absurd (cc)

  pub Pushed-Uses : (u v : ℕ) → Pushed u v → Uses u v
  Pushed-Uses u v h = elim (Bool-cases (mem v (g.operands u))) [
    | inl yes_operand ↦ operand yes_operand
    | inr no_operand ↦ by_kind (g.kind u) u v refl (rw no_operand at h)
  ]

  pub Uses-Pushed :
      (u v : ℕ) → Uses u v → (mem v (g.operands u) || mem v (inner g (g.kind u))) ≡ true
  Uses-Pushed u v (operand h) = rw h refl
  Uses-Pushed u v (of_instruction {ops} e h) =
      second (mem v (g.operands u)) (mem v (inner g (g.kind u)))
        (subst (λ k. mem v (inner g k) ≡ true) (sym e) h)
  Uses-Pushed u v (initializer e) =
      second (mem v (g.operands u)) (mem v (inner g (g.kind u)))
        (subst (λ k. mem v (inner g k) ≡ true) (sym e) (rw (==_refl v) refl))

  -- The uses of the values below n that are not visited
  pub weight : ℕ → List ℕ → ℕ
  weight zero visited = 0
  weight (suc n) visited =
      (if mem n visited then 0 else length (inner g (g.kind n)) + length (g.operands n))
      + weight n visited

  pub weight-fresh : (n : ℕ) → weight n [] ≡ uses g n
  unfolding weight
  weight-fresh zero = refl
  weight-fresh (suc n) = omega (arith, weight-fresh n)

  weight-above : (n u : ℕ) (visited : List ℕ) → n ≤ u → weight n (u ∷ visited) ≡ weight n visited
  unfolding weight
  weight-above zero u visited h = refl
  weight-above (suc n) u visited h =
      let ne : (u == n) ≡ false = ground arith in
      rw ne (
        ap
          (λ w.
            (if mem n visited then 0 else length (inner g (g.kind n)) + length (g.operands n)) + w)
          (weight-above n u visited (omega arith)))

  -- The uses of one value
  abbrev pub cost : ℕ → ℕ
  cost u = length (inner g (g.kind u)) + length (g.operands u)

  weight_self :
      (u : ℕ) (visited : List ℕ)
      → mem u visited ≡ false
      → weight (suc u) (u ∷ visited) + cost u ≡ weight (suc u) visited
  unfolding weight
  weight_self u visited new =
      rw (==_refl u, new) (omega (arith, weight-above u u visited (omega arith)))

  -- A visit takes the uses of the value out of the weight.
  pub weight-visit :
      (n u : ℕ) (visited : List ℕ)
      → u < n
      → mem u visited ≡ false
      → weight n (u ∷ visited) + cost u ≡ weight n visited
  unfolding weight
  weight-visit zero u visited h new = absurd (omega arith)
  weight-visit (suc n) u visited h new = elim (Bool-cases (u == n)) [
    | inl same ↦
        subst (λ k. weight (suc k) (u ∷ visited) + cost u ≡ weight (suc k) visited)
          ((==_iff u n).0 same) (weight_self u visited new)
    | inr differs ↦
        let lt : u < n = ground arith in rw differs (omega (arith, weight-visit n u visited lt new))
  ]
