-- ===== src/Knobs/Visit.antt =====
-- Visitors over a map with distinct ids: what one step does to its own id, the whole visit does to every id.
use at_jit.Prelude.{
  ℕ, Option, some, List, [], ◌∷◌, ◌==◌, ◌≡◌, ◌≢◌, refl, sym, subst, ◌∙◌, All, ==_iff, Bool-cases,
  inl, inr,
}
use at_jit.Prelude.Partial.{Succeeds, >>=-Succeeds, Succeeds-mono}
use at_jit.Knobs.{Map, lookup, insert, visit}

pub lookup-insert_self {ℓ} :
    {V : Type ℓ} (m : Map V) (id : ℕ) (v : V) → lookup id (insert m id v) ≡ some v
unfolding lookup insert
lookup-insert_self [] id v = rw ((==_iff id id).1 refl) refl
lookup-insert_self ((j, w) ∷ m) id v = elim (Bool-cases (j == id)) [
  | inl same ↦ rw (same, (==_iff id id).1 refl) refl
  | inr other ↦ rw (other, other) (lookup-insert_self m id v)
]

pub lookup-insert_ne {ℓ} :
    {V : Type ℓ} (m : Map V) (id j : ℕ) (v : V) → j ≢ id → lookup j (insert m id v) ≡ lookup j m
unfolding lookup insert
lookup-insert_ne [] id j v ne = elim (Bool-cases (id == j)) [
  | inl same ↦ absurd (ne (sym ((==_iff id j).0 same)))
  | inr other ↦ rw other refl
]
lookup-insert_ne ((i, w) ∷ m) id j v ne = elim (Bool-cases (i == id)) [
  | inl same ↦ elim (Bool-cases (id == j)) [
    | inl clash ↦ absurd (ne (sym ((==_iff id j).0 clash)))
    | inr other ↦ rw (same, (==_iff i id).0 same, other) refl
  ]
  | inr other ↦ rw other (elim (Bool-cases (i == j)) [
    | inl here ↦ rw here refl
    | inr there ↦ rw there (lookup-insert_ne m id j v ne)
  ])
]

-- No id stands twice in the map.
abbrev pub Distinct {ℓ} : {V : Type ℓ} → Map V → Type 0
Distinct [] = Unit
Distinct ((id, v) ∷ m) = All (λ p. p.0 ≢ id) m × Distinct m

pub All-zip {ℓ κ ι υ} :
    {A : Type ℓ} {P : A → Type κ} {Q : A → Type ι} {R : A → Type υ} (xs : List A)
    → ((a : A) → P a → Q a → R a)
    → All P xs
    → All Q xs
    → All R xs
All-zip [] f ps qs = tt
All-zip (x ∷ xs) f (p, ps) (q, qs) = (f x p q, All-zip xs f ps qs)

module _ {K V E : Type 0} (step : ℕ → K → Map V → E → Option (Map V × E))
    (Pre : K → Option V → Type 0) (Post : ℕ → K → Option V → Option V → Type 0) where
  -- A step takes the entry of its id from `Pre` to `Post`, and leaves the others alone.
  abbrev pub StepLaw : Type 0
  StepLaw =
      (id : ℕ) (k : K) (m : Map V) (e : E)
      → Pre k (lookup id m)
      → Succeeds
          (λ r.
            Post id k (lookup id m) (lookup id r.0)
            × ((j : ℕ) → j ≢ id → lookup j r.0 ≡ lookup j m))
          (step id k m e)

  pub visit-Post :
      StepLaw
      → (ks : Map K) (m : Map V) (e : E) → Distinct ks
      → All (λ p. Pre p.1 (lookup p.0 m)) ks
      → Succeeds
          (λ r.
            All (λ p. Post p.0 p.1 (lookup p.0 m) (lookup p.0 r.0)) ks
            × ((j : ℕ) → All (λ p. p.0 ≢ j) ks → lookup j r.0 ≡ lookup j m))
          (visit step ks m e)
  unfolding visit
  visit-Post law [] m e d pre = (tt, λ j a. refl)
  visit-Post law ((id, k) ∷ ks) m e (out, d) (p, pre) =
      >>=-Succeeds _ (step id k m e) _ (law id k m e p) λ (m1, e1) (post, frame).
        let pre' : All (λ p. Pre p.1 (lookup p.0 m1)) ks =
          All-zip ks (λ q ne h. subst (Pre q.1) (sym (frame q.0 ne)) h) out pre in
        Succeeds-mono _ _ (visit step ks m1 e1)
          (λ r (posts, frames). (
            (
              subst (Post id k (lookup id m)) (sym (frames id out)) post,
              All-zip ks (λ q ne h. subst (λ o. Post q.0 q.1 o (lookup q.0 r.0)) (frame q.0 ne) h)
                  out posts,
            ),
            λ j (ne, others). frames j others ∙ frame j (λ e. ne (sym e)),
          ))
          (visit-Post law ks m1 e1 d pre')
