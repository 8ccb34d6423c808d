-- ===== src/Bayes/Learn/Stops.antt =====
-- Which booster the training loop keeps.
use at_jit.Prelude.{
  ℕ, zero, suc, ◌+◌, ◌-◌, ◌≤◌, ◌<◌, ◌≡◌, refl, Bool, true, false, none, some, List, length, ltb,
  ◌==◌, ==_iff, ◌||◌, ◌⊎◌, inl, inr, Bool-cases, arith, subst, ◌∙◌,
}
use at_jit.Prelude.Double.{Double}
use at_jit.Bayes.Learn.{max_learn_past_best, rmse, Best, learn, learn_model}

module _ (dbl : Double) {B : Type 0} (update : ℕ → B → B) (predict : B → List (Double.D dbl))
    (test_result : List (Double.D dbl)) where
  open dbl use {D, le, max_value}

  -- The booster after k iterations
  pub booster : B → ℕ → B
  booster b zero = b
  booster b (suc k) = update k (booster b k)

  -- The error that iteration k measures
  pub error : B → ℕ → D
  error b k = rmse dbl test_result (predict (booster b (suc k)))

  abbrev kept : B → ℕ → Best dbl update predict test_result
  kept b m = record { err = error b m; model = some (booster b (suc m), m) }

  -- From iteration i to m the error did not grow; then it grew, or there were n iterations in all.
  pub record Stop (b : B) (i n m : ℕ) : Type 0 where
    pub from : i ≤ m
    pub bound : m ≤ n
    pub falls : (k : ℕ) → i ≤ k → k < m → le (error b (suc k)) (error b k) ≡ true
    pub ends : (m ≡ n) ⊎ (le (error b (suc m)) (error b m) ≡ false)

  SameLength : Type 0
  SameLength = (c : B) → length (predict c) ≡ length test_result

  lengths_agree : SameLength → (c : B) → (length (predict c) == length test_result) ≡ true
  unfolding SameLength
  lengths_agree len c = (==_iff _ (length test_result)).1 (len c)

  or_false : (x : Bool) → x ≡ false → (x || false) ≡ false
  or_false x e = ground arith

  never_beyond : (i : ℕ) → ltb (suc i - i) max_learn_past_best ≡ false
  never_beyond i = ground arith

  -- The loop goes on exactly where the error has not grown.
  goes_on :
      SameLength
      → (b : B) (fuel i : ℕ) → le (error b (suc i)) (error b i) ≡ true
      → learn dbl update predict test_result (suc fuel) (suc i) (booster b (suc i)) (kept b i)
        ≡ learn dbl update predict test_result fuel
            (suc (suc i))
            (booster b (suc (suc i)))
            (kept b (suc i))
  unfolding learn error booster
  goes_on len b fuel i e = rw (lengths_agree len (update (suc i) (update i (booster b i))), e) refl

  halts :
      SameLength
      → (b : B) (fuel i : ℕ) → le (error b (suc i)) (error b i) ≡ false
      → learn dbl update predict test_result (suc fuel) (suc i) (booster b (suc i)) (kept b i)
        ≡ some (kept b i)
  unfolding learn error booster
  halts len b fuel i e =
      rw (lengths_agree len (update (suc i) (update i (booster b i))), e, never_beyond i) refl

  falls_before :
      (b : B) (i m : ℕ)
      → le (error b (suc i)) (error b i) ≡ true
      → ((k : ℕ) → suc i ≤ k → k < m → le (error b (suc k)) (error b k) ≡ true)
      → (k : ℕ) → i ≤ k
      → k < m
      → le (error b (suc k)) (error b k) ≡ true
  falls_before b i m e h k p q = elim (first_or_later i k p) [
    | inl same ↦ subst (λ k. le (error b (suc k)) (error b k) ≡ true) same e
    | inr later ↦ h k later q
  ]
    where
      first_or_later : (i k : ℕ) → i ≤ k → (i ≡ k) ⊎ (suc i ≤ k)
      first_or_later i k p = omega arith

  learn-Stop :
      SameLength
      → (b : B) (fuel i : ℕ)
      → (m : ℕ) × Stop b i (i + fuel) m
        × (learn dbl update predict test_result fuel (suc i) (booster b (suc i)) (kept b i)
            ≡ some (kept b m))
  unfolding learn
  learn-Stop len b zero i = (
    i,
    record {
      from = omega arith;
      bound = omega arith;
      falls = λ k p q. absurd (omega arith);
      ends = inl (omega arith);
    },
    refl,
  )
  learn-Stop len b (suc fuel) i = elim (Bool-cases (le (error b (suc i)) (error b i))) [
    | inl e ↦
        let (m, s, q) = learn-Stop len b fuel (suc i) in
        (
          m,
          record {
            from = omega (arith, s.from);
            bound = omega (arith, s.bound);
            falls = falls_before b i m e s.falls;
            ends = elim s.ends [ inl h ↦ inl (omega arith) | inr h ↦ inr h ];
          },
          goes_on len b fuel i e ∙ q,
        )
    | inr e ↦ (
      i,
      record {
        from = omega arith;
        bound = omega arith;
        falls = λ k p q. absurd (omega arith);
        ends = inr e;
      },
      halts len b fuel i e,
    )
  ]

  or_true : (x : Bool) → (x || true) ≡ true
  or_true x = ground arith

  -- The first booster is kept, whatever its error is.
  saves_first :
      SameLength
      → (b : B) (fuel : ℕ) (max : D)
      → learn dbl update predict test_result (suc fuel) 0 b (record { err = max; model = none })
        ≡ learn dbl update predict test_result fuel 1 (booster b 1) (kept b 0)
  unfolding learn error booster
  saves_first len b fuel max =
      rw
        (
          lengths_agree len (update 0 b),
          or_true (le (rmse dbl test_result (predict (update 0 b))) max),
        )
        refl

  -- Where the surrogate predicts a time for every held-out row: training stops after at most 500 iterations, and
  -- the model it keeps is the one of the last iteration before the error on the held-out rows first grows, with
  -- that error; if it never grows, it is the model of iteration 499. The assertion that there is a model holds.
  pub learn_model-Stop :
      ((c : B) → length (predict c) ≡ length test_result)
      → (b : B)
      → (m : ℕ) × Stop b 0 499 m
        × (learn_model dbl update predict test_result b
            ≡ some (record { err = error b m; model = some (booster b (suc m), m) }))
  unfolding learn_model SameLength
  learn_model-Stop len b =
      let (m, s, q) = learn-Stop len b 499 0 in (m, s, rw (saves_first len b 499 max_value, q) refl)
