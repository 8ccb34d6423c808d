-- ===== src/Tuners/Annealing/Next.antt =====
-- getNextConfig of the annealing tuner: it waits for a cost, or proposes the next configuration.
use at_jit.Prelude.{
  ℕ, ◌+◌, ◌%◌, ◌^◌, ◌<◌, ◌≤◌, Bool, true, false, not, Option, none, some, List, ◌≡◌, refl, subst,
  ◌∙◌, arith, ◌⊎◌, inl, inr, get_elem?,
}
use at_jit.Prelude.Double.{Double}
use at_jit.Prelude.Rng.{Rng}
use at_jit.Prelude.Partial.{
  Succeeds, >>=-Succeeds, Succeeds-mono, if-cases, after-Succeeds, after-result,
}
use at_jit.Context.{FeedbackKind}
use at_jit.Feedback.Object.{Object, good_quality}
use at_jit.Knobs.{KnobSet, KnobConfig, all_ids, perturb_config}
use at_jit.Knobs.Generate.{IsKnobSet}
use at_jit.Knobs.Perturb.{
  Percentage, kept, perturb_config-IsConfig, collect_ids-past_end, perturb_config-past_end,
}
use at_jit.Tuners.Annealing.Steps.{
  Inv, SameStates, SameStates-trans, Draws, Waits, Proposes, Accepted, EnergyIs, Fits, Past,
  missing_cost-Inv, choose_next_state-Chosen, save_config-Saved, entry_there,
}
use at_jit.Tuners.Annealing.{
  AnnealingTuner, save_config, missing_cost, perturb_energy, choose_next_state, next_trial,
  get_next_config,
}

module _ (dbl : Double) (rng : Rng dbl) (Number : Double.D dbl → Type 0) (ks : KnobSet)
    (polly : Bool) (shuffle : List ℕ → List ℕ) (kind : FeedbackKind) where
  open dbl use {D}

  chosen_there : (i a b n m : ℕ) → (i ≡ a) ⊎ (i ≡ b) → a < n → b < n → m ≡ n → i < m
  chosen_there i a b n m (inl e) ha hb same = omega (arith, e, ha, same)
  chosen_there i a b n m (inr e) ha hb same = omega (arith, e, hb, same)

  EnergyIs-same :
      (P : D → Type 0) (t t' : AnnealingTuner dbl rng)
      → SameStates dbl rng Number ks t t'
      → EnergyIs dbl rng Number ks polly shuffle kind P t
      → EnergyIs dbl rng Number ks polly shuffle kind P t'
  EnergyIs-same P t t' same h = rw (same.same_step, same.same_temp) h

  not_good : (good missing : Bool) → not good ≡ missing → missing ≡ true → good ≡ false
  not_good good missing e h = ground arith

  bad_at :
      (entry : ℕ → Option (KnobConfig × Object dbl)) (i j : ℕ) (missing : Bool)
      → j ≡ i
      → missing ≡ true
      → Succeeds (λ c. not (good_quality dbl c.1) ≡ missing) (entry i)
      → Succeeds (λ c. good_quality dbl c.1 ≡ false) (entry j)
  bad_at entry i j missing same h bad =
      rw same (Succeeds-mono _ _ (entry i) (λ c e. not_good (good_quality dbl c.1) missing e h) bad)

  Proposes-same :
      (t t' : AnnealingTuner dbl rng) (r : ℕ × AnnealingTuner dbl rng)
      → SameStates dbl rng Number ks t t'
      → Proposes dbl rng Number ks t' r
      → Proposes dbl rng Number ks t r
  Proposes-same t t' r same (inv, longer, at, trial, chosen, step) = (
    inv,
    omega (arith, longer, same.same_length),
    at ∙ same.same_length,
    trial,
    elim chosen [ inl e ↦ inl (e ∙ same.same_current) | inr e ↦ inr (e ∙ same.same_trial) ],
    subst (λ n. r.1.time_step ≡ (n + 1) % 2 ^ 64) same.same_step step,
  )

  next_trial-Proposes :
      (t : AnnealingTuner dbl rng)
      → IsKnobSet ks
      → Draws dbl rng Number ks
      → Accepted dbl rng Number ks polly shuffle kind
      → EnergyIs dbl rng Number ks polly shuffle kind (Fits dbl rng Number ks polly shuffle kind) t
      → Inv dbl rng Number ks t
      → Succeeds (Proposes dbl rng Number ks t) (next_trial dbl rng polly shuffle kind ks t)
  unfolding next_trial
  next_trial-Proposes t w draws accepted energies inv =
      >>=-Succeeds _ (choose_next_state dbl rng t) _
        (choose_next_state-Chosen dbl rng Number ks t draws inv)
        λ (state, t1) (inv1, same, chosen).
          let there =
            chosen_there state t.current t.trial _ _ chosen inv.current_there inv.trial_there
              same.same_length in
          >>=-Succeeds _ (perturb_energy dbl rng ((t1.time_step + 1) % 2 ^ 64) t1.max_temp) _
            (EnergyIs-same _ t t1 same energies)
            λ energy (pct, enough).
              >>=-Succeeds _ (get_elem? t1.configs state) _
                (entry_there dbl rng Number ks t1.configs state inv1.entries there)
                λ cur ok.
                  >>=-Succeeds _ (perturb_config dbl rng polly shuffle cur.0 ks t1.gen energy) _
                    (perturb_config-IsConfig dbl rng polly shuffle cur.0 ks t1.gen energy w ok pct
                      enough)
                    λ (kc, e) ok'.
                      >>=-Succeeds _
                        (save_config dbl rng kind kc (record t1 {
                          current = state;
                          time_step = (t1.time_step + 1) % 2 ^ 64;
                          gen = e;
                        }))
                        _
                        (save_config-Saved dbl rng Number ks polly shuffle kind kc _ accepted ok'
                          inv1.entries)
                        λ (trial, t3) (entries, at, longer, current, step). (
                          record {
                            entries = entries;
                            current_there = omega (arith, current, longer, there);
                            trial_there = omega (arith, at, longer);
                          },
                          omega (arith, longer, same.same_length),
                          at ∙ same.same_length,
                          refl,
                          by_choice t3.current state current chosen,
                          subst (λ n. t3.time_step ≡ (n + 1) % 2 ^ 64) same.same_step step,
                        )
    where
      by_choice :
          (i j : ℕ) → i ≡ j → (j ≡ t.current) ⊎ (j ≡ t.trial) → (i ≡ t.current) ⊎ (i ≡ t.trial)
      by_choice i j e (inl h) = inl (e ∙ h)
      by_choice i j e (inr h) = inr (e ∙ h)

  next_trial-Past :
      (t : AnnealingTuner dbl rng)
      → Draws dbl rng Number ks
      → EnergyIs dbl rng Number ks polly shuffle kind (Past dbl rng Number ks polly shuffle kind) t
      → Inv dbl rng Number ks t
      → next_trial dbl rng polly shuffle kind ks t ≡ none
  unfolding next_trial
  next_trial-Past t draws energies inv =
      after-Succeeds (λ o. o ≡ none) (choose_next_state dbl rng t) _
        (choose_next_state-Chosen dbl rng Number ks t draws inv)
        λ (state, t1) (inv1, same, chosen).
          after-Succeeds (λ o. o ≡ none)
            (perturb_energy dbl rng ((t1.time_step + 1) % 2 ^ 64) t1.max_temp) _
            (EnergyIs-same _ t t1 same energies)
            λ energy past.
              after-Succeeds (λ o. o ≡ none) (get_elem? t1.configs state) _
                (entry_there dbl rng Number ks t1.configs state inv1.entries (
                  chosen_there state t.current t.trial _ _ chosen inv.current_there inv.trial_there
                    same.same_length))
                λ cur ok.
                  rw (perturb_config-past_end dbl rng polly shuffle cur.0 ks t1.gen energy past.1)
                    refl

  -- What becomes of a call.
  abbrev pub Outcome : AnnealingTuner dbl rng → Option (ℕ × AnnealingTuner dbl rng) → Type 0
  Outcome t none =
      EnergyIs dbl rng Number ks polly shuffle kind (Past dbl rng Number ks polly shuffle kind) t
  Outcome t (some r) =
      Waits dbl rng Number ks t r
      ⊎ (Proposes dbl rng Number ks t r
          × EnergyIs dbl rng Number ks polly shuffle kind
              (Fits dbl rng Number ks polly shuffle kind) t)

  energy_cases :
      (o : Option D)
      → Succeeds (Percentage dbl rng) o
      → Succeeds (Fits dbl rng Number ks polly shuffle kind) o
        ⊎ Succeeds (Past dbl rng Number ks polly shuffle kind) o
  energy_cases none h = absurd h
  energy_cases (some energy) pct = elim (≤-or-> (kept dbl rng energy (shuffle (all_ids ks))) _) [
    | inl fits ↦ inl (pct, fits)
    | inr past ↦ inr (past, collect_ids-past_end dbl rng energy (shuffle (all_ids ks)) pct past)
  ]
    where
      ≤-or-> : (a b : ℕ) → (a ≤ b) ⊎ (b < a)
      ≤-or-> a b = omega arith

  next_trial-Outcome :
      (t t' : AnnealingTuner dbl rng)
      → IsKnobSet ks
      → Draws dbl rng Number ks
      → Accepted dbl rng Number ks polly shuffle kind
      → EnergyIs dbl rng Number ks polly shuffle kind (Percentage dbl rng) t
      → SameStates dbl rng Number ks t t'
      → Inv dbl rng Number ks t'
      → Outcome t (next_trial dbl rng polly shuffle kind ks t')
  next_trial-Outcome t t' w draws accepted pct same inv = elim (energy_cases _ pct) [
    | inl fits ↦
        after-result (Outcome t) (next_trial dbl rng polly shuffle kind ks t')
          (next_trial-Proposes t' w draws accepted (EnergyIs-same _ t t' same fits) inv)
          λ r q. inr (Proposes-same t t' r same q, fits)
    | inr past ↦ rw (next_trial-Past t' draws (EnergyIs-same _ t t' same past) inv) past
  ]

  -- Take a well-formed set of knobs, a feedback kind that is accepted, costs that are numbers, and an energy of the
  -- next time step that is a percentage when narrowed to a `float`. From a state that satisfies the invariant, getNextConfig does one of three
  -- things. It waits: it returns one of the two states, whose feedback is not good yet, and adds no configuration.
  -- Or CollectIDs keeps no more ids than there are, and it proposes: it adds one configuration, returns it as the
  -- new trial state, makes one of the two old states the current one, and counts a time step. Or CollectIDs keeps
  -- more ids than there are, and it reads past their end. A state that it leaves satisfies the invariant.
  pub get_next_config-Outcome :
      (t : AnnealingTuner dbl rng)
      → IsKnobSet ks
      → Draws dbl rng Number ks
      → Accepted dbl rng Number ks polly shuffle kind
      → EnergyIs dbl rng Number ks polly shuffle kind (Percentage dbl rng) t
      → Inv dbl rng Number ks t
      → Outcome t (get_next_config dbl rng polly shuffle kind ks t)
  unfolding get_next_config
  get_next_config-Outcome t w draws accepted pct inv =
      after-Succeeds (Outcome t) (missing_cost dbl rng t.current t) _
        (missing_cost-Inv dbl rng Number ks t.current t inv inv.current_there)
        λ (missing, t1) (inv1, same1, bad1).
          if-cases (Outcome t) missing _ _
            (λ h. inl (
              inv1,
              same1,
              inl same1.same_current,
              bad_at (get_elem? t1.configs) t.current t1.current missing same1.same_current h bad1,
            ))
            λ h.
              after-Succeeds (Outcome t) (missing_cost dbl rng t1.trial t1) _
                (missing_cost-Inv dbl rng Number ks t1.trial t1 inv1 inv1.trial_there)
                λ (missing', t2) (inv2, same2, bad2).
                  let same = SameStates-trans dbl rng Number ks same1 same2 in
                  if-cases (Outcome t) missing' _ _
                    (λ h'. inl (
                      inv2,
                      same,
                      inr same.same_trial,
                      bad_at (get_elem? t2.configs) t1.trial t2.trial missing' same2.same_trial h'
                          bad2,
                    ))
                    λ h'. next_trial-Outcome t t2 w draws accepted pct same inv2
