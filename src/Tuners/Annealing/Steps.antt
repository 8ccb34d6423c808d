-- ===== src/Tuners/Annealing/Steps.antt =====
-- The steps of the annealing tuner: it waits for the costs of its two states, then proposes a neighbour.
use at_jit.Prelude.{
  ℕ, zero, suc, ◌+◌, ◌%◌, ◌^◌, ◌<◌, ◌≤◌, Bool, true, false, not, ◌&&◌, Option, none, some, List, [],
  ◌∷◌, ◌++◌, length, length-append, ◌≡◌, refl, sym, subst, ◌∙◌, arith, All, ◌⊎◌, inl, inr,
  get_elem?,
}
use at_jit.Prelude.Double.{Double}
use at_jit.Prelude.Rng.{Rng}
use at_jit.Prelude.Partial.{Succeeds, >>=-Succeeds, Succeeds-mono, Succeeds-if, if-elim}
use at_jit.Context.{FeedbackKind, fb_total}
use at_jit.Feedback.Object.{
  Object, create_feedback, update_stats, good_quality, expected_value, update_stats_again,
}
use at_jit.Knobs.{KnobSet, KnobConfig, all_ids, collect_ids, past_end}
use at_jit.Knobs.Generate.{IsConfig}
use at_jit.Knobs.Perturb.{Percentage, kept}
use at_jit.Tuners.Annealing.{
  AnnealingTuner, save_config, refresh, missing_cost, get_cost, perturb_energy, probability,
  draw_state, choose_next_state,
}

module _ (dbl : Double) (rng : Rng dbl) (Number : Double.D dbl → Type 0) (ks : KnobSet) where
  open dbl use {D, lit, narrow, le}
  open rng use {canonical}

  -- The statistics of a feedback come out, with a cost that is a number.
  abbrev pub HasCost : Object dbl → Type 0
  HasCost fb = Succeeds (λ fb'. Number (expected_value dbl fb')) (update_stats dbl fb)

  -- Every entry is a configuration in the domains, with a cost.
  abbrev pub Entries : List (KnobConfig × Object dbl) → Type 0
  Entries = All (λ c. IsConfig ks c.0 × HasCost c.1)

  -- The entries are fit, and the two states are among them.
  pub record Inv (t : AnnealingTuner dbl rng) : Type 0 where
    pub entries : Entries t.configs
    pub current_there : t.current < length t.configs
    pub trial_there : t.trial < length t.configs

  HasCost-update :
      (fb : Object dbl)
      → HasCost fb
      → Succeeds (λ fb'. Number (expected_value dbl fb') × HasCost fb') (update_stats dbl fb)
  HasCost-update fb h = by_result (update_stats dbl fb) refl h
    where
      by_result :
          (r : Option (Object dbl))
          → update_stats dbl fb ≡ r
          → Succeeds (λ fb'. Number (expected_value dbl fb')) r
          → Succeeds (λ fb'. Number (expected_value dbl fb') × HasCost fb') r
      by_result none e h = absurd h
      by_result (some fb') e h = (
        h,
        subst (Succeeds (λ o. Number (expected_value dbl o)))
            (sym (update_stats_again dbl fb fb' e)) h,
      )

  -- A refresh keeps the entries, and gives the cost of one.
  abbrev Refreshed :
      List (KnobConfig × Object dbl) → ℕ → Object dbl × List (KnobConfig × Object dbl) → Type 0
  Refreshed cs i (fb, cs') =
      Number (expected_value dbl fb)
      × Entries cs'
      × (length cs' ≡ length cs)
      × Succeeds (λ c. c.1 ≡ fb) (get_elem? cs' i)

  refresh-Refreshed :
      (cs : List (KnobConfig × Object dbl)) (i : ℕ)
      → Entries cs
      → i < length cs
      → Succeeds (Refreshed cs i) (refresh dbl rng cs i)
  unfolding refresh
  refresh-Refreshed [] i h below = absurd (omega arith)
  refresh-Refreshed ((kc, fb) ∷ cs) zero ((ok, cost), h) below =
      >>=-Succeeds _ (update_stats dbl fb) _ (HasCost-update fb cost)
        λ fb' (number, again). (number, ((ok, again), h), refl, refl)
  refresh-Refreshed (c ∷ cs) (suc i) (hc, h) below =
      >>=-Succeeds _ (refresh dbl rng cs i) _ (refresh-Refreshed cs i h (omega arith))
        λ (fb, cs') (number, h', same, at). (number, (hc, h'), omega (arith, same), at)

  pub entry_there :
      (cs : List (KnobConfig × Object dbl)) (i : ℕ)
      → Entries cs
      → i < length cs
      → Succeeds (λ c. IsConfig ks c.0) (get_elem? cs i)
  entry_there [] i h below = absurd (omega arith)
  entry_there (c ∷ cs) zero ((ok, cost), h) below = ok
  entry_there (c ∷ cs) (suc i) (hc, h) below = entry_there cs i h (omega arith)

  -- Nothing but the statistics and the engine changed.
  pub record SameStates (t t' : AnnealingTuner dbl rng) : Type 0 where
    pub same_length : length t'.configs ≡ length t.configs
    pub same_step : t'.time_step ≡ t.time_step
    pub same_temp : t'.max_temp ≡ t.max_temp
    pub same_current : t'.current ≡ t.current
    pub same_trial : t'.trial ≡ t.trial

  pub SameStates-trans :
      {a b c : AnnealingTuner dbl rng} → SameStates a b → SameStates b c → SameStates a c
  SameStates-trans p q = record {
    same_length = q.same_length ∙ p.same_length;
    same_step = q.same_step ∙ p.same_step;
    same_temp = q.same_temp ∙ p.same_temp;
    same_current = q.same_current ∙ p.same_current;
    same_trial = q.same_trial ∙ p.same_trial;
  }

  refreshed_state :
      (t : AnnealingTuner dbl rng) (cs : List (KnobConfig × Object dbl))
      → Inv t
      → Entries cs
      → length cs ≡ length t.configs
      → Inv (record t { configs = cs }) × SameStates t (record t { configs = cs })
  refreshed_state t cs inv h same = (
    record {
      entries = h;
      current_there = omega (arith, same, inv.current_there);
      trial_there = omega (arith, same, inv.trial_there);
    },
    record {
      same_length = same;
      same_step = refl;
      same_temp = refl;
      same_current = refl;
      same_trial = refl;
    },
  )

  pub missing_cost-Inv :
      (i : ℕ) (t : AnnealingTuner dbl rng)
      → Inv t
      → i < length t.configs
      → Succeeds
          (λ r.
            Inv r.1
            × SameStates t r.1
            × Succeeds (λ c. not (good_quality dbl c.1) ≡ r.0) (get_elem? r.1.configs i))
          (missing_cost dbl rng i t)
  unfolding missing_cost
  missing_cost-Inv i t inv below =
      >>=-Succeeds _ (refresh dbl rng t.configs i) _
        (refresh-Refreshed t.configs i inv.entries below)
        λ (fb, cs) (number, h, same, at).
          let (inv', states) = refreshed_state t cs inv h same in
          (inv', states, Succeeds-mono _ _ (get_elem? cs i) (λ c e. rw e refl) at)

  get_cost-Inv :
      (i : ℕ) (t : AnnealingTuner dbl rng)
      → Inv t
      → i < length t.configs
      → Succeeds (λ r. Number r.0 × Inv r.1 × SameStates t r.1) (get_cost dbl rng i t)
  unfolding get_cost
  get_cost-Inv i t inv below =
      >>=-Succeeds _ (refresh dbl rng t.configs i) _
        (refresh-Refreshed t.configs i inv.entries below)
        λ (fb, cs) (number, h, same, at).
          let (inv', states) = refreshed_state t cs inv h same in (number, inv', states)

  -- The probability of a worse state is between 0 and 1 where the costs are numbers.
  abbrev pub Draws : Type 0
  Draws =
      (step : ℕ) (cur trial : D)
      → Number cur
      → Number trial
      → le trial cur ≡ false
      → Succeeds (λ p. (le (lit 0 1) p && le p (lit 10 1)) ≡ true)
          (probability dbl rng step cur trial)

  -- One of the two states was chosen, and nothing else changed.
  abbrev pub Chosen : AnnealingTuner dbl rng → ℕ × AnnealingTuner dbl rng → Type 0
  Chosen t (i, t') = Inv t' × SameStates t t' × ((i ≡ t.current) ⊎ (i ≡ t.trial))

  with_gen :
      (t t' : AnnealingTuner dbl rng) (e : Rng.E rng)
      → Inv t'
      → SameStates t t'
      → Inv (record t' { gen = e }) × SameStates t (record t' { gen = e })
  with_gen t t' e inv same = (
    record {
      entries = inv.entries;
      current_there = inv.current_there;
      trial_there = inv.trial_there;
    },
    record {
      same_length = same.same_length;
      same_step = same.same_step;
      same_temp = same.same_temp;
      same_current = same.same_current;
      same_trial = same.same_trial;
    },
  )

  draw_state-Chosen :
      (prob : D) (t t' : AnnealingTuner dbl rng)
      → (le (lit 0 1) prob && le prob (lit 10 1)) ≡ true
      → Inv t'
      → SameStates t t'
      → Succeeds (Chosen t) (draw_state dbl rng prob t')
  unfolding draw_state
  draw_state-Chosen prob t t' ok inv same =
      let (inv', same') = with_gen t t' (canonical t'.gen).1 inv same in
      rw ok (
        inv',
        same',
        if-elim (λ i. (i ≡ t.current) ⊎ (i ≡ t.trial)) (le prob (canonical t'.gen).0) t'.current
            t'.trial (inl same.same_current) (inr same.same_trial),
      )

  pub choose_next_state-Chosen :
      (t : AnnealingTuner dbl rng)
      → Draws
      → Inv t
      → Succeeds (Chosen t) (choose_next_state dbl rng t)
  unfolding choose_next_state
  choose_next_state-Chosen t draws inv =
      >>=-Succeeds _ (get_cost dbl rng t.current t) _
        (get_cost-Inv t.current t inv inv.current_there)
        λ (cur, t1) (number, inv1, same1).
          >>=-Succeeds _ (get_cost dbl rng t.trial t1) _
            (get_cost-Inv t.trial t1 inv1 (omega (arith, same1.same_length, inv.trial_there)))
            λ (trial, t2) (number', inv2, same2).
              let same = SameStates-trans same1 same2 in
              Succeeds-if (Chosen t) (le trial cur) _ _ (λ h. (inv2, same, inr same.same_trial))
                λ worse.
                  >>=-Succeeds _ (probability dbl rng t2.time_step cur trial) _
                    (draws t2.time_step cur trial number number' worse)
                    λ prob ok. draw_state-Chosen prob t t2 ok inv2 same

  -- It waits: the entry is one of the two states and its feedback is not good yet; no entry is new.
  abbrev pub Waits : AnnealingTuner dbl rng → ℕ × AnnealingTuner dbl rng → Type 0
  Waits t (i, t') =
      Inv t'
      × SameStates t t'
      × ((i ≡ t.current) ⊎ (i ≡ t.trial))
      × Succeeds (λ c. good_quality dbl c.1 ≡ false) (get_elem? t'.configs i)

  -- It proposes: a new last entry is the trial state, and one of the two old states is the current one.
  abbrev pub Proposes : AnnealingTuner dbl rng → ℕ × AnnealingTuner dbl rng → Type 0
  Proposes t (i, t') =
      Inv t'
      × (length t'.configs ≡ length t.configs + 1)
      × (i ≡ length t.configs)
      × (t'.trial ≡ i)
      × ((t'.current ≡ t.current) ⊎ (t'.current ≡ t.trial))
      × (t'.time_step ≡ (t.time_step + 1) % 2 ^ 64)

  Entries-append :
      (cs : List (KnobConfig × Object dbl)) (c : KnobConfig × Object dbl)
      → Entries cs
      → IsConfig ks c.0
      → HasCost c.1
      → Entries (cs ++ c ∷ [])
  Entries-append [] c h ok cost = ((ok, cost), tt)
  Entries-append (d ∷ cs) c (hd, h) ok cost = (hd, Entries-append cs c h ok cost)

  module _ (polly : Bool) (shuffle : List ℕ → List ℕ) (kind : FeedbackKind) where
    -- createFeedback accepts the kind, and the new feedback has a cost.
    abbrev pub Accepted : Type 0
    Accepted = Succeeds HasCost (create_feedback dbl kind (some fb_total))

    -- The energy of the next time step satisfies `P`.
    abbrev pub EnergyIs : (D → Type 0) → AnnealingTuner dbl rng → Type 0
    EnergyIs P t = Succeeds P (perturb_energy dbl rng ((t.time_step + 1) % 2 ^ 64) t.max_temp)

    -- The energy, as a `float`, is a percentage, and CollectIDs keeps no more ids than there are.
    abbrev pub Fits : D → Type 0
    Fits energy =
        Percentage dbl rng energy
        × (kept dbl rng energy (shuffle (all_ids ks)) ≤ length (shuffle (all_ids ks)))

    -- CollectIDs keeps more ids than there are, and reads past their end.
    abbrev pub Past : D → Type 0
    Past energy =
        (length (shuffle (all_ids ks)) < kept dbl rng energy (shuffle (all_ids ks)))
        × (collect_ids dbl rng (narrow energy) (shuffle (all_ids ks)) ≡ past_end)

    abbrev pub Saved : AnnealingTuner dbl rng → ℕ × AnnealingTuner dbl rng → Type 0
    Saved t (i, t') =
        Entries t'.configs
        × (i ≡ length t.configs)
        × (length t'.configs ≡ length t.configs + 1)
        × (t'.current ≡ t.current)
        × (t'.time_step ≡ t.time_step)

    pub save_config-Saved :
        (kc : KnobConfig) (t : AnnealingTuner dbl rng)
        → Accepted
        → IsConfig ks kc
        → Entries t.configs
        → Succeeds (Saved t) (save_config dbl rng kind kc t)
    unfolding save_config
    save_config-Saved kc t accepted ok h =
        >>=-Succeeds _ (create_feedback dbl kind (some fb_total)) _ accepted λ fb cost. (
          Entries-append t.configs (kc, fb) h ok cost,
          refl,
          length-append t.configs ((kc, fb) ∷ []),
          refl,
          refl,
        )
