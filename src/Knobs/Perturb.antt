-- ===== src/Knobs/Perturb.antt =====
-- perturbConfig: it keeps a configuration in the domain, and touches the chosen knobs only.
use at_jit.Prelude.{
  ℕ, zero, suc, ◌<◌, ◌≤◌, Bool, true, false, ◌&&◌, Option, none, some, List, [], ◌∷◌, length, ◌≡◌,
  refl, sym, subst, arith, Bool-cases, inl, inr,
}
use at_jit.Prelude.Int.{ℤ, pos, pos_part}
use at_jit.Prelude.Double.{Double}
use at_jit.Prelude.Rng.{Rng}
use at_jit.Prelude.Partial.{Succeeds, >>=-Succeeds}
use at_jit.Util.{nearby_int_bounds}
use at_jit.LoopSetting.{LoopSetting}
use at_jit.LoopSetting.Gen.{gen_nearby}
use at_jit.LoopSetting.Gen.Nearby.{gen_nearby-Gives}
use at_jit.Knobs.Visit.{StepLaw, visit-Post, All-zip, lookup-insert_self, lookup-insert_ne}
use at_jit.Knobs.Generate.{IsKnob, IsKnobSet, HasInt, HasLoop, IsConfig}
use at_jit.Knobs.{
  lookup, ScalarInt, KnobSet, KnobConfig, visit, mem, first, all_ids, nearby_int_knob, nearby_loop,
  make_config, collect_ids, perturb_config, in_bounds, selected, past_end,
}

first_lem : (n : ℕ) (ids : List ℕ) → n ≤ length ids → Succeeds (λ chosen. Unit {0}) (first n ids)
unfolding first
first_lem zero ids h = tt
first_lem (suc n) [] h = absurd (omega arith)
first_lem (suc n) (id ∷ ids) h =
    >>=-Succeeds _ (first n ids) _ (first_lem n ids (omega arith)) (λ rest u. tt)

first_past : (n : ℕ) (ids : List ℕ) → length ids < n → first n ids ≡ none
unfolding first
first_past zero ids h = absurd (omega arith)
first_past (suc n) [] h = refl
first_past (suc n) (id ∷ ids) h = rw (first_past n ids (omega arith)) refl

Succeeds-in_bounds :
    (o : Option (List ℕ))
    → Succeeds (λ ids. Unit {0}) o
    → Succeeds (λ ids. Unit {0}) (selected (in_bounds o))
Succeeds-in_bounds (some ids) h = tt
Succeeds-in_bounds none h = h

module _ (dbl : Double) (rng : Rng dbl) where
  open dbl use {D, lit, mul, of_int, ceil, narrow, le}
  open rng use {E}

  -- A knob that is not chosen keeps its value, and every value is in its domain.
  abbrev IntPost : List ℕ → ℕ → ScalarInt → Option ℤ → Option ℤ → Type 0
  IntPost chosen id k o o' = HasInt k o' × (mem id chosen ≡ false → o' ≡ o)

  abbrev LoopPost : List ℕ → ℕ → LoopSetting → Option LoopSetting → Option LoopSetting → Type 0
  LoopPost chosen id k o o' = HasLoop o' × (mem id chosen ≡ false → o' ≡ o)

  abbrev IntPre : ScalarInt → Option ℤ → Type 0
  IntPre k o = IsKnob k × HasInt k o

  abbrev LoopPre : LoopSetting → Option LoopSetting → Type 0
  LoopPre k o = HasLoop o

  true_is_not_false : {b : Bool} → b ≡ true → b ≡ false → ⊥
  true_is_not_false t f = ground arith

  -- The value of the knob's entry, where there is one.
  HasInt-value : (k : ScalarInt) (o : Option ℤ) → HasInt k o → (v : ℤ) × (o ≡ some v)
  HasInt-value k (some v) h = (v, refl)
  HasInt-value k none h = absurd h

  HasLoop-value : (o : Option LoopSetting) → HasLoop o → (s : LoopSetting) × (o ≡ some s)
  HasLoop-value (some s) h = (s, refl)
  HasLoop-value none h = absurd h

  nearby_int_knob-Law :
      (chosen : List ℕ) (energy : D)
      → StepLaw (nearby_int_knob dbl rng chosen energy) IntPre (IntPost chosen)
  unfolding nearby_int_knob
  nearby_int_knob-Law chosen energy id k m e ((lo, hi), has) =
      let (old, found) = HasInt-value k (lookup id m) has in
      let bounds = nearby_int_bounds dbl rng e old k.lo k.hi energy (omega arith) in
      elim (Bool-cases (mem id chosen)) [
        | inl in_ ↦
            rw (in_, found)
              (
                (
                  subst (HasInt k) (sym (lookup-insert_self m id _)) bounds,
                  λ out. absurd (true_is_not_false refl out),
                ),
                λ j ne. lookup-insert_ne m id j _ ne,
              )
        | inr out ↦ rw out ((has, λ h. refl), λ j ne. refl)
      ]

  nearby_loop-Law :
      (polly : Bool) (chosen : List ℕ) (energy : D)
      → StepLaw (nearby_loop dbl rng polly chosen energy) LoopPre (LoopPost chosen)
  unfolding nearby_loop
  nearby_loop-Law polly chosen energy id k m e has =
      let (old, found) = HasLoop-value (lookup id m) has in
      elim (Bool-cases (mem id chosen)) [
        | inl in_ ↦
            rw (in_, found)
              (>>=-Succeeds _ (gen_nearby dbl rng polly e old energy) _
                (gen_nearby-Gives rng polly e old energy (subst HasLoop found has))
                λ (s, e') ok. (
                  (
                    subst HasLoop (sym (lookup-insert_self m id s)) ok,
                    λ out. absurd (true_is_not_false refl out),
                  ),
                  λ j ne. lookup-insert_ne m id j s ne,
                ))
        | inr out ↦ rw out ((has, λ h. refl), λ j ne. refl)
      ]

  -- The number of ids that CollectIDs keeps of a set of knobs, at an energy that becomes a `float`.
  abbrev pub kept : D → List ℕ → ℕ
  kept energy ids =
      pos_part (ceil (narrow (mul (narrow energy) (narrow (of_int (pos (length ids)))))))

  -- The energy, as a `float`, is a percentage.
  abbrev pub Percentage : D → Type 0
  Percentage energy = (le (lit 0 0) (narrow energy) && le (narrow energy) (lit 100 0)) ≡ true

  collect_ids-Succeeds :
      (energy : D) (ids : List ℕ)
      → Percentage energy
      → kept energy ids ≤ length ids
      → Succeeds (λ ids'. Unit {0}) (selected (collect_ids dbl rng (narrow energy) ids))
  unfolding collect_ids
  collect_ids-Succeeds energy ids pct h =
      rw pct (Succeeds-in_bounds (first (kept energy ids) ids) (first_lem (kept energy ids) ids h))

  -- Where the energy is a percentage when narrowed to a `float`, and CollectIDs keeps no more ids than there
  -- are, perturbConfig takes a configuration of a well-formed
  -- set to a configuration of it: every knob has a value of its domain.
  pub perturb_config-IsConfig :
      (polly : Bool) (shuffle : List ℕ → List ℕ) (c : KnobConfig) (ks : KnobSet) (e : E)
      (energy : D)
      → IsKnobSet ks
      → IsConfig ks c
      → Percentage energy
      → kept energy (shuffle (all_ids ks)) ≤ length (shuffle (all_ids ks))
      → Succeeds (λ r. IsConfig ks r.0) (perturb_config dbl rng polly shuffle c ks e energy)
  unfolding perturb_config make_config
  perturb_config-IsConfig polly shuffle c ks e energy w has pct enough =
      >>=-Succeeds _ (selected (collect_ids dbl rng (narrow energy) (shuffle (all_ids ks)))) _
        (collect_ids-Succeeds energy (shuffle (all_ids ks)) pct enough)
        λ chosen u.
          >>=-Succeeds _
            (visit (nearby_int_knob dbl rng chosen (narrow energy)) ks.int_knobs c.int_config e) _
            (visit-Post (nearby_int_knob dbl rng chosen (narrow energy)) IntPre (IntPost chosen)
              (nearby_int_knob-Law chosen (narrow energy)) ks.int_knobs c.int_config e
              w.distinct_ints (All-zip ks.int_knobs (λ p r h. (r, h)) w.ranges has.ints))
            λ (ints, e1) (post, _).
              >>=-Succeeds _
                (visit (nearby_loop dbl rng polly chosen (narrow energy)) ks.loop_knobs
                  c.loop_config e1)
                _
                (visit-Post (nearby_loop dbl rng polly chosen (narrow energy)) LoopPre
                  (LoopPost chosen) (nearby_loop-Law polly chosen (narrow energy)) ks.loop_knobs
                  c.loop_config e1 w.distinct_loops has.loops)
                λ (loops, e2) (posts, _). record {
                  ints = All-zip ks.int_knobs (λ p h h'. h.0) post post;
                  loops = All-zip ks.loop_knobs (λ p h h'. h.0) posts posts;
                }

  -- Where the energy times the number of ids, rounded up, is more than that number, and the energy is a percentage,
  -- CollectIDs reads past the end of the ids.
  pub collect_ids-past_end :
      (energy : D) (ids : List ℕ)
      → Percentage energy
      → length ids < kept energy ids
      → collect_ids dbl rng (narrow energy) ids ≡ past_end
  unfolding collect_ids
  collect_ids-past_end energy ids pct past = rw (pct, first_past (kept energy ids) ids past) refl

  -- perturbConfig is not followed past that read.
  pub perturb_config-past_end :
      (polly : Bool) (shuffle : List ℕ → List ℕ) (c : KnobConfig) (ks : KnobSet) (e : E)
      (energy : D)
      → collect_ids dbl rng (narrow energy) (shuffle (all_ids ks)) ≡ past_end
      → perturb_config dbl rng polly shuffle c ks e energy ≡ none
  unfolding perturb_config
  perturb_config-past_end polly shuffle c ks e energy past = rw past refl
