-- ===== src/Export/Trace/Found.antt =====
-- The recursion ends, and finds exactly the global objects that can be reached by the rules.
use at_jit.Prelude.{
  ℕ, zero, suc, ◌+◌, ◌<◌, ◌≤◌, Bool, true, false, ◌&&◌, ◌||◌, Option, some, List, [], ◌∷◌, ◌≡◌, ◌↔◌,
  ◌⊎◌, inl, inr, refl, sym, subst, ◌∙◌, arith, All, Bool-cases,
}
use at_jit.Prelude.Partial.{Succeeds, Succeeds-if, Succeeds-mono, >>=-Succeeds}
use at_jit.Export.Referenced.{mem}
use at_jit.Export.Trace.Flows.{Occurs, Flows, calls-Flows, Flows-calls}
use at_jit.Export.Trace.{
  Code, TraceCall, loaded, stored, Sets, empty_sets, traced_value, has_call, is_object, enter,
  calls, trace_each, trace, tracer,
}
use at_jit.Export.Trace.Entered.{
  All-Occurs, Occurs-All, missing-none, missing_sub, same_call, same_call-≡, same_call_refl, unseen,
  Objects, has_call-enter, unseen-enter, Objects-enter,
}

module _ (g : Code) where
  -- What can be reached from a first load
  pub data Reach (root : TraceCall) : TraceCall → Type 0 where
    here : Reach root root
    next : {c d : TraceCall} → Reach root c → Flows g c d → Reach root d

  module _ (n : ℕ) (root : TraceCall)
      (closed : (c d : TraceCall) → traced_value c < n → Flows g c d → traced_value d < n) where
    -- What was entered can be reached, and the objects are those that were entered.
    record Good (s : Sets) : Type 0 where
      sound : (c : TraceCall) → has_call c s ≡ true → Reach root c
      objects : Objects g s

    -- What a call does to the sets: they grow, and each call that is new has made its own calls.
    record Grows (s s' : Sets) : Type 0 where
      good : Good s'
      kept : (c : TraceCall) → has_call c s ≡ true → has_call c s' ≡ true
      complete :
          (c d : TraceCall)
          → has_call c s' ≡ true
          → has_call c s ≡ false
          → Occurs d (calls g c)
          → has_call d s' ≡ true

    Grows-refl : (s : Sets) → Good s → Grows s s
    Grows-refl s good = record {
      good = good;
      kept = λ c h. h;
      complete = λ c d old new o. absurd (cc);
    }

    Grows-trans : (s a b : Sets) → Grows s a → Grows a b → Grows s b
    Grows-trans s a b p q = record {
      good = q.good;
      kept = λ c h. q.kept c (p.kept c h);
      complete = λ c d h new o. elim (Bool-cases (has_call c a)) [
        | inl old ↦ q.kept d (p.complete c d old new o)
        | inr new' ↦ q.complete c d h new' o
      ];
    }

    unseen-Grows : (s s' : Sets) → Grows s s' → unseen n s' ≤ unseen n s
    unfolding unseen
    unseen-Grows s s' p = omega (
      arith,
      missing_sub n s.loaded_values s'.loaded_values λ v. p.kept (loaded v),
      missing_sub n s.stored_values s'.stored_values λ v. p.kept (stored v),
    )

    abbrev Fits : TraceCall → Type 0
    Fits c = Reach root c × (traced_value c < n)

    trace_each-Grows :
        (run : TraceCall → Sets → Option Sets) (fuel : ℕ)
        → ((c : TraceCall) (s : Sets)
            → Good s
            → Fits c
            → unseen n s < fuel
            → Succeeds (λ s'. Grows s s' × (has_call c s' ≡ true)) (run c s))
        → (cs : List TraceCall) (s : Sets) → Good s
        → All Fits cs
        → unseen n s < fuel
        → Succeeds (λ s'. Grows s s' × All (λ c. has_call c s' ≡ true) cs) (trace_each run cs s)
    unfolding trace_each
    trace_each-Grows run fuel one [] s good fits enough = (Grows-refl s good, tt)
    trace_each-Grows run fuel one (c ∷ cs) s good (fit, fits) enough =
        >>=-Succeeds _ (run c s) _ (one c s good fit enough) λ a (p, done).
          Succeeds-mono _ _ (trace_each run cs a)
            (λ b (q, all). (Grows-trans s a b p q, (q.kept c done, all)))
            (trace_each-Grows run fuel one cs a p.good fits (omega (arith, unseen-Grows s a p)))

    Good-enter : (c : TraceCall) (s : Sets) → Good s → Fits c → Good (enter g c s)
    Good-enter c s good (reach, lt) = record {
      sound = λ d h. elim (Bool-cases (same_call c d)) [
        | inl same ↦ subst (Reach root) (same_call-≡ c d same) reach
        | inr other ↦ good.sound d (rw other at (sym (has_call-enter g c d s) ∙ h))
      ];
      objects = Objects-enter g c s good.objects;
    }

    -- The calls of one that is entered complete it.
    Grows-enter :
        (c : TraceCall) (s s' : Sets)
        → has_call c s ≡ false
        → Grows (enter g c s) s'
        → All (λ d. has_call d s' ≡ true) (calls g c)
        → Grows s s' × (has_call c s' ≡ true)
    Grows-enter c s s' new p all = (
      record {
        good = p.good;
        kept = λ d h. p.kept d (has_call-enter g c d s ∙ either (same_call c d) (has_call d s) h);
        complete = λ d e h fresh o. elim (Bool-cases (same_call c d)) [
          | inl same ↦
              All-Occurs (λ x. has_call x s' ≡ true) (calls g c) e all
                (subst (λ x. Occurs e (calls g x)) (sym (same_call-≡ c d same)) o)
          | inr other ↦
              p.complete d e h
                (has_call-enter g c d s ∙ neither (same_call c d) (has_call d s) other fresh) o
        ];
      },
      p.kept c (has_call-enter g c c s ∙ first (same_call c c) (has_call c s) (same_call_refl c)),
    )
      where
        either : (a b : Bool) → b ≡ true → (a || b) ≡ true
        either a b h = ground arith

        first : (a b : Bool) → a ≡ true → (a || b) ≡ true
        first a b h = ground arith

        neither : (a b : Bool) → a ≡ false → b ≡ false → (a || b) ≡ false
        neither a b p q = ground arith

    trace-Grows :
        (fuel : ℕ) (c : TraceCall) (s : Sets)
        → Good s
        → Fits c
        → unseen n s < fuel
        → Succeeds (λ s'. Grows s s' × (has_call c s' ≡ true)) (trace g fuel c s)
    unfolding trace
    trace-Grows zero c s good fit enough = absurd (omega arith)
    trace-Grows (suc fuel) c s good (reach, lt) enough =
        Succeeds-if _ (has_call c s) (some s) _ (λ old. (Grows-refl s good, old))
          λ new.
            Succeeds-mono _ _ (trace_each (λ c' s'. trace g fuel c' s') (calls g c) (enter g c s))
              (λ s' (p, all). Grows-enter c s s' new p all)
              (trace_each-Grows (λ c' s'. trace g fuel c' s') fuel
                (λ c' s' good' fit' enough'. trace-Grows fuel c' s' good' fit' enough') (calls g c)
                (enter g c s) (Good-enter c s good (reach, lt))
                (Occurs-All Fits (calls g c)
                  λ d o. (next reach (calls-Flows g c d o), closed c d lt (calls-Flows g c d o)))
                (omega (arith, unseen-enter g n c s lt new)))

    -- With all sets empty before, what can be reached is entered.
    entered :
        (s : Sets)
        → Grows empty_sets s
        → has_call root s ≡ true
        → (c : TraceCall) → Reach root c
        → has_call c s ≡ true
    entered s p done c here = done
    entered s p done d (next {c} r o) =
        p.complete c d (entered s p done c r) (fresh c) (Flows-calls g c d o)
      where
        fresh : (c : TraceCall) → has_call c empty_sets ≡ false
        fresh (loaded v) = refl
        fresh (stored v) = refl

    at_end :
        (s : Sets)
        → Grows empty_sets s
        → has_call root s ≡ true
        → (o : ℕ)
        → (mem o s.objects ≡ true)
          ↔ ((is_object (g.class o) ≡ true) × (Reach root (loaded o) ⊎ Reach root (stored o)))
    at_end s p done o = (
      λ m.
          let (is, r) =
            split (is_object (g.class o)) (mem o s.loaded_values) (mem o s.stored_values)
              (sym (p.good.objects o) ∙ m) in
          (
            is,
            elim r [
              | inl l ↦ inl (p.good.sound (loaded o) l)
              | inr m ↦ inr (p.good.sound (stored o) m)
            ],
          ),
      λ (is, r). p.good.objects o ∙ elim r [
        | inl r ↦
            join (is_object (g.class o)) (mem o s.loaded_values) (mem o s.stored_values) is
              (inl (entered s p done (loaded o) r))
        | inr r ↦
            join (is_object (g.class o)) (mem o s.loaded_values) (mem o s.stored_values) is
              (inr (entered s p done (stored o) r))
      ],
    )
      where
        split : (b l m : Bool) → (b && (l || m)) ≡ true → (b ≡ true) × ((l ≡ true) ⊎ (m ≡ true))
        split b l m e = ground arith

        join : (b l m : Bool) → b ≡ true → (l ≡ true) ⊎ (m ≡ true) → (b && (l || m)) ≡ true
        join b l m e h = ground arith

  -- The objects are exactly those that the first call reaches.
  abbrev pub Found : ℕ → Sets → Type 0
  Found v s =
      (o : ℕ)
      → (mem o s.objects ≡ true) ↔ (
          (is_object (g.class o) ≡ true)
          × (Reach (loaded v) (loaded o) ⊎ Reach (loaded v) (stored o)))

  -- In a module whose values are the numbers below n, MayAliasTracer ends on each of them, and it counts exactly the
  -- global objects that the value may come from or that may be stored through it: what one reaches by the rules for
  -- phi nodes, selects, casts, addresses, arrays, initializers, stack slots, stores and memcpy.
  pub tracer-Found :
      (n v : ℕ)
      → ((c d : TraceCall) → traced_value c < n → Flows g c d → traced_value d < n)
      → v < n
      → Succeeds (Found v) (tracer g n v)
  unfolding tracer unseen
  tracer-Found n v closed lt =
      Succeeds-mono _ _ (trace g (n + n + 1) (loaded v) empty_sets)
        (λ s (p, done). at_end n (loaded v) closed s p done)
        (trace-Grows n (loaded v) closed (n + n + 1) (loaded v) empty_sets
          (record { sound = not_yet; objects = λ o. no_object (is_object (g.class o)) }) (here, lt)
          (omega (arith, missing-none n)))
    where
      not_yet : (c : TraceCall) → has_call c empty_sets ≡ true → Reach (loaded v) c
      not_yet (loaded w) h = absurd (cc)
      not_yet (stored w) h = absurd (cc)

      no_object : (b : Bool) → false ≡ (b && (false || false))
      no_object b = ground arith
