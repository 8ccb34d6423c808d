-- ===== src/Loops/Sections/Adjust.antt =====
-- LoopKnobAdjustor::runOnLoop: what it reports, and what it keeps.
use at_jit.Prelude.{
  ◌⊎◌, true, ℕ, ◌≡◌, refl, sym, ap, ap₂, ◌∙◌, subst, Bool, false, ◌||◌, Option, none, some, List,
  [], ◌∷◌, ◌==◌, Bool-cases, inl, inr, arith,
}
use mathlib.Core.Bool.{false≢true}
use at_jit.Prelude.Partial.{◌>>=◌, Succeeds, >>=-Succeeds, Succeeds-mono, Succeeds-both, if-cases}
use at_jit.LoopSetting.{LoopSetting}
use at_jit.Knobs.{lookup}
use at_jit.Loops.{
  MdStrings, Operand, add_to_loop_md, get_loop_name, set_presence_option, set_int_option,
}
use at_jit.Loops.Setting.{get_loop_name-kept}
use at_jit.Loops.Sections.{
  LoopKnob, get_val, children, loop_name, Transform, create_all, add_loop_transform_group,
  LoopState, sets_any, add_regular_md, run_on_loop, run_found, identify_loops, analyze_sections,
}

module _ (strs : MdStrings) where
  -- With nothing set, the node stays.
  add_to_loop_md-same :
      (md : List (Operand strs)) (ls : LoopSetting)
      → sets_any strs ls ≡ false
      → add_to_loop_md strs md ls ≡ some md
  unfolding add_to_loop_md sets_any set_presence_option set_int_option
  add_to_loop_md-same md ls h =
      let e1 : ls.unroll_disable ≡ none = ground arith in
      let e2 : ls.unroll_full ≡ none = ground arith in
      let e3 : ls.licm_ver_disable ≡ none = ground arith in
      let e4 : ls.unroll_count ≡ none = ground arith in
      let e5 : ls.vectorize_width ≡ none = ground arith in
      let e6 : ls.interleave_count ≡ none = ground arith in
      let e7 : ls.distribute ≡ none = ground arith in rw (e1, e2, e3, e4, e5, e6, e7) refl

  -- The operands keep the name, and change only where a change is reported.
  Reports : List (Operand strs) → Bool × List (Operand strs) → Type 0
  Reports md (changed, md') =
      (changed ≡ false → md' ≡ md) × (get_loop_name strs md' ≡ get_loop_name strs md)

  changes_reported :
      (md : List (Operand strs)) (ls : LoopSetting)
      → Succeeds (λ md'. sets_any strs ls ≡ false → md' ≡ md) (add_to_loop_md strs md ls)
  changes_reported md ls = elim (Bool-cases (sets_any strs ls)) [
    | inl e ↦
        Succeeds-mono _ (λ md'. sets_any strs ls ≡ false → md' ≡ md) (add_to_loop_md strs md ls)
          (λ md' h no_change. absurd (false≢true (sym no_change ∙ e)))
          (get_loop_name-kept strs md ls)
    | inr e ↦
        subst (Succeeds (λ md'. sets_any strs ls ≡ false → md' ≡ md))
          (sym (add_to_loop_md-same md ls e)) λ h. refl
  ]

  add_regular_md-Reports :
      (md : List (Operand strs)) (k : LoopKnob) → Succeeds (Reports md) (add_regular_md strs md k)
  unfolding add_regular_md Reports
  add_regular_md-Reports md k =
      >>=-Succeeds (Reports md) (add_to_loop_md strs md (get_val k)) _
        (Succeeds-both {P = λ md'. sets_any strs (get_val k) ≡ false → md' ≡ md}
          {Q = λ md'. get_loop_name strs md' ≡ get_loop_name strs md}
          {R = λ md'. Reports md (sets_any strs (get_val k), md')}
          (add_to_loop_md strs md (get_val k)) (λ md' p q. (p, q)) (changes_reported md (get_val k))
          (get_loop_name-kept strs md (get_val k)))
        λ md' h. h

  group_reported :
      (attached : List (Transform strs)) (xs : List (Transform strs))
      → (add_loop_transform_group strs attached xs).0 ≡ false
      → (add_loop_transform_group strs attached xs).1 ≡ attached
  unfolding add_loop_transform_group
  group_reported attached [] h = refl
  group_reported attached (x ∷ xs) h = absurd (false≢true (sym h))

  either_false : (a b : Bool) → (a || b) ≡ false → (a ≡ false) × (b ≡ false)
  either_false a b h = ground arith

  -- What the pass promises of a loop with the name n
  Kept :
      LoopKnob
      → List (Operand strs)
      → List (Transform strs)
      → ℕ
      → Option LoopKnob
      → Bool × LoopState strs
      → Type 0
  Kept main md attached n sub r =
      ((r.0 ≡ true) ⊎ (r.1 ≡ record { loop_md = some md; attached = attached }))
      × ((r.1.loop_md >>= get_loop_name strs) ≡ some n)
      × ((r.0 ≡ false) ⊎ ((n == loop_name main) ≡ true) ⊎ ((k : LoopKnob) × (sub ≡ some k)))

  by_report : {P : Type 0} (b : Bool) → (b ≡ false → P) → (b ≡ true) ⊎ P
  by_report true h = inl refl
  by_report false h = inr (h refl)

  run_found-Kept :
      (main : LoopKnob) (md : List (Operand strs)) (attached : List (Transform strs)) (n : ℕ)
      (sub : Option LoopKnob)
      → get_loop_name strs md ≡ some n
      → Succeeds
          (Kept main md attached n sub)
          (run_found strs main md n (record { loop_md = some md; attached = attached }) sub)
  unfolding run_found Reports Kept
  run_found-Kept main md attached n (some sub) named =
      >>=-Succeeds (Kept main md attached n (some sub)) (add_regular_md strs md sub) _
        (add_regular_md-Reports md sub)
        λ (changed, md') (same, name). (
          by_report changed
              (λ h. ap (λ m. record { loop_md = some m; attached = attached }) (same h)),
          name ∙ named,
          inr (inr (sub, refl)),
        )
  run_found-Kept main md attached n none named =
      if-cases (Succeeds (Kept main md attached n none)) (n == loop_name main) _
        (some (false, record { loop_md = some md; attached = attached }))
        (λ is_main.
          >>=-Succeeds (Kept main md attached n none) (add_regular_md strs md main) _
            (add_regular_md-Reports md main)
            λ (changed, md') (same, name). (
              by_report _ (λ h.
                  let (c, x) = either_false changed _ h in
                  let a = group_reported attached (create_all strs (analyze_sections main)) x in
                  ap₂ (λ m t. record { loop_md = some m; attached = t }) (same c) a),
              name ∙ named,
              inr (inl is_main),
            ))
        (λ other. (inr refl, named, inl refl))

  -- On a loop that has a name, the pass does not stop, and the loop keeps its name. It reports a change, or the
  -- loop's node and the transforms attached to its function are as they were; and it reports none, or the
  -- loop is the main loop or one of those that identifyLoops found below it.
  pub run_on_loop-Reports :
      (main : LoopKnob) (md : List (Operand strs)) (attached : List (Transform strs)) (n : ℕ)
      → get_loop_name strs md ≡ some n
      → Succeeds
          (λ r.
            ((r.0 ≡ true) ⊎ (r.1 ≡ record { loop_md = some md; attached = attached }))
            × ((r.1.loop_md >>= get_loop_name strs) ≡ some n)
            × ((r.0 ≡ false)
                ⊎ ((n == loop_name main) ≡ true)
                ⊎ ((k : LoopKnob) × (lookup n (identify_loops (children main) []) ≡ some k))))
          (run_on_loop strs main (record { loop_md = some md; attached = attached }))
  unfolding run_on_loop Kept
  run_on_loop-Reports main md attached n named =
      rw named
        (run_found-Kept main md attached n (lookup n (identify_loops (children main) [])) named)
