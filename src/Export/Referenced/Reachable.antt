-- ===== src/Export/Referenced/Reachable.antt =====
-- The loop ends, and finds exactly the functions that can be reached from the entry.
use at_jit.Prelude.{
  ℕ, zero, suc, ◌+◌, ◌<◌, Bool, true, false, ◌&&◌, ◌||◌, List, [], ◌∷◌, ◌++◌, length, if◌then◌else◌,
  ◌==◌, ◌≡◌, ◌↔◌, ◌⊎◌, inl, inr, refl, sym, ap, subst, ◌∙◌, arith, Bool-cases, ==_iff, ==_refl,
}
use at_jit.Prelude.Partial.{Succeeds, Succeeds-if}
use at_jit.Export.Referenced.{
  Values, mem, push_all, is_function, inner, push_users, visit, uses, get_referenced,
}
use at_jit.Export.Referenced.Pushed.{
  mem-push_all, length-push_all, mem-append, Pushed, Uses, Pushed-Uses, Uses-Pushed, weight,
  weight-fresh, weight-visit,
}

module _ (g : Values) where
  -- The values that can be reached from the entry
  pub data Reach (entry : ℕ) : ℕ → Type 0 where
    here : Reach entry entry
    next : {u v : ℕ} → Reach entry u → Uses g u v → Reach entry v

  module _ (n entry : ℕ) (closed : (u v : ℕ) → u < n → Uses g u v → v < n) where
    -- What holds before each round
    record Inv (stack visited funs : List ℕ) : Type 0 where
      source : (mem entry visited || mem entry stack) ≡ true
      below : (v : ℕ) → mem v stack ≡ true → v < n
      stack_sound : (v : ℕ) → mem v stack ≡ true → Reach entry v
      visited_sound : (v : ℕ) → mem v visited ≡ true → Reach entry v
      uses_known :
          (u v : ℕ) → mem u visited ≡ true → Pushed g u v → (mem v visited || mem v stack) ≡ true
      functions : (f : ℕ) → mem f funs ≡ (mem f visited && is_function (g.kind f))

    Inv-again :
        (u : ℕ) (stack visited funs : List ℕ)
        → mem u visited ≡ true
        → Inv (u ∷ stack) visited funs
        → Inv stack visited funs
    Inv-again u stack visited funs old inv = record {
      source = known entry inv.source;
      below = λ v m. inv.below v (deeper v m);
      stack_sound = λ v m. inv.stack_sound v (deeper v m);
      visited_sound = inv.visited_sound;
      uses_known = λ w v m it. known v (inv.uses_known w v m it);
      functions = inv.functions;
    }
      where
        deeper : (v : ℕ) → mem v stack ≡ true → (u == v || mem v stack) ≡ true
        deeper v m = ground arith

        known :
            (v : ℕ)
            → (mem v visited || (u == v || mem v stack)) ≡ true
            → (mem v visited || mem v stack) ≡ true
        known v m = elim (Bool-cases (u == v)) [
          | inl same ↦
              let at : mem v visited ≡ true =
                subst (λ w. mem w visited ≡ true) ((==_iff u v).0 same) old in
              rw at refl
          | inr differs ↦ rw differs at m
        ]

    mem-push_users :
        (v u : ℕ) (stack : List ℕ)
        → mem v (push_users g u stack)
          ≡ (mem v (g.operands u) || (mem v (inner g (g.kind u)) || mem v stack))
    mem-push_users v u stack =
        mem-push_all v (g.operands u) (push_all (inner g (g.kind u)) stack)
        ∙ ap (λ b. mem v (g.operands u) || b) (mem-push_all v (inner g (g.kind u)) stack)

    -- Boolean facts on being visited (a), being u itself (b), being in the stack (c), and being used by u (p, q)
    step_known : (a b c p q : Bool) → (a || (b || c)) ≡ true → ((b || a) || (p || (q || c))) ≡ true
    step_known a b c p q e = ground arith

    used_known : (a b c p q : Bool) → (p || q) ≡ true → ((b || a) || (p || (q || c))) ≡ true
    used_known a b c p q e = ground arith

    either : (p q c : Bool) → (p || (q || c)) ≡ true → ((p || q) ≡ true) ⊎ (c ≡ true)
    either p q c e = ground arith

    push_users-Pushed :
        (v u : ℕ) (stack : List ℕ)
        → mem v (push_users g u stack) ≡ true
        → Pushed g u v ⊎ (mem v stack ≡ true)
    push_users-Pushed v u stack m =
        either (mem v (g.operands u)) (mem v (inner g (g.kind u))) (mem v stack)
          (sym (mem-push_users v u stack) ∙ m)

    functions_after :
        (u f : ℕ) (visited funs : List ℕ)
        → mem f funs ≡ (mem f visited && is_function (g.kind f))
        → mem f (if is_function (g.kind u) then funs ++ u ∷ [] else funs)
          ≡ ((u == f || mem f visited) && is_function (g.kind f))
    functions_after u f visited funs e = elim (Bool-cases (u == f)) [
      | inl same ↦ rw same (
          subst
            (λ k.
              mem f (if is_function (g.kind k) then funs ++ u ∷ [] else funs)
              ≡ is_function (g.kind f))
            (sym ((==_iff u f).0 same))
            (at_itself u f visited funs (is_function (g.kind f)) same e))
      | inr differs ↦ rw differs (other_than u f visited funs (is_function (g.kind u)) differs e)
    ]
      where
        at_itself :
            (u f : ℕ) (visited funs : List ℕ) (t : Bool)
            → (u == f) ≡ true
            → mem f funs ≡ (mem f visited && t)
            → mem f (if t then funs ++ u ∷ [] else funs) ≡ t
        at_itself u f visited funs true same e = mem-append f u funs ∙ ground arith
        at_itself u f visited funs false same e = ground arith

        other_than :
            (u f : ℕ) (visited funs : List ℕ) (t : Bool)
            → (u == f) ≡ false
            → mem f funs ≡ (mem f visited && is_function (g.kind f))
            → mem f (if t then funs ++ u ∷ [] else funs) ≡ (mem f visited && is_function (g.kind f))
        other_than u f visited funs true differs e = mem-append f u funs ∙ ground arith
        other_than u f visited funs false differs e = e

    Inv-first :
        (u : ℕ) (stack visited funs : List ℕ)
        → Inv (u ∷ stack) visited funs
        → Inv
            (push_users g u stack)
            (u ∷ visited)
            (if is_function (g.kind u) then funs ++ u ∷ [] else funs)
    Inv-first u stack visited funs inv = record {
      source =
          after (λ b. ((u == entry || mem entry visited) || b) ≡ true) entry
            (step_known (mem entry visited) (u == entry) (mem entry stack) _ _ inv.source);
      below = λ v m. elim (push_users-Pushed v u stack m) [
        | inl used ↦ closed u v (inv.below u at_top) (Pushed-Uses g u v used)
        | inr waits ↦ inv.below v (deeper v waits)
      ];
      stack_sound = λ v m. elim (push_users-Pushed v u stack m) [
        | inl used ↦ next (inv.stack_sound u at_top) (Pushed-Uses g u v used)
        | inr waits ↦ inv.stack_sound v (deeper v waits)
      ];
      visited_sound = λ v m. elim (Bool-cases (u == v)) [
        | inl same ↦ subst (Reach entry) ((==_iff u v).0 same) (inv.stack_sound u at_top)
        | inr differs ↦ inv.visited_sound v (rw differs at m)
      ];
      uses_known = λ w v m it.
          after (λ b. ((u == v || mem v visited) || b) ≡ true) v
            (elim (Bool-cases (u == w)) [
              | inl same ↦
                  used_known (mem v visited) (u == v) (mem v stack) _ _
                    (subst (λ x. Pushed g x v) (sym ((==_iff u w).0 same)) it)
              | inr differs ↦
                  step_known (mem v visited) (u == v) (mem v stack) _ _
                    (inv.uses_known w v (rw differs at m) it)
            ]);
      functions = λ f. functions_after u f visited funs (inv.functions f);
    }
      where
        at_top : (u == u || mem u stack) ≡ true
        at_top = rw (==_refl u) refl

        deeper : (v : ℕ) → mem v stack ≡ true → (u == v || mem v stack) ≡ true
        deeper v m = ground arith

        after :
            (P : Bool → Type 0) (v : ℕ)
            → P (mem v (g.operands u) || (mem v (inner g (g.kind u)) || mem v stack))
            → P (mem v (push_users g u stack))
        after P v h = subst P (sym (mem-push_users v u stack)) h

    no_stack : (a : Bool) → (a || false) ≡ true → a ≡ true
    no_stack a e = ground arith

    both : (a b : Bool) → (a && b) ≡ true → (a ≡ true) × (b ≡ true)
    both a b e = ground arith

    two : (a b : Bool) → a ≡ true → b ≡ true → (a && b) ≡ true
    two a b p q = ground arith

    -- The list holds exactly the functions that can be reached.
    abbrev pub Found : List ℕ → Type 0
    Found funs = (f : ℕ) → (mem f funs ≡ true) ↔ ((is_function (g.kind f) ≡ true) × Reach entry f)

    -- With an empty stack, what can be reached has been visited.
    complete :
        (visited funs : List ℕ)
        → Inv [] visited funs
        → {v : ℕ} → Reach entry v
        → mem v visited ≡ true
    complete visited funs inv here = no_stack (mem entry visited) inv.source
    complete visited funs inv (next {u} {v} r it) =
        no_stack (mem v visited)
          (inv.uses_known u v (complete visited funs inv r) (Uses-Pushed g u v it))

    Inv-Found : (visited funs : List ℕ) → Inv [] visited funs → Found funs
    Inv-Found visited funs inv f =
        let same = inv.functions f in
        (
          λ m.
              let (seen, is) = both (mem f visited) (is_function (g.kind f)) (sym same ∙ m) in
              (is, inv.visited_sound f seen),
          λ (is, r).
              same ∙ two (mem f visited) (is_function (g.kind f)) (complete visited funs inv r) is,
        )

    visit-Found :
        (fuel : ℕ) (stack visited funs : List ℕ)
        → Inv stack visited funs
        → length stack + weight g n visited < fuel
        → Succeeds Found (visit g fuel stack visited funs)
    unfolding visit
    visit-Found zero stack visited funs inv enough = absurd (omega arith)
    visit-Found (suc fuel) [] visited funs inv enough = Inv-Found visited funs inv
    visit-Found (suc fuel) (u ∷ stack) visited funs inv enough =
        Succeeds-if Found (mem u visited) _ _
          (λ old.
            visit-Found fuel stack visited funs (Inv-again u stack visited funs old inv)
              (omega arith))
          λ new.
            visit-Found fuel (push_users g u stack) (u ∷ visited)
              (if is_function (g.kind u) then funs ++ u ∷ [] else funs)
              (Inv-first u stack visited funs inv)
              (omega (
                arith,
                enough,
                weight-visit g n u visited (inv.below u (rw (==_refl u) refl)) new,
                length-push_all (g.operands u) (push_all (inner g (g.kind u)) stack),
                length-push_all (inner g (g.kind u)) stack,
              ))

    -- In a module whose values are the numbers below n, the loop from an entry ends, and it finds exactly the
    -- functions that the entry reaches through operands, the operands of instructions and initializers.
    pub get_referenced-Found : entry < n → Succeeds Found (get_referenced g n entry)
    unfolding get_referenced
    get_referenced-Found in_module =
        visit-Found (uses g n + 2) (entry ∷ []) [] []
          (record {
            source = rw (==_refl entry) refl;
            below = λ v m. subst (λ w. w < n) (only v m) in_module;
            stack_sound = λ v m. subst (Reach entry) (only v m) here;
            visited_sound = λ v m. absurd (cc);
            uses_known = λ u v m it. absurd (cc);
            functions = λ f. refl;
          })
          (omega (arith, weight-fresh g n))
      where
        only : (v : ℕ) → (entry == v || false) ≡ true → entry ≡ v
        only v m = ground arith
