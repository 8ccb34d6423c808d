-- ===== src/Call/Agree.antt =====
-- The parameters of the wrapper, computed twice: by meta.h from the types of the call, when the program is compiled, and
-- by InlineParameters.cpp from the context, when the function is specialised.
use at_jit.Prelude.{
  ℕ, zero, suc, ◌<◌, Bool, none, some, List, [], ◌∷◌, ◌++◌, map, take, take-append, All-left,
  length, length-map, list_ext, get_elem?-lt, get_elem?-replicate, length-replicate, replicate, leb,
  ◌==◌, ◌≡◌, refl, sym, ap, subst, ◌∙◌, arith, All,
}
use at_jit.Prelude.Partial.{
  assert, Succeeds-value, Succeeds-and, IfSome-at, >>=-IfSome, IfSome-always,
}
use at_jit.Context.Interfaces.{Hashes}
use at_jit.Context.{Argument, Context, empty_context}
use at_jit.Wrappers.{get_new_arg_count, wrapper_types}
use at_jit.Wrappers.Types.{wrapper_types-first}
use at_jit.Call.{
  Category, Arg, placeholder, wrapper, knob, value, option, discard_options, max_placeholder,
  has_seen, map_helper, new_parameter_list, get_context_for,
}
use at_jit.Call.Slots.{slot_of, slot_of_arg, SmallArg, IsOption, Bound, set_parameters-Bound}
use at_jit.Call.Params.{SpelledBy, Mapped, Tracks, map_helper-Mapped}
use at_jit.Call.Counts.{
  count_in, SmallSlot, get_new_arg_count-in, max_placeholder-in, small_slots, All-Small, same_first,
}
use at_jit.Wrappers.Length.{wrapper_types-length}

module _ (h : Hashes) (Ty : Type 0) where
  abbrev NotOption : Arg h Ty → Type 0
  NotOption (option o v) = ⊥
  NotOption _ = Unit

  discard-All : (al : List (Arg h Ty)) → All (IsOption h Ty) al → discard_options h Ty al ≡ []
  unfolding discard_options
  discard-All [] all = refl
  discard-All (option o v ∷ al) (is, all) = discard-All al all
  discard-All (placeholder s k ∷ al) (is, all) = absurd is
  discard-All (wrapper t f ∷ al) (is, all) = absurd is
  discard-All (knob r ∷ al) (is, all) = absurd is
  discard-All (value v ∷ al) (is, all) = absurd is

  discard-behind :
      (bound al : List (Arg h Ty))
      → All NotOption bound
      → All (IsOption h Ty) al
      → discard_options h Ty (bound ++ al) ≡ bound
  unfolding discard_options
  discard-behind [] al plain all = discard-All al all
  discard-behind (option o v ∷ bound) al (not_one, plain) all = absurd not_one
  discard-behind (placeholder s k ∷ bound) al (u, plain) all =
      ap (λ l. placeholder s k ∷ l) (discard-behind bound al plain all)
  discard-behind (wrapper t f ∷ bound) al (u, plain) all =
      ap (λ l. wrapper t f ∷ l) (discard-behind bound al plain all)
  discard-behind (knob r ∷ bound) al (u, plain) all =
      ap (λ l. knob r ∷ l) (discard-behind bound al plain all)
  discard-behind (value v ∷ bound) al (u, plain) all =
      ap (λ l. value v ∷ l) (discard-behind bound al plain all)

  -- The slots of GetWrapperTy, and the list of meta.h, agree where they were made of the same placeholders.
  same_types :
      (bound : List (Arg h Ty)) (xs : List (Argument h)) (ps ts : List Ty)
      → map (slot_of h) xs ≡ map (slot_of_arg h Ty) bound
      → length bound ≡ length ps
      → All (SmallArg h Ty) bound
      → Mapped h Ty bound ps (replicate (max_placeholder h Ty bound 0) none) ts
      → wrapper_types h xs ps ≡ some (map some ts)
  same_types bound xs ps ts slots len small (mapped, size) =
      let smalls = subst (All SmallSlot) (sym slots) (small_slots h Ty bound small) in
      let count : get_new_arg_count h xs 0 ≡ max_placeholder h Ty bound 0 =
        get_new_arg_count-in h Ty xs 0 smalls
        ∙ ap (λ os. count_in os 0) slots
        ∙ sym (max_placeholder-in h Ty bound 0) in
      let as_many : length xs ≡ length ps =
        sym (length-map (slot_of h) xs)
        ∙ ap length slots
        ∙ length-map (slot_of_arg h Ty) bound
        ∙ len in
      let (r, e, (first, long)) = Succeeds-value _ (wrapper_types h xs ps) (
        Succeeds-and _ _ (wrapper_types h xs ps)
          (wrapper_types-first h xs ps (omega (arith, as_many)) (All-Small h Ty xs smalls))
          (wrapper_types-length h Ty xs ps)) in
      let width = long ∙ count in
      let width' : length (map some ts) ≡ max_placeholder h Ty bound 0 =
        length-map some ts ∙ size ∙ length-replicate (max_placeholder h Ty bound 0) none in
      e
      ∙ ap some (
          list_ext r (map some ts) (width ∙ sym width') λ k o at.
            let below = get_elem?-lt r k o at in
            let lt : k < max_placeholder h Ty bound 0 = omega (arith, below, width) in
            mapped k none (get_elem?-replicate (max_placeholder h Ty bound 0) k none lt)
            ∙ ap some (sym (same_first h Ty k bound xs ps slots))
            ∙ sym (first k (omega (arith, lt, count)))
            ∙ at)

  none_seen : (spell : ℕ → ℕ) (n : ℕ) → Tracks h Ty spell (replicate n none) []
  unfolding has_seen
  none_seen spell zero k = refl
  none_seen spell (suc n) zero = refl
  none_seen spell (suc n) (suc k) = none_seen spell n k

  module _ (category : Ty → Category) (assignable : Ty → Ty → Bool) (is_int : Ty → Bool) where
    context-Bound :
        (ps : List Ty) (args : List (Arg h Ty)) (c : Context h)
        → All (SmallArg h Ty) args
        → get_context_for h Ty category assignable is_int ps args ≡ some c
        → Bound h Ty (length ps) args (empty_context h) c
    unfolding get_context_for
    context-Bound ps args c small made =
        IfSome-at (Bound h Ty (length ps) args (empty_context h))
          (get_context_for h Ty category assignable is_int ps args) c made
          (>>=-IfSome _ (assert (leb (length ps) (length args))) _
            (IfSome-always (assert (leb (length ps) (length args))))
            λ u u'.
              set_parameters-Bound h Ty category assignable is_int ps args (empty_context h) small)

    -- Take a call of easy::jit that compiles: its context is `c` and the parameters of the wrapper are `ts`. Where no
    -- option stands before the last parameter's argument, all uses of a placeholder have one type, and the indexes
    -- are below 2^32 - 1, GetWrapperTy gives the wrapper exactly those parameters.
    pub new_parameter_list-wrapper_types :
        (spell : ℕ → ℕ) (ps : List Ty) (args : List (Arg h Ty)) (c : Context h) (ts : List Ty)
        → All (SmallArg h Ty) args
        → All (SpelledBy h Ty spell) args
        → All NotOption (take (length ps) args)
        → get_context_for h Ty category assignable is_int ps args ≡ some c
        → new_parameter_list h Ty ps args ≡ some ts
        → wrapper_types h c.args ps ≡ some (map some ts)
    unfolding new_parameter_list get_context_for
    new_parameter_list-wrapper_types spell ps args c ts small spelled plain made listed =
        let b = context-Bound ps args c small made in
        let clean : discard_options h Ty args ≡ b.bound = rw (b.split) (
          discard-behind b.bound b.options
            (subst (All NotOption)
              (ap (take (length ps)) b.split ∙ take-append b.bound b.options (length ps) b.as_many)
              plain)
            b.all_options) in
        let in_bound = λ (P : Arg h Ty → Type 0) (all : All P args).
          All-left P b.bound b.options (subst (All P) b.split all) in
        let n = max_placeholder h Ty b.bound 0 in
        let mapped =
          IfSome-at (Mapped h Ty b.bound ps (replicate n none))
            (map_helper h Ty ps n (n == 0) b.bound (replicate n none) []) ts
            (subst
              (λ al.
                map_helper h Ty ps (max_placeholder h Ty al 0) (max_placeholder h Ty al 0 == 0) al
                  (replicate (max_placeholder h Ty al 0) none) []
                ≡ some ts)
              clean listed)
            (map_helper-Mapped h Ty spell ps n b.bound (n == 0) [] ps (replicate n none) [] refl
              b.as_many (in_bound (SpelledBy h Ty spell) spelled) (none_seen spell n)) in
        let same : c.args ≡ b.added = b.context_args in
        rw same (
          same_types b.bound b.added ps ts b.same_slots b.as_many (in_bound (SmallArg h Ty) small)
            mapped)
