-- ===== src/Call/Slots.antt =====
-- set_parameters: the context holds one argument for each parameter, and forwards the placeholders.
use at_jit.Prelude.{
  ℕ, suc, ◌+◌, ◌%◌, ◌^◌, ◌<◌, Bool, Option, none, some, List, [], ◌∷◌, ◌++◌, map, length, ◌≡◌, refl,
  sym, ap, ap₂, append-nil, append_assoc, ◌∙◌, arith, All,
}
use at_jit.Prelude.Partial.{assert, IfSome, >>=-IfSome, IfSome-always, IfSome-mono}
use at_jit.Context.Interfaces.{Hashes}
use at_jit.Context.{
  Argument, forward, int, float, ptr, struct, module_of, int_range, Context, set_arg,
}
use at_jit.Call.{
  EasyOption, opt_level, tuner_kind, feedback_kind, blocking, dump_ir, set_tuner_kind,
  set_feedback_kind, set_wait_for_compile, set_opt_level, set_debug_file, set_debug_before_file,
  Category, integral, floating, pointer, reference, class_type, other_type, Conversions, Arg,
  placeholder, wrapper, knob, value, option, handle, set_plain, set_param, set_options,
  set_parameters,
}

module _ (h : Hashes) where
  -- The placeholder that an argument of a context forwards
  abbrev pub slot_of : Argument h → Option ℕ
  slot_of (forward k) = some k
  slot_of _ = none

  module _ (Ty : Type 0) where
    abbrev pub slot_of_arg : Arg h Ty → Option ℕ
    slot_of_arg (placeholder s k) = some k
    slot_of_arg _ = none

    -- The index of a placeholder, plus one, fits in 32 bits.
    abbrev pub SmallArg : Arg h Ty → Type 0
    SmallArg (placeholder s k) = k + 1 < 2 ^ 32
    SmallArg _ = Unit

    abbrev pub IsOption : Arg h Ty → Type 0
    IsOption (option o v) = Unit
    IsOption _ = ⊥

    -- One argument more, that forwards what `a` does
    abbrev Adds : Arg h Ty → Context h → Context h → Type 0
    Adds a c c' = (x : Argument h) × (c'.args ≡ c.args ++ x ∷ []) × (slot_of x ≡ slot_of_arg a)

    -- The parameters took one argument each, and options follow.
    pub record Bound (n : ℕ) (args : List (Arg h Ty)) (c c' : Context h) : Type 0 where
      pub bound : List (Arg h Ty)
      pub options : List (Arg h Ty)
      pub added : List (Argument h)
      pub split : args ≡ bound ++ options
      pub as_many : length bound ≡ n
      pub all_options : All IsOption options
      pub context_args : c'.args ≡ c.args ++ added
      pub same_slots : map slot_of added ≡ map slot_of_arg bound

    handle-args : (o : EasyOption) (c : Context h) → (handle h o c).args ≡ c.args
    unfolding handle set_tuner_kind set_feedback_kind set_wait_for_compile set_opt_level
        set_debug_file set_debug_before_file
    handle-args (opt_level level size) c = refl
    handle-args (tuner_kind k) c = refl
    handle-args (feedback_kind k) c = refl
    handle-args (blocking b) c = refl
    handle-args (dump_ir file) c = refl

    module _ (category : Ty → Category) (assignable : Ty → Ty → Bool) (is_int : Ty → Bool) where
      set_plain-Adds :
          (t : Category) (v : Conversions h Ty) (a : Arg h Ty) (c : Context h)
          → slot_of_arg a ≡ none
          → IfSome (Adds a c) (set_plain h Ty category assignable is_int t v c)
      unfolding set_plain set_arg
      set_plain-Adds integral v a c e =
          >>=-IfSome (Adds a c) v.to_int _ (IfSome-always v.to_int) λ z u. (int z, refl, sym e)
      set_plain-Adds floating v a c e =
          >>=-IfSome (Adds a c) v.to_real _ (IfSome-always v.to_real) λ x u. (float x, refl, sym e)
      set_plain-Adds pointer v a c e =
          >>=-IfSome (Adds a c) v.to_pointer _ (IfSome-always v.to_pointer)
            λ x u. (ptr x, refl, sym e)
      set_plain-Adds reference v a c e = (ptr v.address, refl, sym e)
      set_plain-Adds class_type v a c e = (struct v.bytes, refl, sym e)
      set_plain-Adds other_type v a c e = tt

      set_param-Adds :
          (p : Ty) (a : Arg h Ty) (c : Context h)
          → SmallArg a
          → IfSome (Adds a c) (set_param h Ty category assignable is_int p a c)
      unfolding set_param set_arg
      set_param-Adds p (placeholder s k) c small =
          let fits : k % 2 ^ 32 ≡ k = omega arith in (forward (k % 2 ^ 32), refl, ap some fits)
      set_param-Adds p (wrapper t f) c small =
          >>=-IfSome (Adds (wrapper t f) c) (assert (assignable p t)) _
            (IfSome-always (assert (assignable p t))) λ u u'. (module_of f, refl, refl)
      set_param-Adds p (knob r) c small =
          >>=-IfSome (Adds (knob r) c) (assert (is_int p)) _ (IfSome-always (assert (is_int p)))
            λ u u'. (int_range r, refl, refl)
      set_param-Adds p (value v) c small = set_plain-Adds (category p) v (value v) c refl
      set_param-Adds p (option o v) c small = set_plain-Adds (category p) v (option o v) c refl

      set_options-Bound :
          (args : List (Arg h Ty)) (c : Context h)
          → IfSome
              (λ c'. All IsOption args × (c'.args ≡ c.args))
              (set_options h Ty category assignable is_int args c)
      unfolding set_options
      set_options-Bound [] c = (tt, refl)
      set_options-Bound (option o v ∷ args) c =
          IfSome-mono _ _ (set_options h Ty category assignable is_int args (handle h o c))
            (λ c' (all, e). ((tt, all), e ∙ handle-args o c))
            (set_options-Bound args (handle h o c))
      set_options-Bound (placeholder s k ∷ args) c = tt
      set_options-Bound (wrapper t f ∷ args) c = tt
      set_options-Bound (knob r ∷ args) c = tt
      set_options-Bound (value v ∷ args) c = tt

      Bound-cons :
          (n : ℕ) (a : Arg h Ty) (args : List (Arg h Ty)) (c c1 c2 : Context h)
          → Adds a c c1
          → Bound n args c1 c2
          → Bound (suc n) (a ∷ args) c c2
      Bound-cons n a args c c1 c2 (x, e, slot) b = record {
        bound = a ∷ b.bound;
        options = b.options;
        added = x ∷ b.added;
        split = ap (λ l. a ∷ l) b.split;
        as_many = ap suc b.as_many;
        all_options = b.all_options;
        context_args =
            b.context_args ∙ ap (λ l. l ++ b.added) e ∙ append_assoc c.args (x ∷ []) b.added;
        same_slots = ap₂ (λ o os. o ∷ os) slot b.same_slots;
      }

      -- The context of set_parameters
      pub set_parameters-Bound :
          (ps : List Ty) (args : List (Arg h Ty)) (c : Context h)
          → All SmallArg args
          → IfSome
              (Bound (length ps) args c)
              (set_parameters h Ty category assignable is_int ps args c)
      unfolding set_parameters
      set_parameters-Bound [] args c small =
          IfSome-mono _ _ (set_options h Ty category assignable is_int args c)
            (λ c' (all, e). record {
              bound = [];
              options = args;
              added = [];
              split = refl;
              as_many = refl;
              all_options = all;
              context_args = e ∙ sym (append-nil c.args);
              same_slots = refl;
            })
            (set_options-Bound args c)
      set_parameters-Bound (p ∷ ps) [] c small = tt
      set_parameters-Bound (p ∷ ps) (a ∷ args) c (small, smalls) =
          >>=-IfSome _ (set_param h Ty category assignable is_int p a c) _
            (set_param-Adds p a c small)
            λ c1 adds.
              IfSome-mono _ _ (set_parameters h Ty category assignable is_int ps args c1)
                (λ c2 b. Bound-cons (length ps) a args c c1 c2 adds b)
                (set_parameters-Bound ps args c1 smalls)
