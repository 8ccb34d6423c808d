-- ===== src/Call.antt =====
-- include/easy/param.h, options.h, meta.h and jit.h (get_context_for): how a call of easy::jit turns its arguments into
-- a context, and which parameters the wrapper that it returns has. This code runs at compile time: `none` as a
-- result is a call that does not compile. The type traits of the C++ library are a parameter.
pub mod Slots
pub mod Params
pub mod Counts
pub mod Agree
mod Tests
use at_jit.Prelude.{
  ℕ, zero, suc, ◌+◌, ◌-◌, ◌%◌, ◌^◌, Bool, true, false, not, ◌&&◌, ◌||◌, Option, none, some, List,
  [], ◌∷◌, ◌++◌, length, get_elem?, set, replicate, if◌then◌else◌, ltb, leb, ◌==◌,
}
use at_jit.Prelude.Int.{ℤ}
use at_jit.Prelude.Partial.{◌>>=◌, ◌>>◌, assert}
use at_jit.Context.Interfaces.{Hashes}
use at_jit.Context.{
  IntRange, Argument, forward, int, float, ptr, struct, module_of, int_range, AutoTuner,
  FeedbackKind, Context, set_arg, empty_context,
}

-- The primary category of a type, by std::is_integral and the others of the C++ library.
pub data Category : Type 0 where
  integral floating pointer reference class_type other_type : Category

-- The options of options.h. A file's name is the list of its characters.
pub data EasyOption : Type 0 where
  opt_level : ℕ → ℕ → EasyOption
  tuner_kind : AutoTuner → EasyOption
  feedback_kind : FeedbackKind → EasyOption
  blocking : Bool → EasyOption
  dump_ir : List ℕ → EasyOption

module _ (h : Hashes) where
  -- Context's setters of a single field
  pub set_tuner_kind : Context h → AutoTuner → Context h
  set_tuner_kind c k = record c { tuner = k }

  pub set_feedback_kind : Context h → FeedbackKind → Context h
  set_feedback_kind c k = record c { feedback = k }

  pub set_wait_for_compile : Context h → Bool → Context h
  set_wait_for_compile c b = record c { wait_for_compile = b }

  pub set_opt_level : Context h → ℕ → ℕ → Context h
  set_opt_level c level size = record c { opt_level = level; opt_size = size }

  pub set_debug_file : Context h → List ℕ → Context h
  set_debug_file c file = record c { debug_file = file }

  pub set_debug_before_file : Context h → List ℕ → Context h
  set_debug_before_file c file = record c { debug_before_file = file }

  -- The characters of ".before"
  abbrev before_suffix : List ℕ
  before_suffix = 46 ∷ 98 ∷ 101 ∷ 102 ∷ 111 ∷ 114 ∷ 101 ∷ []

  -- The `handle` of each option
  pub handle : EasyOption → Context h → Context h
  handle (opt_level level size) c = set_opt_level c level size
  handle (tuner_kind k) c = set_tuner_kind c k
  handle (feedback_kind k) c = set_feedback_kind c k
  handle (blocking b) c = set_wait_for_compile c b
  handle (dump_ir file) c = set_debug_before_file (set_debug_file c file) (file ++ before_suffix)

  module _ (Ty : Type 0) where
    -- What C++ makes of a value that is passed for a parameter: its conversions to int64_t, to double and to a
    -- pointer, where there are such, its address, and its bytes.
    pub record Conversions : Type 0 where
      pub to_int : Option ℤ
      pub to_real : Option (Hashes.Real h)
      pub to_pointer : Option ℕ
      pub address : ℕ
      pub bytes : List ℤ

    -- An argument of easy::jit. A placeholder has the spelling of its type, and its index from 0; a function wrapper
    -- has the type of its function and its module.
    pub data Arg : Type 0 where
      placeholder : ℕ → ℕ → Arg
      wrapper : Ty → ℕ → Arg
      knob : IntRange → Arg
      value : Conversions → Arg
      option : EasyOption → Conversions → Arg

    module _ (category : Ty → Category) (assignable : Ty → Ty → Bool) (is_int : Ty → Bool) where
      -- set_parameter_helper<false>::set_param
      pub set_plain : Category → Conversions → Context h → Option (Context h)
      set_plain integral v c = do z ← v.to_int; some (set_arg h c (int z))
      set_plain floating v c = do x ← v.to_real; some (set_arg h c (float x))
      set_plain pointer v c = do p ← v.to_pointer; some (set_arg h c (ptr p))
      set_plain reference v c = some (set_arg h c (ptr v.address))
      set_plain class_type v c = some (set_arg h c (struct v.bytes))
      set_plain other_type v c = none

      -- set_parameter<Param, Arg>::help::set_param
      pub set_param : Ty → Arg → Context h → Option (Context h)
      set_param p (placeholder s k) c = some (set_arg h c (forward (k % 2 ^ 32)))
      set_param p (wrapper t f) c = assert (assignable p t) >> some (set_arg h c (module_of f))
      set_param p (knob r) c = assert (is_int p) >> some (set_arg h c (int_range r))
      set_param p (value v) c = set_plain (category p) v c
      set_param p (option o v) c = set_plain (category p) v c

      pub set_options : List Arg → Context h → Option (Context h)
      set_options [] c = some c
      set_options (option o v ∷ args) c = set_options args (handle o c)
      set_options (a ∷ args) c = none

      pub set_parameters : List Ty → List Arg → Context h → Option (Context h)
      set_parameters [] args c = set_options args c
      set_parameters (p ∷ ps) [] c = none
      set_parameters (p ∷ ps) (a ∷ args) c = set_param p a c >>= λ c'. set_parameters ps args c'

      pub get_context_for : List Ty → List Arg → Option (Context h)
      get_context_for ps args =
          assert (leb (length ps) (length args)) >> set_parameters ps args (empty_context h)

    -- discard_options
    pub discard_options : List Arg → List Arg
    discard_options [] = []
    discard_options (option o v ∷ args) = discard_options args
    discard_options (a ∷ args) = a ∷ discard_options args

    -- max_placeholder, from Max on; std::is_placeholder is the index plus one.
    pub max_placeholder : List Arg → ℕ → ℕ
    max_placeholder [] m = m
    max_placeholder (placeholder s k ∷ args) m =
        max_placeholder args (if ltb (k + 1) m then m else k + 1)
    max_placeholder (a ∷ args) m = max_placeholder args m

    -- Seen::has, on the type of a placeholder
    pub has_seen : ℕ × ℕ → List (ℕ × ℕ) → Bool
    has_seen p [] = false
    has_seen (s, k) ((s', k') ∷ seen) = s == s' && k == k' || has_seen (s, k) seen

    -- parse_placeholder, with the type and the index of the placeholder
    pub parse_placeholder : Arg → List (ℕ × ℕ) → Option (ℕ × ℕ)
    parse_placeholder (placeholder s k) seen = if has_seen (s, k) seen then none else some (s, k)
    parse_placeholder a seen = none

    -- The resulting types, where `void` is none of them
    pub no_void : List (Option Ty) → Option (List Ty)
    no_void [] = some []
    no_void (none ∷ ts) = none
    no_void (some t ∷ ts) = do rest ← no_void ts; some (t ∷ rest)

    -- map_placeholder_to_type::helper, on whether it is done; result_idx is 0 where there is no placeholder to parse.
    pub map_helper :
        List Ty → ℕ → Bool → List Arg → List (Option Ty) → List (ℕ × ℕ) → Option (List Ty)
    map_helper ps n true al result seen =
        assert (length seen == n && length result == n) >> no_void result
    map_helper ps n false [] result seen = none
    map_helper ps n false (a ∷ al) result seen = do
      assert (leb (length (a ∷ al)) (length ps))
      p ← get_elem? ps (length ps - length (a ∷ al))
      elim (parse_placeholder a seen) [
        | none ↦ assert (ltb 0 (length result)) >> map_helper ps n (length seen == n) al result seen
        | some (s, k) ↦
            assert (ltb k (length result))
            >> map_helper ps n (length seen + 1 == n) al (set result k (some p))
                (seen ++ (s, k) ∷ [])
      ]

    -- new_function_traits::parameter_list
    pub new_parameter_list : List Ty → List Arg → Option (List Ty)
    new_parameter_list ps args =
        let al = discard_options args in
        let n = max_placeholder al 0 in map_helper ps n (n == 0) al (replicate n none) []
