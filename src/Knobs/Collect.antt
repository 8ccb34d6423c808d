-- ===== src/Knobs/Collect.antt =====
-- runtime/tuner/Optimizer.cpp (findContextKnobs, and the knobs that initialize() collects). LLVM's default inlining
-- threshold for a level is a parameter, and so are the ids of the four knobs of the optimizer.
use at_jit.Prelude.{
  ℕ, ◌-◌, ◌^◌, ◌≢◌, ◌≡◌, Bool, true, false, ◌&&◌, Option, none, some, ◌∙◌, ap, refl, List, [], ◌∷◌,
  if◌then◌else◌, ltb, ◌==◌, arith, Bool-cases, inl, inr, ==_iff, sym,
}
use at_jit.Prelude.Int.{ℤ, pos, negsuc, ◌≤ℤ◌, leb_ℤ}
use at_jit.Prelude.Partial.{◌>>=◌, Succeeds}
use at_jit.Context.Interfaces.{Hashes}
use at_jit.Context.{
  IntRange, Argument, forward, int, float, ptr, struct, module_of, int_range, Context,
}
use at_jit.Knobs.{
  Map, insert, lookup, flag, unchecked, range, ScalarInt, KnobSet, optimizer_opt_lvl,
  optimizer_size_lvl, inline_threshold, flag_knob,
}
use at_jit.Knobs.Visit.{lookup-insert_self, lookup-insert_ne}

-- The knob of a range argument
abbrev pub scalar_of : IntRange → ScalarInt
scalar_of r = record { lo = r.lo; hi = r.hi; dflt = r.dflt; val = r.cur; check = range }

-- An `unsigned` as an `int`
pub to_int : ℕ → ℤ
to_int n = if ltb n (2 ^ 31) then pos n else negsuc (2 ^ 32 - 1 - n)

-- The ids of OptLvl, OptSz, InlineThresh and IPRAOpt
pub record KnobIds : Type 0 where
  pub opt_lvl_id : ℕ
  pub opt_sz_id : ℕ
  pub inline_id : ℕ
  pub ipra_id : ℕ

differs : (a b : ℕ) → (a == b) ≡ false → b ≢ a
differs a b e same = clash (a == b) ((==_iff a b).1 (sym same)) e
  where
    clash : (t : Bool) → t ≡ true → t ≡ false → ⊥
    clash t is is_not = ground arith

module _ (h : Hashes) where
  -- findContextKnobs
  unfoldable pub find_context_knobs : List (Argument h) → Map ScalarInt → Map ScalarInt
  find_context_knobs [] ks = ks
  find_context_knobs (int_range r ∷ args) ks =
      find_context_knobs args (insert ks r.id (scalar_of r))
  find_context_knobs (forward n ∷ args) ks = find_context_knobs args ks
  find_context_knobs (int z ∷ args) ks = find_context_knobs args ks
  find_context_knobs (float x ∷ args) ks = find_context_knobs args ks
  find_context_knobs (ptr n ∷ args) ks = find_context_knobs args ks
  find_context_knobs (struct bytes ∷ args) ks = find_context_knobs args ks
  find_context_knobs (module_of n ∷ args) ks = find_context_knobs args ks

  -- The knobs that initialize() gives to the tuner; `none` is the failed assertion of InlineThreshold.
  unfoldable pub collect_knobs : (ℕ → ℕ → ℤ) → KnobIds → Context h → Option KnobSet
  collect_knobs threshold ids c = do
    inline ← inline_threshold (threshold c.opt_level c.opt_size)
    a ← some (find_context_knobs c.args [])
    b ← some (insert a ids.opt_lvl_id (optimizer_opt_lvl (to_int c.opt_level)))
    d ← some (insert b ids.opt_sz_id (optimizer_size_lvl (to_int c.opt_size)))
    e ← some (insert d ids.inline_id inline)
    some (record { int_knobs = insert e ids.ipra_id (flag_knob false); loop_knobs = [] })

  -- The last of the range arguments that have the id
  abbrev pub last_range : ℕ → List (Argument h) → Option IntRange
  last_range id [] = none
  last_range id (int_range r ∷ args) = elim (last_range id args) [
    | some later ↦ some later
    | none ↦ if r.id == id then some r else none
  ]
  last_range id (_ ∷ args) = last_range id args

  -- What the context says of an id: the bounds and the default of the last range argument with it
  abbrev pub argument_knob : Option IntRange → Option ScalarInt
  argument_knob none = none
  argument_knob (some r) =
      some (record { lo = r.lo; hi = r.hi; dflt = r.dflt; val = r.cur; check = range })

  -- A knob that stands at its default, and takes any value
  abbrev pub open_knob : ℤ → ℤ → ℤ → ScalarInt
  open_knob lo hi dflt = record { lo = lo; hi = hi; dflt = dflt; val = dflt; check = unchecked }

  -- The knob under each id
  abbrev pub knob_at : (ℕ → ℕ → ℤ) → KnobIds → Context h → ℕ → Option ScalarInt
  knob_at threshold ids c id =
      if ids.ipra_id == id
      then some (record { lo = pos 0; hi = pos 1; dflt = pos 0; val = pos 0; check = flag })
      else if ids.inline_id == id
      then some (open_knob (negsuc 1999) (pos 2000) (threshold c.opt_level c.opt_size))
      else if ids.opt_sz_id == id
      then some (open_knob (pos 0) (pos 2) (to_int c.opt_size))
      else if ids.opt_lvl_id == id
      then some (open_knob (pos 0) (pos 3) (to_int c.opt_level))
      else argument_knob (last_range id c.args)

  lookup-insert :
      (ks : Map ScalarInt) (j id : ℕ) (k : ScalarInt)
      → lookup id (insert ks j k) ≡ (if j == id then some k else lookup id ks)
  lookup-insert ks j id k = elim (Bool-cases (j == id)) [
    | inl same ↦ rw (same, (==_iff j id).0 same) (lookup-insert_self ks id k)
    | inr other ↦ rw other (lookup-insert_ne ks j id k (differs j id other))
  ]

  or_else : Option ScalarInt → Option ScalarInt → Option ScalarInt
  or_else none o = o
  or_else (some k) o = some k

  by_later :
      (later : Option IntRange) (b : Bool) (r : IntRange) (o : Option ScalarInt)
      → or_else (argument_knob later) (if b then some (scalar_of r) else o)
        ≡ or_else
            (argument_knob (elim later [ some l ↦ some l | none ↦ if b then some r else none ]))
            o
  unfolding or_else
  by_later (some l) b r o = refl
  by_later none true r o = refl
  by_later none false r o = refl

  find_context_knobs-lookup :
      (args : List (Argument h)) (ks : Map ScalarInt) (id : ℕ)
      → lookup id (find_context_knobs args ks)
        ≡ or_else (argument_knob (last_range id args)) (lookup id ks)
  unfolding find_context_knobs or_else
  find_context_knobs-lookup [] ks id = refl
  find_context_knobs-lookup (int_range r ∷ args) ks id =
      find_context_knobs-lookup args (insert ks r.id (scalar_of r)) id
      ∙ ap (or_else (argument_knob (last_range id args))) (lookup-insert ks r.id id (scalar_of r))
      ∙ by_later (last_range id args) (r.id == id) r (lookup id ks)
  find_context_knobs-lookup (forward n ∷ args) ks id = find_context_knobs-lookup args ks id
  find_context_knobs-lookup (int z ∷ args) ks id = find_context_knobs-lookup args ks id
  find_context_knobs-lookup (float x ∷ args) ks id = find_context_knobs-lookup args ks id
  find_context_knobs-lookup (ptr n ∷ args) ks id = find_context_knobs-lookup args ks id
  find_context_knobs-lookup (struct bytes ∷ args) ks id = find_context_knobs-lookup args ks id
  find_context_knobs-lookup (module_of n ∷ args) ks id = find_context_knobs-lookup args ks id

  or_else-none : (o : Option ScalarInt) → or_else o none ≡ o
  unfolding or_else
  or_else-none none = refl
  or_else-none (some k) = refl

  after_insert :
      (ks : Map ScalarInt) (j id : ℕ) (k : ScalarInt) (o : Option ScalarInt)
      → lookup id ks ≡ o
      → lookup id (insert ks j k) ≡ (if j == id then some k else o)
  after_insert ks j id k o e = lookup-insert ks j id k ∙ ap (λ x. if j == id then some k else x) e

  inline_threshold-is :
      (dflt : ℤ)
      → negsuc 1999 ≤ℤ dflt
      → dflt ≤ℤ pos 2000
      → inline_threshold dflt ≡ some (open_knob (negsuc 1999) (pos 2000) dflt)
  unfolding inline_threshold
  inline_threshold-is dflt lo hi =
      let inside : (leb_ℤ dflt (pos 2000) && leb_ℤ (negsuc 1999) dflt) ≡ true = ground arith in
      rw inside refl

  -- Where LLVM's default threshold is from -2000 to 2000, collecting the knobs of any context succeeds, and no loop has
  -- a knob yet. Under each id stands exactly this: the flag for IPRA, which is off; else the inlining threshold, from
  -- -2000 to 2000, at LLVM's default; else the size level, from 0 to 2, and the optimization level, from 0 to 3, both
  -- at what the context asks for; else the bounds, the default and the value of the last range argument with the id;
  -- else nothing.
  pub collect_knobs-lookup :
      (threshold : ℕ → ℕ → ℤ) (ids : KnobIds) (c : Context h)
      → negsuc 1999 ≤ℤ threshold c.opt_level c.opt_size
      → threshold c.opt_level c.opt_size ≤ℤ pos 2000
      → Succeeds
          (λ ks.
            ((id : ℕ) → lookup id ks.int_knobs ≡ knob_at threshold ids c id) × (ks.loop_knobs ≡ []))
          (collect_knobs threshold ids c)
  unfolding collect_knobs lookup
  collect_knobs-lookup threshold ids c lo hi =
      rw (inline_threshold-is (threshold c.opt_level c.opt_size) lo hi) (
        λ id. after_insert _ ids.ipra_id id _ _ (
            after_insert _ ids.inline_id id _ _ (
              after_insert _ ids.opt_sz_id id _ _ (
                after_insert _ ids.opt_lvl_id id _ _ (
                  find_context_knobs-lookup c.args [] id
                  ∙ or_else-none (argument_knob (last_range id c.args)))))),
        refl,
      )
