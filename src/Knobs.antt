-- ===== src/Knobs.antt =====
-- include/tuner/{Knob,KnobSet,KnobConfig,CodegenOptions,Tuner}.h, runtime/tuner/{KnobSet,KnobConfig}.cpp: knobs, their
-- configurations, and the visitors that make and apply a configuration. `none` as a result is a failed
-- assertion, an exception or a read out of bounds.
pub mod Visit
pub mod Generate
pub mod Perturb
pub mod Apply
pub mod Collect
mod Tests
use at_jit.Prelude.{
  ℕ, zero, suc, ◌+◌, Bool, true, false, ◌&&◌, ◌||◌, Option, none, some, List, [], ◌∷◌, ◌++◌, map,
  length, if◌then◌else◌, ◌==◌,
}
use at_jit.Prelude.Int.{ℤ, pos, negsuc, pos_part, leb_ℤ, eq_ℤ}
use at_jit.Prelude.Double.{Double}
use at_jit.Prelude.Rng.{Rng}
use at_jit.Prelude.Partial.{◌>>=◌, ◌>>◌, assert}
use at_jit.Util.{nearby_int}
use at_jit.LoopSetting.{LoopSetting, empty_setting}
use at_jit.LoopSetting.Gen.{gen_random, gen_nearby}

-- std::unordered_map, in the order of its iteration
abbrev pub Map {ℓ} : Type ℓ → Type ℓ
Map V = List (ℕ × V)

unfoldable pub lookup {ℓ} : {V : Type ℓ} → ℕ → Map V → Option V
lookup id [] = none
lookup id ((j, v) ∷ m) = if j == id then some v else lookup id m

-- m[id] = v
unfoldable pub insert {ℓ} : {V : Type ℓ} → Map V → ℕ → V → Map V
insert [] id v = (id, v) ∷ []
insert ((j, w) ∷ m) id v = if j == id then (id, v) ∷ m else (j, w) ∷ insert m id v

-- The classes under ScalarRange<int>: whether setVal asserts that a value is one of two (FlagKnob),
-- that it is in range (IntRange), or nothing (SimpleRange, InlineThreshold).
pub data Check : Type 0 where
  flag range unchecked : Check

pub record ScalarInt : Type 0 where
  pub lo : ℤ
  pub hi : ℤ
  pub dflt : ℤ
  pub val : ℤ
  pub check : Check

pub set_scalar : ScalarInt → ℤ → Option ScalarInt
set_scalar k v = do
  assert (elim k.check [
    | flag ↦ eq_ℤ v (pos 1) || eq_ℤ v (pos 0)
    | range ↦ leb_ℤ k.lo v && leb_ℤ v k.hi
    | unchecked ↦ true
  ])
  some (record k { val = v })

abbrev scalar : ℤ → ℤ → ℤ → Check → ScalarInt
scalar lo hi dflt check = record { lo = lo; hi = hi; dflt = dflt; val = dflt; check = check }

-- The knobs of CodegenOptions.h
abbrev pub flag_knob : Bool → ScalarInt
flag_knob dflt = scalar (pos 0) (pos 1) (if dflt then pos 1 else pos 0) flag

abbrev pub codegen_opt_lvl : ℤ → ScalarInt
codegen_opt_lvl dflt = scalar (pos 1) (pos 3) dflt unchecked

abbrev pub optimizer_opt_lvl : ℤ → ScalarInt
optimizer_opt_lvl dflt = scalar (pos 0) (pos 3) dflt unchecked

abbrev pub optimizer_size_lvl : ℤ → ScalarInt
optimizer_size_lvl dflt = scalar (pos 0) (pos 2) dflt unchecked

-- LLVM's default threshold is a parameter; the constructor asserts that it is in range.
pub inline_threshold : ℤ → Option ScalarInt
inline_threshold dflt = do
  assert (leb_ℤ dflt (pos 2000) && leb_ℤ (negsuc 1999) dflt)
  some (scalar (negsuc 1999) (pos 2000) dflt unchecked)

-- CodeGenOptLvl::getLevel, by the number of the level; `none` is its logic_error.
pub codegen_level : ScalarInt → Option ℕ
codegen_level k =
    if eq_ℤ k.val (pos 1)
    then some 1
    else if eq_ℤ k.val (pos 2)
    then some 2
    else if eq_ℤ k.val (pos 3)
    then some 3
    else none

-- class KnobSet; a loop's knob stands for its setting
pub record KnobSet : Type 0 where
  pub int_knobs : Map ScalarInt
  pub loop_knobs : Map LoopSetting

-- class KnobConfig
pub record KnobConfig : Type 0 where
  pub int_config : Map ℤ
  pub loop_config : Map LoopSetting

abbrev pub empty_config : KnobConfig
empty_config = record { int_config = []; loop_config = [] }

-- One loop of applyToKnobs, or of applyToConfig: the visitor's state is a map and the engine.
pub visit {ℓ κ ι} :
    {K : Type ℓ} {M : Type κ} {E : Type ι}
    → (ℕ → K → M → E → Option (M × E))
    → Map K
    → M
    → E
    → Option (M × E)
visit step [] m e = some (m, e)
visit step ((id, k) ∷ ks) m e = step id k m e >>= λ (m', e'). visit step ks m' e'

-- applyToKnobs on the ids
unfoldable pub all_ids : KnobSet → List ℕ
all_ids ks = map (λ p. p.0) ks.int_knobs ++ map (λ p. p.0) ks.loop_knobs

abbrev pub mem : ℕ → List ℕ → Bool
mem id [] = false
mem id (j ∷ js) = j == id || mem id js

-- The first n elements; `none` where the loop reads past the end.
pub first : ℕ → List ℕ → Option (List ℕ)
first zero ids = some []
first (suc n) [] = none
first (suc n) (id ∷ ids) = first n ids >>= λ rest. some (id ∷ rest)

-- The result of CollectIDs::get: the chosen ids, a read past the end of allIDs (which the source does not check), or
-- the failed assertion that the energy is a percentage.
pub data Selection : Type 0 where
  filtered : List ℕ → Selection
  past_end assertion_failed : Selection

abbrev in_bounds : Option (List ℕ) → Selection
in_bounds none = past_end
in_bounds (some ids) = filtered ids

-- The ids, where they are defined. A run that reads past the end is undefined, and is not followed further.
abbrev selected : Selection → Option (List ℕ)
selected (filtered ids) = some ids
selected past_end = none
selected assertion_failed = none

module _ (dbl : Double) (rng : Rng dbl) where
  open dbl use {D, lit, mul, of_int, ceil, narrow, le}
  open rng use {E, uniform}

  -- GenDefaultConfig
  pub default_int : ℕ → ScalarInt → Map ℤ → E → Option (Map ℤ × E)
  default_int id k m e = some (insert m id k.dflt, e)

  pub default_loop : ℕ → LoopSetting → Map LoopSetting → E → Option (Map LoopSetting × E)
  default_loop id k m e = some (insert m id empty_setting, e)

  -- GenSimpleRandConfig
  pub random_int : ℕ → ScalarInt → Map ℤ → E → Option (Map ℤ × E)
  random_int id k m e = let (v, e') = uniform k.lo k.hi e in some (insert m id v, e')

  -- `polly` is POLLY_KNOBS.
  pub random_loop : Bool → ℕ → LoopSetting → Map LoopSetting → E → Option (Map LoopSetting × E)
  random_loop polly id k m e = do
    (setting, e') ← gen_random dbl rng polly e
    some (insert m id setting, e')

  -- GenPartialNearbyConfig, over GenNearbyConfig
  pub nearby_int_knob : List ℕ → D → ℕ → ScalarInt → Map ℤ → E → Option (Map ℤ × E)
  nearby_int_knob chosen energy id k m e =
      if mem id chosen
      then (elim (lookup id m) [
        | none ↦ random_int id k m e
        | some old ↦
            let (v, e') = nearby_int dbl rng e old k.lo k.hi energy in some (insert m id v, e')
      ])
      else some (m, e)

  pub nearby_loop :
      Bool → List ℕ → D → ℕ → LoopSetting → Map LoopSetting → E → Option (Map LoopSetting × E)
  nearby_loop polly chosen energy id k m e =
      if mem id chosen
      then (elim (lookup id m) [
        | none ↦ random_loop polly id k m e
        | some old ↦ (do
          (setting, e') ← gen_nearby dbl rng polly e old energy
          some (insert m id setting, e'))
      ])
      else some (m, e)

  -- applyToKnobs with a visitor that makes a configuration
  pub make_config :
      (ℕ → ScalarInt → Map ℤ → E → Option (Map ℤ × E))
      → (ℕ → LoopSetting → Map LoopSetting → E → Option (Map LoopSetting × E))
      → KnobSet
      → KnobConfig
      → E
      → Option (KnobConfig × E)
  make_config on_int on_loop ks c e = do
    (ints, e1) ← visit on_int ks.int_knobs c.int_config e
    (loops, e2) ← visit on_loop ks.loop_knobs c.loop_config e1
    some (record { int_config = ints; loop_config = loops }, e2)

  pub gen_default_config : KnobSet → E → Option (KnobConfig × E)
  gen_default_config ks e = make_config default_int default_loop ks empty_config e

  pub gen_random_config : Bool → KnobSet → E → Option (KnobConfig × E)
  gen_random_config polly ks e = make_config random_int (random_loop polly) ks empty_config e

  -- CollectIDs: the ids in the order that std::shuffle leaves them in, and the percentage, which is a `float`, as the
  -- product is.
  pub collect_ids : D → List ℕ → Selection
  collect_ids pct shuffled =
      if le (lit 0 0) pct && le pct (lit 100 0)
      then in_bounds (
          first (pos_part (ceil (narrow (mul pct (narrow (of_int (pos (length shuffled))))))))
            shuffled)
      else assertion_failed

  -- The energy is a `float` parameter: an argument that is a `double` is narrowed.
  pub perturb_config :
      Bool → (List ℕ → List ℕ) → KnobConfig → KnobSet → E → D → Option (KnobConfig × E)
  perturb_config polly shuffle c ks e energy = do
    ids ← selected (collect_ids (narrow energy) (shuffle (all_ids ks)))
    make_config (nearby_int_knob ids (narrow energy)) (nearby_loop polly ids (narrow energy)) ks c e

-- KnobSetter: the knob of an entry takes its value. `none` where there is no such knob (the source reads
-- through a null pointer) or setVal fails.
pub set_int : ℕ → ℤ → Map ScalarInt → Unit {0} → Option (Map ScalarInt × Unit {0})
set_int id v ks u = do k ← lookup id ks; k' ← set_scalar k v; some (insert ks id k', u)

pub set_loop : ℕ → LoopSetting → Map LoopSetting → Unit {0} → Option (Map LoopSetting × Unit {0})
set_loop id v ks u = do k ← lookup id ks; some (insert ks id v, u)

-- Tuner::applyConfig, up to the changes of the module
pub apply_config : KnobConfig → KnobSet → Option KnobSet
apply_config c ks = do
  (ints, u) ← visit set_int c.int_config ks.int_knobs tt
  (loops, u') ← visit set_loop c.loop_config ks.loop_knobs tt
  some (record { int_knobs = ints; loop_knobs = loops })
